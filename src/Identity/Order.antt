-- ===== src/Identity/Order.antt =====
-- The order of JavaScript strings by code units, and the sort of an object's entries
-- (api-service/src/services/identity.ts): a total order, so the sort forgets the entries' order.
use scalequeue.Common.{
  ℕ, ◌≡◌, ◌≢◌, refl, ap, String, true, false, List, [], ◌∷◌, arith, Bool-cases, inl, inr,
}
use scalequeue.Identity.{codes, units, less_units, less, Entry, insert_entry, sort_entries}

pub less_units_asym : (xs ys : List ℕ) → less_units xs ys ≡ true → less_units ys xs ≡ false
less_units_asym [] [] h = cc
less_units_asym [] (y ∷ ys) h = refl
less_units_asym (x ∷ xs) [] h = cc
less_units_asym (x ∷ xs) (y ∷ ys) h = ground (arith, less_units_asym xs ys)

less_units_total : (xs ys : List ℕ) → less_units xs ys ≡ false → less_units ys xs ≡ false → xs ≡ ys
less_units_total [] [] h k = refl
less_units_total [] (y ∷ ys) h k = cc
less_units_total (x ∷ xs) [] h k = cc
less_units_total (x ∷ xs) (y ∷ ys) h k = ground (arith, less_units_total xs ys)

-- From `ys ≤ xs` and `xs < zs`, `ys < zs`.
less_units_trans :
    (xs ys zs : List ℕ)
    → less_units xs zs ≡ true
    → less_units xs ys ≡ false
    → less_units ys zs ≡ true
less_units_trans xs ys [] h k = cc
less_units_trans [] [] (z ∷ zs) h k = refl
less_units_trans [] (y ∷ ys) (z ∷ zs) h k = cc
less_units_trans (x ∷ xs) [] (z ∷ zs) h k = refl
less_units_trans (x ∷ xs) (y ∷ ys) (z ∷ zs) h k = ground (arith, less_units_trans xs ys zs)

-- The keys differ as JavaScript strings.
abbrev pub HaveDistinctKeys : String → String → Type 0
HaveDistinctKeys a b = units (codes a) ≢ units (codes b)

less_total : (a b : String) → HaveDistinctKeys a b → less a b ≡ false → less b a ≡ true
less_total a b ne h = elim (Bool-cases (less b a)) [
  | inl t ↦ t
  | inr f ↦ absurd (ne (less_units_total (units (codes a)) (units (codes b)) h f))
]

insert_entry_comm :
    (d e : Entry) (xs : List Entry)
    → HaveDistinctKeys (d.0) (e.0)
    → insert_entry d (insert_entry e xs) ≡ insert_entry e (insert_entry d xs)
unfolding insert_entry
insert_entry_comm d e [] ne =
    ground
      (arith, less_units_asym (units (codes d.0)) (units (codes e.0)), less_total (d.0) (e.0) ne)
insert_entry_comm d e (x ∷ xs) ne = ground (
  arith,
  insert_entry_comm d e xs ne,
  less_units_asym (units (codes d.0)) (units (codes e.0)),
  less_total (d.0) (e.0) ne,
  less_units_trans (units (codes x.0)) (units (codes d.0)) (units (codes e.0)),
  less_units_trans (units (codes x.0)) (units (codes e.0)) (units (codes d.0)),
)

-- Two neighbours with distinct keys may change places.
pub sort_entries-swap :
    (d e : Entry) (xs ys : List Entry)
    → HaveDistinctKeys (d.0) (e.0)
    → sort_entries xs ≡ sort_entries ys
    → sort_entries (d ∷ e ∷ xs) ≡ sort_entries (e ∷ d ∷ ys)
unfolding sort_entries
sort_entries-swap d e xs ys ne h = rw h (insert_entry_comm d e (sort_entries ys) ne)

pub sort_entries-cons :
    (e : Entry) (xs ys : List Entry)
    → sort_entries xs ≡ sort_entries ys
    → sort_entries (e ∷ xs) ≡ sort_entries (e ∷ ys)
unfolding sort_entries
sort_entries-cons e xs ys h = ap (insert_entry e) h
