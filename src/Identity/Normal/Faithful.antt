-- ===== src/Identity/Normal/Faithful.antt =====
-- The canonical text (api-service/src/services/identity.ts) tells JSON values apart, up to the order
-- of the entries of objects.
use scalequeue.Common.{
  ◌≡◌, refl, sym, ◌∙◌, ap₂, ◌↔◌, String, true, ◌&&◌, Bool-cases, inl, inr, arith,
}
use scalequeue.Json.{Json, null, bool, num, str, arr, obj, Items, nil, cons, Fields, end, field}
use scalequeue.Identity.{codes, units, less_units, less, canonical}
use scalequeue.Identity.Order.{HaveDistinctKeys, less_units_asym}
use scalequeue.Identity.Reordering.{
  SameJson, unchanged, turned, through, in_array, in_object, SameItems, no_items, item, SameFields,
  no_fields, entry, swap, both, canonical-SameJson,
}
use scalequeue.Identity.Normal.{insert_field, normal, normal_items, normal_fields, canonical-print}
use scalequeue.Identity.Reading.{has_numerals, items_have_numerals, fields_have_numerals}
use scalequeue.Identity.Reading.RoundTrip.{print_injective}

same_fields : (fs : Fields) → SameFields fs fs
same_fields end = no_fields
same_fields (field k v fs) = entry k (unchanged v) (same_fields fs)

less-HaveDistinctKeys : (a b : String) → less a b ≡ true → HaveDistinctKeys b a
less-HaveDistinctKeys a b h e =
    let u = units (codes a) in
    let smaller : less_units u u ≡ true = rw e at h in
    let not_smaller = less_units_asym u u smaller in cc

insert_field-SameFields :
    (k : String) (v : Json) (fs : Fields) → SameFields (field k v fs) (insert_field k v fs)
unfolding insert_field
insert_field-SameFields k v end = same_fields (field k v end)
insert_field-SameFields k v (field x w fs) = elim (Bool-cases (less x k)) [
  | inl e ↦ rw e (
      both (swap k x (less-HaveDistinctKeys x k e) (same_fields fs))
        (entry x (unchanged w) (insert_field-SameFields k v fs)))
  | inr e ↦ rw e (same_fields (field k v (field x w fs)))
]

mutual
  unfolding normal

  -- Sorting is a reordering.
  normal-SameJson : (v : Json) → SameJson v (normal v)
  normal-SameJson null = unchanged null
  normal-SameJson (bool b) = unchanged (bool b)
  normal-SameJson (num n) = unchanged (num n)
  normal-SameJson (str s) = unchanged (str s)
  normal-SameJson (arr xs) = in_array (normal-SameItems xs)
  normal-SameJson (obj fs) = in_object (normal-SameFields fs)

  normal-SameItems : (xs : Items) → SameItems xs (normal_items xs)
  normal-SameItems nil = no_items
  normal-SameItems (cons x xs) = item (normal-SameJson x) (normal-SameItems xs)

  normal-SameFields : (fs : Fields) → SameFields fs (normal_fields fs)
  normal-SameFields end = no_fields
  normal-SameFields (field k v fs) =
      both (entry k (normal-SameJson v) (normal-SameFields fs))
        (insert_field-SameFields k (normal v) (normal_fields fs))

fields_have_numerals-insert_field :
    (k : String) (v : Json) (fs : Fields)
    → fields_have_numerals (insert_field k v fs) ≡ (has_numerals v && fields_have_numerals fs)
unfolding insert_field has_numerals
fields_have_numerals-insert_field k v end = refl
fields_have_numerals-insert_field k v (field x w fs) =
    ground (arith, fields_have_numerals-insert_field k v fs)

mutual
  unfolding normal has_numerals

  has_numerals-normal : (v : Json) → has_numerals (normal v) ≡ has_numerals v
  has_numerals-normal null = refl
  has_numerals-normal (bool b) = refl
  has_numerals-normal (num n) = refl
  has_numerals-normal (str s) = refl
  has_numerals-normal (arr xs) = items_have_numerals-normal xs
  has_numerals-normal (obj fs) = fields_have_numerals-normal fs

  items_have_numerals-normal :
      (xs : Items) → items_have_numerals (normal_items xs) ≡ items_have_numerals xs
  items_have_numerals-normal nil = refl
  items_have_numerals-normal (cons x xs) =
      ap₂ ◌&&◌ (has_numerals-normal x) (items_have_numerals-normal xs)

  fields_have_numerals-normal :
      (fs : Fields) → fields_have_numerals (normal_fields fs) ≡ fields_have_numerals fs
  fields_have_numerals-normal end = refl
  fields_have_numerals-normal (field k v fs) =
      fields_have_numerals-insert_field k (normal v) (normal_fields fs)
      ∙ ap₂ ◌&&◌ (has_numerals-normal v) (fields_have_numerals-normal fs)

normal_faithful :
    (v w : Json)
    → has_numerals v ≡ true
    → has_numerals w ≡ true
    → canonical v ≡ canonical w
    → SameJson v w
normal_faithful v w a b same =
    let one : normal v ≡ normal w =
      print_injective (normal v) (normal w) (has_numerals-normal v ∙ a) (has_numerals-normal w ∙ b)
        (sym (canonical-print v) ∙ same ∙ canonical-print w) in
    through (rw one at (normal-SameJson v)) (turned (normal-SameJson w))

-- The canonical text identifies a JSON value up to the order of the entries of objects: two values
-- have the same text exactly when reorderings of objects' entries, at any depth, lead from one to
-- the other. Every number is printed as a text of digits, signs, `.` and `e`, as JSON has them.
pub canonical_faithful :
    (v w : Json)
    → has_numerals v ≡ true
    → has_numerals w ≡ true
    → (canonical v ≡ canonical w) ↔ SameJson v w
canonical_faithful v w a b = (normal_faithful v w a b, canonical-SameJson)
