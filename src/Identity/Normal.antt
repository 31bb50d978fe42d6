-- ===== src/Identity/Normal.antt =====
-- A JSON value whose objects' entries are sorted at every depth, and its text: what `canonical` of
-- api-service/src/services/identity.ts prints.
pub mod Faithful
use scalequeue.Common.{
  ℕ, ◌≡◌, ◌≢◌, refl, sym, ◌∙◌, ap, ap₂, String, Bool, true, false, ◌&&◌, List, [], ◌∷◌, ◌++◌, map,
  if◌then◌else◌, append_assoc, Bool-cases, inl, inr, arith,
}
use scalequeue.Json.{Json, null, bool, num, str, arr, obj, Items, nil, cons, Fields, end, field}
use scalequeue.Identity.{
  Text, Entry, codes, quote, join, less, units, less_units, insert_entry, sort_entries, print_entry,
  print_object, canonical, canonical_items, canonical_entries,
}

-- An entry goes before the first whose key is not smaller.
insert_field : String → Json → Fields → Fields
insert_field k v end = field k v end
insert_field k v (field x w fs) =
    if less x k then field x w (insert_field k v fs) else field k v (field x w fs)

unfoldable mutual
  unfolding insert_field

  pub normal : Json → Json
  normal null = null
  normal (bool b) = bool b
  normal (num n) = num n
  normal (str s) = str s
  normal (arr xs) = arr (normal_items xs)
  normal (obj fs) = obj (normal_fields fs)

  pub normal_items : Items → Items
  normal_items nil = nil
  normal_items (cons x xs) = cons (normal x) (normal_items xs)

  pub normal_fields : Fields → Fields
  normal_fields end = end
  normal_fields (field k v fs) = insert_field k (normal v) (normal_fields fs)

-- `JSON.stringify` of a value, its entries in their order.
unfoldable mutual
  pub print : Json → Text
  print null = codes "null"
  print (bool true) = codes "true"
  print (bool false) = codes "false"
  print (num n) = n
  print (str s) = quote s
  print (arr xs) = b'[' ∷ print_items xs
  print (obj fs) = b'{' ∷ print_fields fs

  pub print_items : Items → Text
  print_items nil = b']' ∷ []
  print_items (cons x xs) = print x ++ print_more_items xs

  pub print_more_items : Items → Text
  print_more_items nil = b']' ∷ []
  print_more_items (cons x xs) = b',' ∷ (print x ++ print_more_items xs)

  pub print_fields : Fields → Text
  print_fields end = b'}' ∷ []
  print_fields (field k v fs) = quote k ++ (b':' ∷ (print v ++ print_more_fields fs))

  pub print_more_fields : Fields → Text
  print_more_fields end = b'}' ∷ []
  print_more_fields (field k v fs) = b',' ∷ (quote k ++ (b':' ∷ (print v ++ print_more_fields fs)))

abbrev printed_items : Items → List Text
printed_items nil = []
printed_items (cons x xs) = print x ∷ printed_items xs

abbrev printed_entries : Fields → List Entry
printed_entries end = []
printed_entries (field k v fs) = (k, print v) ∷ printed_entries fs

join-items : (xs : Items) → join (printed_items xs) ++ b']' ∷ [] ≡ print_items xs
unfolding join print
join-items nil = refl
join-items (cons x nil) = refl
join-items (cons x (cons y xs)) =
    append_assoc (print x) _ (b']' ∷ []) ∙ ap (λ t. print x ++ b',' ∷ t) (join-items (cons y xs))

join-entries :
    (fs : Fields) → join (map print_entry (printed_entries fs)) ++ b'}' ∷ [] ≡ print_fields fs
unfolding join print print_entry
join-entries end = refl
join-entries (field k v end) = append_assoc (quote k) (b':' ∷ print v) (b'}' ∷ [])
join-entries (field k v (field l w fs)) =
    append_assoc (quote k ++ b':' ∷ print v) _ (b'}' ∷ [])
    ∙ ap (λ t. (quote k ++ b':' ∷ print v) ++ b',' ∷ t) (join-entries (field l w fs))
    ∙ append_assoc (quote k) (b':' ∷ print v) _

insert_entry-printed :
    (k : String) (v : Json) (fs : Fields)
    → insert_entry (k, print v) (printed_entries fs) ≡ printed_entries (insert_field k v fs)
unfolding insert_entry insert_field
insert_entry-printed k v end = refl
insert_entry-printed k v (field x w fs) = elim (Bool-cases (less x k)) [
  | inl e ↦ rw e (ap (λ t. (x, print w) ∷ t) (insert_entry-printed k v fs))
  | inr e ↦ rw e refl
]

mutual
  unfolding canonical normal print print_object sort_entries

  -- `canonical` sorts the entries, and prints.
  pub canonical-print : (v : Json) → canonical v ≡ print (normal v)
  canonical-print null = refl
  canonical-print (bool true) = refl
  canonical-print (bool false) = refl
  canonical-print (num n) = refl
  canonical-print (str s) = refl
  canonical-print (arr xs) =
      ap (λ ts. b'[' ∷ (join ts ++ b']' ∷ [])) (items-printed xs)
      ∙ ap (λ t. b'[' ∷ t) (join-items (normal_items xs))
  canonical-print (obj fs) =
      ap (λ (es : List Entry). b'{' ∷ (join (map print_entry es) ++ b'}' ∷ [])) (fields-printed fs)
      ∙ ap (λ t. b'{' ∷ t) (join-entries (normal_fields fs))

  items-printed : (xs : Items) → canonical_items xs ≡ printed_items (normal_items xs)
  items-printed nil = refl
  items-printed (cons x xs) = ap₂ ◌∷◌ (canonical-print x) (items-printed xs)

  fields-printed :
      (fs : Fields) → sort_entries (canonical_entries fs) ≡ printed_entries (normal_fields fs)
  fields-printed end = refl
  fields-printed (field k v fs) =
      rw (canonical-print v)
        (rw (fields-printed fs) (insert_entry-printed k (normal v) (normal_fields fs)))
