-- ===== src/Identity/Reordering.antt =====
-- The canonical text forgets the order of an object's keys, at every depth
-- (api-service/src/services/identity.ts).
use scalequeue.Common.{◌≡◌, refl, sym, ◌∙◌, ap₂, String, List, ◌∷◌}
use scalequeue.Json.{Json, arr, obj, Items, nil, cons, Fields, end, field}
use scalequeue.Identity.{
  Entry, sort_entries, print_object, canonical, canonical_items, canonical_entries,
}
use scalequeue.Identity.Order.{HaveDistinctKeys, sort_entries-swap, sort_entries-cons}

-- The same JSON value up to the order of the entries of objects, at every depth; arrays keep theirs.
mutual
  pub data SameJson : Json → Json → Type 0 where
    unchanged : (v : Json) → SameJson v v
    turned : {v w : Json} → SameJson v w → SameJson w v
    through : {u v w : Json} → SameJson u v → SameJson v w → SameJson u w
    in_array : {xs ys : Items} → SameItems xs ys → SameJson (arr xs) (arr ys)
    in_object : {fs gs : Fields} → SameFields fs gs → SameJson (obj fs) (obj gs)

  pub data SameItems : Items → Items → Type 0 where
    no_items : SameItems nil nil
    item :
        {x y : Json} {xs ys : Items}
        → SameJson x y
        → SameItems xs ys
        → SameItems (cons x xs) (cons y ys)

  pub data SameFields : Fields → Fields → Type 0 where
    no_fields : SameFields end end
    entry :
        {v w : Json} {fs gs : Fields} (k : String)
        → SameJson v w
        → SameFields fs gs
        → SameFields (field k v fs) (field k w gs)
    swap :
        {v w : Json} {fs gs : Fields} (j k : String)
        → HaveDistinctKeys j k
        → SameFields fs gs
        → SameFields (field j v (field k w fs)) (field k w (field j v gs))
    both : {fs gs hs : Fields} → SameFields fs gs → SameFields gs hs → SameFields fs hs

print_object_cong :
    (es ds : List Entry) → sort_entries es ≡ sort_entries ds → print_object es ≡ print_object ds
unfolding print_object
print_object_cong es ds h = rw h

mutual
  unfolding canonical

  canonical_same : {v w : Json} → SameJson v w → canonical v ≡ canonical w
  canonical_same (unchanged v) = refl
  canonical_same (turned h) = sym (canonical_same h)
  canonical_same (through h k) = canonical_same h ∙ canonical_same k
  canonical_same (in_array h) = rw (items_same h)
  canonical_same (in_object {fs} {gs} h) =
      print_object_cong (canonical_entries fs) (canonical_entries gs) (fields_same h)

  items_same : {xs ys : Items} → SameItems xs ys → canonical_items xs ≡ canonical_items ys
  items_same no_items = refl
  items_same (item h k) = ap₂ ◌∷◌ (canonical_same h) (items_same k)

  fields_same :
      {fs gs : Fields}
      → SameFields fs gs
      → sort_entries (canonical_entries fs) ≡ sort_entries (canonical_entries gs)
  fields_same no_fields = refl
  fields_same (entry {v} {w} {fs} {gs} k h r) = rw (canonical_same h) (
      sort_entries-cons (k, canonical w) (canonical_entries fs) (canonical_entries gs)
        (fields_same r))
  fields_same (swap {v} {w} {fs} {gs} j k ne r) =
      sort_entries-swap (j, canonical v) (k, canonical w) (canonical_entries fs)
        (canonical_entries gs) ne (fields_same r)
  fields_same (both h k) = fields_same h ∙ fields_same k

-- Values that differ only in the order of their objects' entries have the same canonical text.
pub canonical-SameJson : {v w : Json} → SameJson v w → canonical v ≡ canonical w
canonical-SameJson h = canonical_same h
