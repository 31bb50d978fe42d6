-- ===== src/Identity/Reading.antt =====
-- The text of a JSON value (api-service/src/services/identity.ts), read back.
pub mod RoundTrip
use scalequeue.Common.{
  ℕ, zero, suc, ◌+◌, ◌<◌, ◌≡◌, refl, sym, ◌∙◌, ap, String, Bool, true, false, not, ◌&&◌, ◌||◌,
  Option, none, some, List, [], ◌∷◌, ◌++◌, ltb, ◌==◌, if◌then◌else◌, arith, length, drop,
  append_assoc, Bool-cases, inl, inr,
}
use scalequeue.Http.{is_digit}
use scalequeue.Json.{Json, null, bool, num, str, arr, obj, Items, nil, cons, Fields, end, field}
use scalequeue.Identity.{Text, codes, quote, escape_all}
use scalequeue.Identity.Lexing.{text_string, text_string-codes, read_string, read_string-escape_all}
use scalequeue.Identity.Normal.{
  print, print_items, print_more_items, print_fields, print_more_fields,
}

-- The characters of a number.
abbrev pub is_numeral_code : ℕ → Bool
is_numeral_code c =
    is_digit c || (c == b'-' || (c == b'+' || (c == b'.' || (c == b'e' || c == b'E'))))

abbrev pub is_numeral_rest : Text → Bool
is_numeral_rest [] = true
is_numeral_rest (c ∷ t) = is_numeral_code c && is_numeral_rest t

-- A text that `JSON.stringify` may print for a number.
abbrev pub is_numeral : Text → Bool
is_numeral [] = false
is_numeral (c ∷ t) = is_numeral_code c && is_numeral_rest t

-- Every number in the value is such a text.
unfoldable mutual
  pub has_numerals : Json → Bool
  has_numerals null = true
  has_numerals (bool b) = true
  has_numerals (num n) = is_numeral n
  has_numerals (str s) = true
  has_numerals (arr xs) = items_have_numerals xs
  has_numerals (obj fs) = fields_have_numerals fs

  pub items_have_numerals : Items → Bool
  items_have_numerals nil = true
  items_have_numerals (cons x xs) = has_numerals x && items_have_numerals xs

  pub fields_have_numerals : Fields → Bool
  fields_have_numerals end = true
  fields_have_numerals (field k v fs) = has_numerals v && fields_have_numerals fs

-- The number that a text begins with, and what follows it.
span : Text → Text × Text
span [] = ([], [])
span (c ∷ t) = let (a, b) = span t in if is_numeral_code c then (c ∷ a, b) else ([], c ∷ t)

abbrev is_delimited : Text → Bool
is_delimited [] = true
is_delimited (c ∷ t) = not (is_numeral_code c)

span-stop : (r : Text) → is_delimited r ≡ true → span r ≡ ([], r)
unfolding span
span-stop [] h = refl
span-stop (c ∷ t) h = elim (Bool-cases (is_numeral_code c)) [
  | inl e ↦ ground arith
  | inr e ↦ rw e refl
]

span-numeral :
    (n r : Text) → is_numeral_rest n ≡ true → is_delimited r ≡ true → span (n ++ r) ≡ (n, r)
unfolding span
span-numeral [] r h d = span-stop r d
span-numeral (c ∷ n) r h d =
    let first : is_numeral_code c ≡ true = ground arith in
    let rest : is_numeral_rest n ≡ true = ground arith in
    rw (span-numeral n r rest d) (rw first refl)

-- What a value begins with.
data Head : Type 0 where
  null_head true_head false_head quote_head array_head object_head number_head : Head

abbrev head : ℕ → Head
head c =
    if c == b'n'
    then null_head
    else if c == b't'
    then true_head
    else if c == b'f'
    then false_head
    else if c == 0x22
    then quote_head
    else if c == b'['
    then array_head
    else if c == b'{'
    then object_head
    else number_head

abbrev read_str : Option (Text × Text) → Option (Json × Text)
read_str none = none
read_str (some (s, r)) = some (str (text_string s), r)

abbrev read_arr : Option (Items × Text) → Option (Json × Text)
read_arr none = none
read_arr (some (xs, r)) = some (arr xs, r)

abbrev read_obj : Option (Fields × Text) → Option (Json × Text)
read_obj none = none
read_obj (some (fs, r)) = some (obj fs, r)

abbrev read_num : Text × Text → Option (Json × Text)
read_num (n, r) = some (num n, r)

abbrev put_item : Json → Option (Items × Text) → Option (Items × Text)
put_item x none = none
put_item x (some (xs, r)) = some (cons x xs, r)

abbrev put_field : Text → Json → Option (Fields × Text) → Option (Fields × Text)
put_field k v none = none
put_field k v (some (fs, r)) = some (field (text_string k) v fs, r)

abbrev item_then : Option (Json × Text) → (Text → Option (Items × Text)) → Option (Items × Text)
item_then none more = none
item_then (some (x, r)) more = put_item x (more r)

abbrev value_then :
    Text → Option (Json × Text) → (Text → Option (Fields × Text)) → Option (Fields × Text)
value_then k none more = none
value_then k (some (v, r)) more = put_field k v (more r)

abbrev key_then :
    Option (Text × Text)
    → (Text → Option (Json × Text))
    → (Text → Option (Fields × Text))
    → Option (Fields × Text)
key_then none value more = none
key_then (some (k, r)) value more = value_then k (value (drop 1 r)) more

abbrev by_head :
    Head
    → ℕ
    → Text
    → (Text → Option (Text × Text))
    → (Text → Option (Items × Text))
    → (Text → Option (Fields × Text))
    → Option (Json × Text)
by_head null_head c t s a o = some (null, drop 3 t)
by_head true_head c t s a o = some (bool true, drop 3 t)
by_head false_head c t s a o = some (bool false, drop 4 t)
by_head quote_head c t s a o = read_str (s t)
by_head array_head c t s a o = read_arr (a t)
by_head object_head c t s a o = read_obj (o t)
by_head number_head c t s a o = read_num (span (c ∷ t))

mutual
  unfolding span read_string

  read_value : ℕ → Text → Option (Json × Text)
  read_value zero t = none
  read_value (suc f) [] = none
  read_value (suc f) (c ∷ t) = by_head (head c) c t (read_string f) (read_items f) (read_fields f)

  read_items : ℕ → Text → Option (Items × Text)
  read_items zero t = none
  read_items (suc f) [] = none
  read_items (suc f) (c ∷ t) =
      if c == b']' then some (nil, t) else item_then (read_value f (c ∷ t)) (read_more_items f)

  read_more_items : ℕ → Text → Option (Items × Text)
  read_more_items zero t = none
  read_more_items (suc f) [] = none
  read_more_items (suc f) (c ∷ t) =
      if c == b']' then some (nil, t) else item_then (read_value f t) (read_more_items f)

  read_fields : ℕ → Text → Option (Fields × Text)
  read_fields zero t = none
  read_fields (suc f) [] = none
  read_fields (suc f) (c ∷ t) =
      if c == b'}'
      then some (end, t)
      else key_then (read_string f t) (read_value f) (read_more_fields f)

  read_more_fields : ℕ → Text → Option (Fields × Text)
  read_more_fields zero t = none
  read_more_fields (suc f) [] = none
  read_more_fields (suc f) (c ∷ t) =
      if c == b'}'
      then some (end, t)
      else key_then (read_string f (drop 1 t)) (read_value f) (read_more_fields f)
