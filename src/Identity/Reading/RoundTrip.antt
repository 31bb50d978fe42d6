-- ===== src/Identity/Reading/RoundTrip.antt =====
-- What was printed for a JSON value (api-service/src/services/identity.ts) reads back as the value.
use scalequeue.Common.{
  ℕ, zero, suc, ◌+◌, ◌<◌, ◌≡◌, refl, sym, ◌∙◌, ap, String, true, false, Option, none, some, [], ◌∷◌,
  ◌++◌, ◌==◌, arith, length, append_assoc,
}
use scalequeue.Json.{Json, null, bool, num, str, arr, obj, Items, nil, cons, Fields, end, field}
use scalequeue.Identity.{Text, codes, quote, escape_all}
use scalequeue.Identity.Lexing.{text_string-codes, read_string, read_string-escape_all}
use scalequeue.Identity.Normal.{
  print, print_items, print_more_items, print_fields, print_more_fields,
}
use scalequeue.Identity.Reading.{
  is_numeral_code, is_numeral, has_numerals, items_have_numerals, fields_have_numerals,
  span-numeral, is_delimited, head, number_head, read_value, read_items, read_more_items,
  read_fields, read_more_fields, item_then, key_then,
}

-- How much fuel the reading of a value spends.
mutual
  weight : Json → ℕ
  weight null = 0
  weight (bool b) = 0
  weight (num n) = 0
  weight (str s) = suc (length (codes s))
  weight (arr xs) = suc (items_weight xs)
  weight (obj fs) = suc (fields_weight fs)

  items_weight : Items → ℕ
  items_weight nil = 0
  items_weight (cons x xs) = suc (weight x + items_weight xs)

  fields_weight : Fields → ℕ
  fields_weight end = 0
  fields_weight (field k v fs) = suc (length (codes k) + weight v + fields_weight fs)

more_items-is_delimited : (xs : Items) (r : Text) → is_delimited (print_more_items xs ++ r) ≡ true
unfolding print
more_items-is_delimited nil r = refl
more_items-is_delimited (cons x xs) r = refl

more_fields-is_delimited :
    (fs : Fields) (r : Text) → is_delimited (print_more_fields fs ++ r) ≡ true
unfolding print
more_fields-is_delimited end r = refl
more_fields-is_delimited (field k v fs) r = refl

-- The text of a value does not begin with a closing bracket.
abbrev IsOpen : Text → Type 0
IsOpen t = (c : ℕ) × (u : Text) × (t ≡ c ∷ u) × ((c == b']') ≡ false)

numeral-IsOpen : (n : Text) → is_numeral n ≡ true → IsOpen n
numeral-IsOpen [] h = cc
numeral-IsOpen (c ∷ t) h = (c, t, refl, ground arith)

print-IsOpen : (v : Json) → has_numerals v ≡ true → IsOpen (print v)
unfolding print has_numerals quote
print-IsOpen null h = (_, _, refl, refl)
print-IsOpen (bool true) h = (_, _, refl, refl)
print-IsOpen (bool false) h = (_, _, refl, refl)
print-IsOpen (num n) h = numeral-IsOpen n h
print-IsOpen (str s) h = (_, _, refl, refl)
print-IsOpen (arr xs) h = (_, _, refl, refl)
print-IsOpen (obj fs) h = (_, _, refl, refl)

numeral-head : (c : ℕ) → is_numeral_code c ≡ true → head c ≡ number_head
numeral-head c h = ground arith

read_value-num :
    (f : ℕ) (n r : Text)
    → is_numeral n ≡ true
    → is_delimited r ≡ true
    → read_value (suc f) (n ++ r) ≡ some (num n, r)
unfolding read_value
read_value-num f [] r h d = cc
read_value-num f (c ∷ t) r h d =
    let first : is_numeral_code c ≡ true = ground arith in
    rw (numeral-head c first) (rw (span-numeral (c ∷ t) r h d) refl)

-- The items begin with a value.
read_items-open :
    (f : ℕ) (t : Text)
    → IsOpen t
    → (u : Text)
    → read_items (suc f) (t ++ u) ≡ item_then (read_value f (t ++ u)) (read_more_items f)
unfolding read_items
read_items-open f t (c, rest, e, differs) u = rw e (rw differs refl)

-- A key that was printed, with the value after it.
key_then-quote :
    (f : ℕ) (k : String) (t u : Text) (value : Text → Option (Json × Text))
    (more : Text → Option (Fields × Text))
    → length (codes k) < f
    → key_then (read_string f ((escape_all (codes k) ++ (b':' ∷ t)) ++ u)) value more
      ≡ key_then (some (codes k, b':' ∷ (t ++ u))) value more
key_then-quote f k t u value more h =
    ap (λ o. key_then o value more)
      (ap (read_string f) (append_assoc (escape_all (codes k)) (b':' ∷ t) u)
        ∙ read_string-escape_all f (codes k) (b':' ∷ (t ++ u)) h)

mutual
  unfolding print has_numerals weight read_value quote

  -- With enough fuel, the reading of a value's text gives the value and what follows it.
  read_value-print :
      (f : ℕ) (v : Json) (r : Text)
      → weight v < f
      → has_numerals v ≡ true
      → is_delimited r ≡ true
      → read_value f (print v ++ r) ≡ some (v, r)
  read_value-print zero v r h n d = absurd (omega arith)
  read_value-print (suc f) null r h n d = refl
  read_value-print (suc f) (bool true) r h n d = refl
  read_value-print (suc f) (bool false) r h n d = refl
  read_value-print (suc f) (num t) r h n d = read_value-num f t r n d
  read_value-print (suc f) (str s) r h n d =
      rw (read_string-escape_all f (codes s) r (omega arith)) (rw (text_string-codes s) refl)
  read_value-print (suc f) (arr xs) r h n d = rw (read_items-print f xs r (omega arith) n) refl
  read_value-print (suc f) (obj fs) r h n d = rw (read_fields-print f fs r (omega arith) n) refl

  read_items-print :
      (f : ℕ) (xs : Items) (r : Text)
      → items_weight xs < f
      → items_have_numerals xs ≡ true
      → read_items f (print_items xs ++ r) ≡ some (xs, r)
  read_items-print zero xs r h n = absurd (omega arith)
  read_items-print (suc f) nil r h n = refl
  read_items-print (suc f) (cons x xs) r h n =
      let a : has_numerals x ≡ true = ground arith in
      let b : items_have_numerals xs ≡ true = ground arith in
      rw (append_assoc (print x) (print_more_items xs) r) (
        read_items-open f (print x) (print-IsOpen x a) (print_more_items xs ++ r)
        ∙ rw
            (read_value-print f x (print_more_items xs ++ r) (omega arith) a
              (more_items-is_delimited xs r))
            (rw (read_more_items-print f xs r (omega arith) b) refl))

  read_more_items-print :
      (f : ℕ) (xs : Items) (r : Text)
      → items_weight xs < f
      → items_have_numerals xs ≡ true
      → read_more_items f (print_more_items xs ++ r) ≡ some (xs, r)
  read_more_items-print zero xs r h n = absurd (omega arith)
  read_more_items-print (suc f) nil r h n = refl
  read_more_items-print (suc f) (cons x xs) r h n =
      let a : has_numerals x ≡ true = ground arith in
      let b : items_have_numerals xs ≡ true = ground arith in
      rw (append_assoc (print x) (print_more_items xs) r) (
        rw
          (read_value-print f x (print_more_items xs ++ r) (omega arith) a
            (more_items-is_delimited xs r))
          (rw (read_more_items-print f xs r (omega arith) b) refl))

  read_fields-print :
      (f : ℕ) (fs : Fields) (r : Text)
      → fields_weight fs < f
      → fields_have_numerals fs ≡ true
      → read_fields f (print_fields fs ++ r) ≡ some (fs, r)
  read_fields-print zero fs r h n = absurd (omega arith)
  read_fields-print (suc f) end r h n = refl
  read_fields-print (suc f) (field k v fs) r h n =
      let a : has_numerals v ≡ true = ground arith in
      let b : fields_have_numerals fs ≡ true = ground arith in
      key_then-quote f k (print v ++ print_more_fields fs) r (read_value f) (read_more_fields f)
        (omega arith)
      ∙ rw (append_assoc (print v) (print_more_fields fs) r) (
          rw
            (read_value-print f v (print_more_fields fs ++ r) (omega arith) a
              (more_fields-is_delimited fs r))
            (rw (read_more_fields-print f fs r (omega arith) b) (rw (text_string-codes k) refl)))

  read_more_fields-print :
      (f : ℕ) (fs : Fields) (r : Text)
      → fields_weight fs < f
      → fields_have_numerals fs ≡ true
      → read_more_fields f (print_more_fields fs ++ r) ≡ some (fs, r)
  read_more_fields-print zero fs r h n = absurd (omega arith)
  read_more_fields-print (suc f) end r h n = refl
  read_more_fields-print (suc f) (field k v fs) r h n =
      let a : has_numerals v ≡ true = ground arith in
      let b : fields_have_numerals fs ≡ true = ground arith in
      key_then-quote f k (print v ++ print_more_fields fs) r (read_value f) (read_more_fields f)
        (omega arith)
      ∙ rw (append_assoc (print v) (print_more_fields fs) r) (
          rw
            (read_value-print f v (print_more_fields fs ++ r) (omega arith) a
              (more_fields-is_delimited fs r))
            (rw (read_more_fields-print f fs r (omega arith) b) (rw (text_string-codes k) refl)))

abbrev value_of : Option (Json × Text) → Json
value_of none = null
value_of (some (v, r)) = v

-- Values with one text are the same.
pub print_injective :
    (v w : Json) → has_numerals v ≡ true → has_numerals w ≡ true → print v ≡ print w → v ≡ w
print_injective v w a b same =
    let f = suc (weight v + weight w) in
    let read_v = read_value-print f v [] (omega arith) a refl in
    let read_w = read_value-print f w [] (omega arith) b refl in
    ap value_of (sym read_v ∙ ap (λ t. read_value f (t ++ [])) same ∙ read_w)
