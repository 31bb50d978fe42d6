-- ===== src/Identity.antt =====
-- The request identity, api-service/src/services/identity.ts: a canonical text of a JSON value in
-- which the order of an object's keys is forgotten. A text is the list of its code points. The
-- SHA-256 digest of `digest` is a parameter of the code that uses it.
pub mod Order
pub mod Reordering
pub mod Lexing
pub mod Normal
pub mod Reading
use Prim.Native.Char.{code}
use scalequeue.Common.{
  ℕ, zero, suc, ◌+◌, ◌-◌, ◌/◌, ◌%◌, String, Bool, true, false, ◌||◌, ◌&&◌, List, [], ◌∷◌, ◌++◌, map,
  ltb, ◌==◌, if◌then◌else◌,
}
use scalequeue.Json.{Json, null, bool, num, str, arr, obj, Items, nil, cons, Fields, end, field}

abbrev pub Text : Type 0
Text = List ℕ

abbrev pub codes : String → Text
codes String.[] = []
codes (String.◌∷◌ c s) = code c ∷ codes s

-- The UTF-16 code units of a text, by which JavaScript measures and compares strings.
abbrev pub units : Text → List ℕ
units [] = []
units (c ∷ s) =
    if ltb c 0x10000
    then c ∷ units s
    else (0xd800 + (c - 0x10000) / 1024) ∷ (0xdc00 + (c - 0x10000) % 1024) ∷ units s

-- `a < b` on strings.
abbrev pub less_units : List ℕ → List ℕ → Bool
less_units xs [] = false
less_units [] (y ∷ ys) = true
less_units (x ∷ xs) (y ∷ ys) = ltb x y || (x == y && less_units xs ys)

abbrev pub less : String → String → Bool
less a b = less_units (units (codes a)) (units (codes b))

abbrev pub hex_digit : ℕ → ℕ
hex_digit n = if ltb n 10 then b'0' + n else b'a' + (n - 10)

-- One code point inside `JSON.stringify` of a string.
pub escape : ℕ → Text
escape c =
    if c == 0x22 || c == 0x5c
    then 0x5c ∷ c ∷ []
    else if c == 8
    then 0x5c ∷ b'b' ∷ []
    else if c == 9
    then 0x5c ∷ b't' ∷ []
    else if c == 10
    then 0x5c ∷ b'n' ∷ []
    else if c == 12
    then 0x5c ∷ b'f' ∷ []
    else if c == 13
    then 0x5c ∷ b'r' ∷ []
    else if ltb c 0x20
    then 0x5c ∷ b'u' ∷ b'0' ∷ b'0' ∷ hex_digit (c / 16) ∷ hex_digit (c % 16) ∷ []
    else c ∷ []

pub escape_all : Text → Text
unfolding escape
escape_all [] = 0x22 ∷ []
escape_all (c ∷ s) = escape c ++ escape_all s

-- `JSON.stringify` of a string.
pub quote : String → Text
unfolding escape_all
quote s = 0x22 ∷ escape_all (codes s)

-- `.join(',')`
pub join : List Text → Text
join [] = []
join (t ∷ []) = t
join (t ∷ u ∷ ts) = t ++ b',' ∷ join (u ∷ ts)

abbrev pub Entry : Type 0
Entry = String × Text

-- `.sort(([a], [b]) => …)` is stable: an entry goes before the first whose key is not smaller.
pub insert_entry : Entry → List Entry → List Entry
insert_entry e [] = e ∷ []
insert_entry e (x ∷ xs) = if less x.0 e.0 then x ∷ insert_entry e xs else e ∷ x ∷ xs

pub sort_entries : List Entry → List Entry
unfolding insert_entry
sort_entries [] = []
sort_entries (e ∷ es) = insert_entry e (sort_entries es)

pub print_entry : Entry → Text
unfolding quote
print_entry (k, v) = quote k ++ b':' ∷ v

-- The sort reads the keys alone, so the values are printed before it.
pub print_object : List Entry → Text
unfolding sort_entries print_entry join
print_object es = b'{' ∷ join (map print_entry (sort_entries es)) ++ b'}' ∷ []

-- `JSON.stringify` of a natural number; the digits after the first `fuel` are dropped.
unfoldable pub decimal_from : ℕ → ℕ → Text → Text
decimal_from zero n acc = acc
decimal_from (suc fuel) n acc =
    let rest = decimal_from fuel (n / 10) ((b'0' + n % 10) ∷ acc) in
    if ltb n 10 then (b'0' + n) ∷ acc else rest

unfoldable pub decimal : ℕ → Text
unfolding decimal_from
decimal n = decimal_from (suc n) n []

unfoldable mutual
  unfolding print_object quote join

  pub canonical : Json → Text
  canonical null = codes "null"
  canonical (bool true) = codes "true"
  canonical (bool false) = codes "false"
  canonical (num n) = n
  canonical (str s) = quote s
  canonical (arr xs) = b'[' ∷ join (canonical_items xs) ++ b']' ∷ []
  canonical (obj fs) = print_object (canonical_entries fs)

  pub canonical_items : Items → List Text
  canonical_items nil = []
  canonical_items (cons x xs) = canonical x ∷ canonical_items xs

  pub canonical_entries : Fields → List Entry
  canonical_entries end = []
  canonical_entries (field k v fs) = (k, canonical v) ∷ canonical_entries fs
