-- ===== src/Identity/Lexing.antt =====
-- The texts of `JSON.stringify` of a string (api-service/src/services/identity.ts), read back.
use Prim.Native.Nat.{compare, Ordering}
use Prim.Native.Char.{Char, char, code, nul, IsLt}
use scalequeue.Common.{
  ℕ, zero, suc, ◌+◌, ◌-◌, ◌*◌, ◌<◌, ◌≡◌, refl, ap₂, String, Option, none, some, [], ◌∷◌, ◌++◌, ltb,
  ◌==◌, if◌then◌else◌, arith, length, append_assoc,
}
use scalequeue.Identity.{Text, codes, escape, escape_all}

-- `IsScalar`, by the comparisons that it makes.
abbrev AreBothLt : Ordering → Ordering → Type 0
AreBothLt Ordering.lt o = IsLt o
AreBothLt Ordering.eq _ = ⊥
AreBothLt Ordering.gt _ = ⊥

abbrev IsScalarValue : Ordering → Ordering → Ordering → Type 0
IsScalarValue Ordering.lt _ _ = Unit
IsScalarValue Ordering.eq o p = AreBothLt o p
IsScalarValue Ordering.gt o p = AreBothLt o p

abbrev char_if_lt : (o : Ordering) → (IsLt o → Char) → Char
char_if_lt Ordering.lt k = k tt
char_if_lt Ordering.eq k = nul
char_if_lt Ordering.gt k = nul

abbrev char_if_both : (o p : Ordering) → (AreBothLt o p → Char) → Char
char_if_both Ordering.lt p k = char_if_lt p k
char_if_both Ordering.eq p k = nul
char_if_both Ordering.gt p k = nul

abbrev char_if : (o p q : Ordering) → (IsScalarValue o p q → Char) → Char
char_if Ordering.lt p q k = k tt
char_if Ordering.eq p q k = char_if_both p q k
char_if Ordering.gt p q k = char_if_both p q k

char_if_lt-true : (o : Ordering) (k : IsLt o → Char) (h : IsLt o) → char_if_lt o k ≡ k h
char_if_lt-true Ordering.lt k h = refl
char_if_lt-true Ordering.eq k h = absurd h
char_if_lt-true Ordering.gt k h = absurd h

char_if_both-true :
    (o p : Ordering) (k : AreBothLt o p → Char) (h : AreBothLt o p) → char_if_both o p k ≡ k h
char_if_both-true Ordering.lt p k h = char_if_lt-true p k h
char_if_both-true Ordering.eq p k h = absurd h
char_if_both-true Ordering.gt p k h = absurd h

char_if-true :
    (o p q : Ordering) (k : IsScalarValue o p q → Char) (h : IsScalarValue o p q)
    → char_if o p q k ≡ k h
char_if-true Ordering.lt p q k h = refl
char_if-true Ordering.eq p q k h = char_if_both-true p q k h
char_if-true Ordering.gt p q k h = char_if_both-true p q k h

-- The character of a code point.
abbrev character : ℕ → Char
character n = char_if (compare n 55296) (compare 57343 n) (compare n 1114112) (char n)

character-code : (c : Char) → character (code c) ≡ c
character-code (char n h) =
    char_if-true (compare n 55296) (compare 57343 n) (compare n 1114112) (char n) h

-- The string of a text.
pub text_string : Text → String
text_string [] = String.[]
text_string (c ∷ t) = String.◌∷◌ (character c) (text_string t)

pub text_string-codes : (s : String) → text_string (codes s) ≡ s
unfolding text_string
text_string-codes String.[] = refl
text_string-codes (String.◌∷◌ c s) = ap₂ String.◌∷◌ (character-code c) (text_string-codes s)

-- The beginning of a text inside a quoted string.
pub data Step : Type 0 where
  closing : Text → Step
  point : ℕ → Text → Step
  broken : Step

abbrev hex_value : ℕ → ℕ
hex_value h = if ltb h 58 then h - 48 else h - 87

abbrev read_unicode : Text → Step
read_unicode (a ∷ b ∷ h ∷ l ∷ t) = point (hex_value h * 16 + hex_value l) t
read_unicode _ = broken

abbrev read_escape : Text → Step
read_escape [] = broken
read_escape (c ∷ t) =
    if c == b'u'
    then read_unicode t
    else if c == b'b'
    then point 8 t
    else if c == b't'
    then point 9 t
    else if c == b'n'
    then point 10 t
    else if c == b'f'
    then point 12 t
    else if c == b'r'
    then point 13 t
    else point c t

abbrev read_point : Text → Step
read_point [] = broken
read_point (c ∷ t) = if c == 0x22 then closing t else if c == 0x5c then read_escape t else point c t

read_point-escape : (c : ℕ) (t : Text) → read_point (escape c ++ t) ≡ point c t
unfolding escape
read_point-escape c t = ground arith

abbrev after_step : Step → (Text → Option (Text × Text)) → Option (Text × Text)
after_step (closing t) more = some ([], t)
after_step (point c t) more = elim (more t) [ none ↦ none | some (s, r) ↦ some (c ∷ s, r) ]
after_step broken more = none

-- The characters up to the closing quote, and what follows it.
unfoldable pub read_string : ℕ → Text → Option (Text × Text)
read_string zero t = none
read_string (suc fuel) t = after_step (read_point t) (read_string fuel)

pub read_string-escape_all :
    (fuel : ℕ) (s t : Text) → length s < fuel → read_string fuel (escape_all s ++ t) ≡ some (s, t)
unfolding read_string escape_all
read_string-escape_all zero s t h = absurd (omega arith)
read_string-escape_all (suc fuel) [] t h = refl
read_string-escape_all (suc fuel) (c ∷ s) t h = rw (append_assoc (escape c) (escape_all s) t) (
    rw (read_point-escape c (escape_all s ++ t))
      (rw (read_string-escape_all fuel s t (omega arith)) refl))
