-- ===== src/Http/Numbers.antt =====
-- `parseInt` on the texts that print numbers.
use scalequeue.Common.{
  ap, ℕ, zero, suc, ◌+◌, ◌*◌, ◌/◌, ◌%◌, ◌≤◌, ◌<◌, ◌≡◌, refl, ◌∙◌, inl, inr, [], ◌∷◌, ltb, ltb→lt,
  arith, Bool-cases,
}
use scalequeue.Identity.{Text, decimal_from, decimal}
use scalequeue.Http.{digits_from, signed, plus, parse_int}

digits_from-digit :
    (acc k m : ℕ) (s : Text)
    → k < 10
    → acc * 10 + k ≡ m
    → digits_from acc ((b'0' + k) ∷ s) ≡ digits_from m s
unfolding digits_from
digits_from-digit acc k m s h e = ground arith

-- The digits of `n` add `n` to nothing before them.
pub digits_from-decimal_from :
    (fuel n : ℕ) (s : Text) → n < fuel → digits_from 0 (decimal_from fuel n s) ≡ digits_from n s
unfolding decimal_from
digits_from-decimal_from zero n s h = absurd (omega arith)
digits_from-decimal_from (suc fuel) n s h = elim (Bool-cases (ltb n 10)) [
  | inl small ↦ rw small (digits_from-digit 0 n n s (ltb→lt n 10 small) (omega arith))
  | inr large ↦
      let more : 10 ≤ n = ground arith in
      let whole : n / 10 * 10 + n % 10 ≡ n = omega arith in
      rw large (
        digits_from-decimal_from fuel (n / 10) ((b'0' + n % 10) ∷ s) (omega arith)
        ∙ digits_from-digit (n / 10) (n % 10) n s (omega arith) whole)
]

-- The text of a number starts with a digit.
unfoldable pub StartsWithDigit : Text → Type 0
StartsWithDigit t = (k : ℕ) × (s : Text) × (k < 10) × (t ≡ (b'0' + k) ∷ s)

pub decimal_from-StartsWithDigit :
    (fuel n : ℕ) (s : Text) → n < fuel → StartsWithDigit (decimal_from fuel n s)
unfolding decimal_from StartsWithDigit
decimal_from-StartsWithDigit zero n s h = absurd (omega arith)
decimal_from-StartsWithDigit (suc fuel) n s h = elim (Bool-cases (ltb n 10)) [
  | inl small ↦ rw small (n, s, ltb→lt n 10 small, refl)
  | inr large ↦
      let more : 10 ≤ n = ground arith in
      rw large (decimal_from-StartsWithDigit fuel (n / 10) _ (omega arith))
]

parse_int-digit :
    (k : ℕ) (s : Text) → k < 10 → parse_int ((b'0' + k) ∷ s) ≡ plus (digits_from 0 ((b'0' + k) ∷ s))
unfolding parse_int signed
parse_int-digit k s h = ground arith

parse_int-StartsWithDigit : (t : Text) → StartsWithDigit t → parse_int t ≡ plus (digits_from 0 t)
unfolding StartsWithDigit
parse_int-StartsWithDigit t (k, s, small, e) = rw e (parse_int-digit k s small)

-- Reading the decimal digits of a number gives the number: `parseInt(String(n), 10) === n`.
pub parse_int-decimal : (n : ℕ) → parse_int (decimal n) ≡ plus n
unfolding decimal digits_from
parse_int-decimal n =
    parse_int-StartsWithDigit _ (decimal_from-StartsWithDigit (suc n) n [] (omega arith))
    ∙ ap plus (digits_from-decimal_from (suc n) n [] (omega arith))
