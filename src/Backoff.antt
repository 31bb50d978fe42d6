-- ===== src/Backoff.antt =====
-- The delay before a retry, worker-service/internal/retry/backoff.go, in nanoseconds. Go's `int`,
-- `int64` and `time.Duration` have 64 bits and wrap around.
use native.Mathlib.Nat.{pow-le-pow_right}
use scalequeue.Common.{
  ap, sym, ◌∙◌, ℕ, zero, suc, ◌+◌, ◌-◌, ◌*◌, ◌/◌, ◌%◌, ◌^◌, ◌≤◌, ◌<◌, min, ◌≡◌, refl, Option, none,
  some, ltb, if◌then◌else◌, true, arith,
}

pub data ℤ : Type 0 where
  pos : ℕ → ℤ
  negsuc : ℕ → ℤ

-- The 64-bit integer with these bits.
abbrev to_int64 : ℕ → ℤ
to_int64 n =
    let bits = n % 2 ^ 64 in if ltb bits (2 ^ 63) then pos bits else negsuc (2 ^ 64 - 1 - bits)

-- The attempt, no less than 0 and no more than 8.
abbrev pub bounded : ℤ → ℕ
bounded (pos n) = if ltb 8 n then 8 else n
bounded (negsuc n) = 0

abbrev five_minutes : ℕ
five_minutes = 300000000000

abbrev capped : ℤ → ℤ
capped (pos c) = if ltb five_minutes c then pos five_minutes else pos c
capped (negsuc c) = negsuc c

-- `cap`, from the bounded attempt
abbrev delay_cap : ℕ → ℤ
delay_cap attempt = capped (to_int64 (2000000000 * 2 ^ attempt))

-- `cap/2 + rand.Int64N(cap/2 + 1)`; division rounds towards 0, and `Int64N` panics unless its
-- argument is positive. `random` stands for `rand.Int64N`.
abbrev jittered : (ℕ → ℕ) → ℤ → Option ℤ
jittered random (pos c) = some (to_int64 (c / 2 + random (c / 2 + 1)))
jittered random (negsuc zero) = some (to_int64 (random 1))
jittered random (negsuc (suc c)) = none

unfoldable pub exponential_delay : (ℕ → ℕ) → ℤ → Option ℤ
exponential_delay random attempt = jittered random (delay_cap (bounded attempt))

-- A delay that is at least half of `cap` and at most `cap`.
abbrev pub LiesWithin : ℕ → Option ℤ → Type 0
LiesWithin cap d = (n : ℕ) × (d ≡ some (pos n)) × (cap / 2 ≤ n) × (n ≤ cap)

small-to_int64 : (n : ℕ) → n < 2 ^ 63 → to_int64 n ≡ pos n
small-to_int64 n h = ground arith

jittered_lem :
    (random : ℕ → ℕ) (c : ℕ)
    → random (c / 2 + 1) < c / 2 + 1
    → c ≤ 300000000000
    → LiesWithin c (jittered random (pos c))
jittered_lem random c h small =
    let n = c / 2 + random (c / 2 + 1) in
    let low : c / 2 ≤ n = omega arith in
    let high : n ≤ c = omega arith in (n, ap some (small-to_int64 n (omega arith)), low, high)

-- Two seconds, doubled with each attempt, and at most five minutes.
abbrev pub ideal_cap : ℤ → ℕ
ideal_cap (pos n) = min (2000000000 * 2 ^ n) 300000000000
ideal_cap (negsuc n) = 2000000000

ideal_cap_large : (n : ℕ) → 9 ≤ n → ideal_cap (pos n) ≡ 300000000000
ideal_cap_large n h =
    let big : 2 ^ 9 ≤ 2 ^ n = pow-le-pow_right {n = 2} (omega arith) h in omega arith

delay_cap_large : (n : ℕ) → 9 ≤ n → delay_cap (bounded (pos n)) ≡ pos 300000000000
delay_cap_large n h = let past : ltb 8 n ≡ true = ground arith in rw past refl

delay_cap_lem : (attempt : ℤ) → delay_cap (bounded attempt) ≡ pos (ideal_cap attempt)
delay_cap_lem (negsuc n) = refl
delay_cap_lem (pos zero) = refl
delay_cap_lem (pos (suc zero)) = refl
delay_cap_lem (pos (suc (suc zero))) = refl
delay_cap_lem (pos (suc (suc (suc zero)))) = refl
delay_cap_lem (pos (suc (suc (suc (suc zero))))) = refl
delay_cap_lem (pos (suc (suc (suc (suc (suc zero)))))) = refl
delay_cap_lem (pos (suc (suc (suc (suc (suc (suc zero))))))) = refl
delay_cap_lem (pos (suc (suc (suc (suc (suc (suc (suc zero)))))))) = refl
delay_cap_lem (pos (suc (suc (suc (suc (suc (suc (suc (suc zero))))))))) = refl
delay_cap_lem (pos (suc (suc (suc (suc (suc (suc (suc (suc (suc n)))))))))) =
    let n' = suc (suc (suc (suc (suc (suc (suc (suc (suc n)))))))) in
    delay_cap_large n' (omega arith) ∙ sym (ap pos (ideal_cap_large n' (omega arith)))

ideal_cap_le : (attempt : ℤ) → ideal_cap attempt ≤ 300000000000
ideal_cap_le (pos n) = omega arith
ideal_cap_le (negsuc n) = omega arith

-- The delay before a retry is between half of a cap and the cap, which is two seconds, doubled with
-- each attempt, and at most five minutes: for every attempt, with no overflow and no panic, where
-- `rand.Int64N` returns a number below its positive argument.
pub exponential_delay_bounded :
    (random : ℕ → ℕ) (attempt : ℤ)
    → ((n : ℕ) → 0 < n → random n < n)
    → LiesWithin (ideal_cap attempt) (exponential_delay random attempt)
unfolding exponential_delay
exponential_delay_bounded random attempt below =
    rw (delay_cap_lem attempt)
      (jittered_lem random (ideal_cap attempt) (below _ (omega arith)) (ideal_cap_le attempt))
