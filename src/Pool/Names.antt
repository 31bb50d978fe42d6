-- ===== src/Pool/Names.antt =====
-- The names of the consumers that worker-service/internal/worker/pool.go starts, under which they
-- hold leases.
use scalequeue.Common.{
  ℕ, ◌/◌, ◌%◌, ◌<◌, ◌≡◌, refl, sym, ◌∙◌, ap, ap₂, List, [], ◌∷◌, length, All, arith,
}
use scalequeue.Identity.{hex_digit, decimal}
use scalequeue.Http.{parse_int, plus}
use scalequeue.Http.Numbers.{parse_int-decimal}
use scalequeue.Pool.{hex_bytes, worker_name}

same_head : {A : Type 0} {x y : A} {xs ys : List A} → x ∷ xs ≡ y ∷ ys → x ≡ y
same_head h = cc

same_tail : {A : Type 0} {x y : A} {xs ys : List A} → x ∷ xs ≡ y ∷ ys → xs ≡ ys
same_tail h = cc

hex_digit_injective : (a b : ℕ) → a < 16 → b < 16 → hex_digit a ≡ hex_digit b → a ≡ b
hex_digit_injective a b h k e = ground arith

byte_of_halves : (a b : ℕ) → a / 16 ≡ b / 16 → a % 16 ≡ b % 16 → a ≡ b
byte_of_halves a b h k = omega arith

hex_byte_injective :
    (a b : ℕ)
    → a < 256
    → b < 256
    → hex_digit (a / 16) ≡ hex_digit (b / 16)
    → hex_digit (a % 16) ≡ hex_digit (b % 16)
    → a ≡ b
hex_byte_injective a b small_a small_b high low =
    byte_of_halves a b (hex_digit_injective (a / 16) (b / 16) (omega arith) (omega arith) high)
      (hex_digit_injective (a % 16) (b % 16) (omega arith) (omega arith) low)

plus_injective : {m n : ℕ} → plus m ≡ plus n → m ≡ n
plus_injective h = cc

decimal_injective : (m n : ℕ) → decimal m ≡ decimal n → m ≡ n
decimal_injective m n h =
    plus_injective (sym (parse_int-decimal m) ∙ ap parse_int h ∙ parse_int-decimal n)

abbrev pub AreBytes : List ℕ → Type 0
AreBytes bs = All (λ b. b < 256) bs

-- No two consumers have one name, in one pool or in two: consumers of the same name have the same
-- number, and their pools have drawn the same nonce. Nonces are bytes, and as many in each pool.
pub worker_name_injective :
    (a b : List ℕ) (i j : ℕ)
    → AreBytes a
    → AreBytes b
    → length a ≡ length b
    → worker_name a i ≡ worker_name b j
    → (a ≡ b) × (i ≡ j)
unfolding worker_name hex_bytes
worker_name_injective [] [] i j h k l e = (refl, decimal_injective i j (same_tail e))
worker_name_injective [] (y ∷ b) i j h k l e = absurd (omega (arith, l))
worker_name_injective (x ∷ a) [] i j h k l e = absurd (omega (arith, l))
worker_name_injective (x ∷ a) (y ∷ b) i j (p, h) (q, k) l e =
    let rest = same_tail e in
    let (same, number) = worker_name_injective a b i j h k (omega (arith, l)) (same_tail rest) in
    (ap₂ ◌∷◌ (hex_byte_injective x y p q (same_head e) (same_head rest)) same, number)
