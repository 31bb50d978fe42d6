-- ===== src/Common/Unique.antt =====
-- Tables in which one row passes a key's test.
use Prim.Native.Nat.{◌≤◌, ◌<◌}
use mathlib.Core.Path.{◌≡◌, refl}
use mathlib.Core.Logic.{inl, inr}
use mathlib.Core.Bool.{Bool, true, false}
use mathlib.Core.List.{List, [], ◌∷◌, ◌++◌}
use mathlib.Core.Option.{some, none}
use native.Mathlib.Omega.{arith}
use scalequeue.Common.Tests.{Bool-cases}
use scalequeue.Common.Lists.{find?, count, filter, map_where}

module _ {ℓ} {A : Type ℓ} where
  -- No more elements pass the stronger test.
  pub count-le :
      (p q : A → Bool) (xs : List A) → ((x : A) → q x ≡ true → p x ≡ true) → count q xs ≤ count p xs
  count-le p q [] stronger = omega arith
  count-le p q (x ∷ xs) stronger = ground (arith, count-le p q xs stronger, stronger x)

  -- Where one element passes a test, and it passes a stronger one, one passes that.
  pub count-find? :
      (p q : A → Bool) (xs : List A) (k : A)
      → ((x : A) → q x ≡ true → p x ≡ true)
      → find? p xs ≡ some k
      → q k ≡ true
      → count p xs ≡ 1
      → count q xs ≡ 1
  count-find? p q [] k stronger found passes one = cc
  count-find? p q (x ∷ xs) k stronger found passes one = elim (Bool-cases (p x)) [
    | inl e ↦ ground (arith, count-le p q xs stronger, stronger x)
    | inr e ↦ ground (arith, count-find? p q xs k stronger, stronger x)
  ]

  pub count-map_where :
      (p q : A → Bool) (f : A → A) (xs : List A)
      → ((x : A) → p (f x) ≡ p x)
      → count p (map_where q f xs) ≡ count p xs
  count-map_where p q f [] keep = refl
  count-map_where p q f (x ∷ xs) keep = ground (arith, count-map_where p q f xs keep, keep x)

  -- An update that keeps the key is what the lookup finds.
  pub find?-of-map_where :
      (p q : A → Bool) (f : A → A) (xs : List A) (k : A)
      → ((x : A) → p (f x) ≡ p x)
      → find? p xs ≡ some k
      → q k ≡ true
      → find? p (map_where q f xs) ≡ some (f k)
  find?-of-map_where p q f [] k keep found passes = cc
  find?-of-map_where p q f (x ∷ xs) k keep found passes =
      ground (arith, find?-of-map_where p q f xs k keep, keep x)

  -- The lookup passes over an update of other elements.
  pub find?-of-map_where_other :
      (p q : A → Bool) (f : A → A) (xs : List A) (k : A)
      → ((x : A) → p (f x) ≡ p x)
      → find? p xs ≡ some k
      → q k ≡ false
      → find? p (map_where q f xs) ≡ some k
  find?-of-map_where_other p q f [] k keep found misses = cc
  find?-of-map_where_other p q f (x ∷ xs) k keep found misses =
      ground (arith, find?-of-map_where_other p q f xs k keep, keep x)

  pub find?-append_left :
      (p : A → Bool) (xs ys : List A) (k : A) → find? p xs ≡ some k → find? p (xs ++ ys) ≡ some k
  find?-append_left p [] ys k found = cc
  find?-append_left p (x ∷ xs) ys k found = ground (arith, find?-append_left p xs ys k)

  pub count-positive : (p : A → Bool) (xs : List A) (k : A) → find? p xs ≡ some k → 1 ≤ count p xs
  count-positive p [] k found = cc
  count-positive p (x ∷ xs) k found = ground (arith, count-positive p xs k)

  -- Fewer elements pass a test once one that passes it is taken out, or changed so that it fails.
  pub count-filter-le : (p q : A → Bool) (xs : List A) → count q (filter p xs) ≤ count q xs
  count-filter-le p q [] = omega arith
  count-filter-le p q (x ∷ xs) = ground (arith, count-filter-le p q xs)

  pub count-filter-lt :
      (p q r : A → Bool) (xs : List A) (k : A)
      → find? r xs ≡ some k
      → q k ≡ true
      → p k ≡ false
      → count q (filter p xs) < count q xs
  count-filter-lt p q r [] k found passes out = cc
  count-filter-lt p q r (x ∷ xs) k found passes out =
      ground (arith, count-filter-lt p q r xs k, count-filter-le p q xs)

  pub count-map_where-le :
      (p q : A → Bool) (f : A → A) (xs : List A)
      → ((x : A) → q (f x) ≡ false)
      → count q (map_where p f xs) ≤ count q xs
  count-map_where-le p q f [] fails = omega arith
  count-map_where-le p q f (x ∷ xs) fails =
      ground (arith, count-map_where-le p q f xs fails, fails x)

  pub count-map_where-lt :
      (p q r : A → Bool) (f : A → A) (xs : List A) (k : A)
      → ((x : A) → q (f x) ≡ false)
      → find? r xs ≡ some k
      → q k ≡ true
      → p k ≡ true
      → count q (map_where p f xs) < count q xs
  count-map_where-lt p q r f [] k fails found passes changed = cc
  count-map_where-lt p q r f (x ∷ xs) k fails found passes changed =
      ground
        (arith, count-map_where-lt p q r f xs k fails, count-map_where-le p q f xs fails, fails x)

  pub count-find?-none :
      (p q : A → Bool) (xs : List A)
      → ((x : A) → q x ≡ true → p x ≡ true)
      → find? p xs ≡ none
      → count q xs ≡ 0
  count-find?-none p q [] stronger absent = refl
  count-find?-none p q (x ∷ xs) stronger absent =
      ground (arith, count-find?-none p q xs stronger, stronger x)
