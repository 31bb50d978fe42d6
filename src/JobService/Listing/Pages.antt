-- ===== src/JobService/Listing/Pages.antt =====
-- What the listings of api-service/src/services/jobService.ts return.
use scalequeue.Common.{
  ℕ, zero, suc, ◌+◌, ◌-◌, ◌≤◌, ◌≡◌, refl, sym, ◌∙◌, ap, Bool, true, not, ◌&&◌, append_assoc, List,
  [], ◌∷◌, ◌++◌, min, length, take, drop, filter, count, All, arith, All-take, All-drop,
  length-filter,
}
use native.Mathlib.Nat.{zero-add, suc-add}
use scalequeue.Schema.{Job, Db}
use scalequeue.JobService.{Platform}
use scalequeue.JobService.Listing.{page}

-- The rows are in descending order of `key`.
abbrev pub IsDescending : {A : Type 0} → (A → ℕ) → List A → Type 0
IsDescending key [] = Unit
IsDescending key (x ∷ xs) = All (λ y. key y ≤ key x) xs × IsDescending key xs

-- ORDER BY … DESC gives the same rows, in descending order of the key.
pub record OrdersRows (platform : Platform) : Type 0 where
  pub count_kept :
      (key : Job → ℕ) (test : Job → Bool) (rows : List Job)
      → count test (platform.order_jobs key rows) ≡ count test rows
  pub descending :
      (key : Job → ℕ) (rows : List Job) → IsDescending key (platform.order_jobs key rows)

-- The rows are those of a table that pass the test, each as often, from the place `offset` of a
-- listing of them all in descending order: `before` are the rows that are passed over, and `after`
-- those that the page leaves.
abbrev pub IsCut : (Job → Bool) → (Job → ℕ) → ℕ → List Job → List Job → Type 0
IsCut test key offset table rows =
    (before : List Job) × (after : List Job) × (length before ≡ min offset (count test table))
    × IsDescending key (before ++ rows ++ after)
    × ((mark : Job → Bool)
        → count mark (before ++ rows ++ after) ≡ count (λ j. test j && mark j) table)

take-drop : {A : Type 0} (n : ℕ) (xs : List A) → take n xs ++ drop n xs ≡ xs
take-drop zero xs = refl
take-drop (suc n) [] = refl
take-drop (suc n) (x ∷ xs) = ap (λ r. x ∷ r) (take-drop n xs)

length-take : {A : Type 0} (n : ℕ) (xs : List A) → length (take n xs) ≡ min n (length xs)
length-take zero xs = omega arith
length-take (suc n) [] = omega arith
length-take (suc n) (x ∷ xs) = omega (arith, length-take n xs)

-- A page with what is before it and after it.
whole :
    {A : Type 0} (l o : ℕ) (xs : List A)
    → take o xs ++ take l (drop o xs) ++ drop l (drop o xs) ≡ xs
whole l o xs =
    append_assoc (take o xs) (take l (drop o xs)) (drop l (drop o xs))
    ∙ ap (λ r. take o xs ++ r) (take-drop l (drop o xs))
    ∙ take-drop o xs

count-filter :
    {A : Type 0} (test mark : A → Bool) (xs : List A)
    → count mark (filter test xs) ≡ count (λ x. test x && mark x) xs
count-filter test mark [] = refl
count-filter test mark (x ∷ xs) = ground (arith, count-filter test mark xs)

length-take-drop :
    {A : Type 0} (l o : ℕ) (xs : List A) → length (take l (drop o xs)) ≡ min l (length xs - o)
length-take-drop zero zero xs = omega arith
length-take-drop (suc l) zero [] = omega arith
length-take-drop (suc l) zero (x ∷ xs) = omega (arith, length-take-drop l zero xs)
length-take-drop zero (suc o) [] = omega arith
length-take-drop (suc l) (suc o) [] = omega arith
length-take-drop l (suc o) (x ∷ xs) = omega (arith, length-take-drop l o xs)

take-add : {A : Type 0} (l m : ℕ) (xs : List A) → take (l + m) xs ≡ take l xs ++ take m (drop l xs)
take-add zero m xs = rw zero-add
take-add (suc l) zero [] = rw suc-add
take-add (suc l) (suc m) [] = rw suc-add
take-add (suc l) m (x ∷ xs) = rw suc-add (ap (λ r. x ∷ r) (take-add l m xs))

drop-add : {A : Type 0} (l m : ℕ) (xs : List A) → drop (l + m) xs ≡ drop m (drop l xs)
drop-add zero m xs = rw zero-add
drop-add (suc l) zero [] = rw suc-add
drop-add (suc l) (suc m) [] = rw suc-add
drop-add (suc l) m (x ∷ xs) = rw suc-add (drop-add l m xs)

take-IsDescending :
    (key : Job → ℕ) (l : ℕ) (xs : List Job) → IsDescending key xs → IsDescending key (take l xs)
take-IsDescending key zero xs h = tt
take-IsDescending key (suc l) [] h = tt
take-IsDescending key (suc l) (x ∷ xs) (a, h) = (All-take _ l xs a, take-IsDescending key l xs h)

drop-IsDescending :
    (key : Job → ℕ) (o : ℕ) (xs : List Job) → IsDescending key xs → IsDescending key (drop o xs)
drop-IsDescending key zero xs h = h
drop-IsDescending key (suc o) [] h = tt
drop-IsDescending key (suc o) (x ∷ xs) (a, h) = drop-IsDescending key o xs h

count_all : {A : Type 0} (xs : List A) → count (λ _. true) xs ≡ length xs
count_all [] = refl
count_all (x ∷ xs) = ap suc (count_all xs)

All-of_count :
    {A : Type 0} (test : A → Bool) (xs : List A)
    → count (λ x. not (test x)) xs ≡ 0
    → All (λ x. test x ≡ true) xs
All-of_count test [] h = tt
All-of_count test (x ∷ xs) h = ground (arith, All-of_count test xs)

count-filter-not :
    {A : Type 0} (test : A → Bool) (xs : List A) → count (λ x. not (test x)) (filter test xs) ≡ 0
count-filter-not test [] = refl
count-filter-not test (x ∷ xs) = ground (arith, count-filter-not test xs)

module _ (platform : Platform) where
  -- Consecutive pages of a listing neither skip a row nor repeat one: a page of `l` rows and the
  -- page of `m` rows that follows it make up the page of `l + m` rows.
  pub page-append :
      (test : Job → Bool) (key : Job → ℕ) (l m o : ℕ) (d : Db)
      → page platform test key (l + m) o d
        ≡ page platform test key l o d ++ page platform test key m (o + l) d
  page-append test key l m o d = rw drop-add (take-add l m _)

  module _ (laws : OrdersRows platform) where
    open laws use {count_kept, descending}

    pub page-All :
        (test : Job → Bool) (key : Job → ℕ) (l o : ℕ) (d : Db)
        → All (λ j. test j ≡ true) (page platform test key l o d)
    page-All test key l o d = All-take _ l _ (
        All-drop _ o _ (
          All-of_count test _ (
            count_kept key (λ x. not (test x)) (filter test d.jobs)
            ∙ count-filter-not test d.jobs)))

    pub page-IsDescending :
        (test : Job → Bool) (key : Job → ℕ) (l o : ℕ) (d : Db)
        → IsDescending key (page platform test key l o d)
    page-IsDescending test key l o d =
        take-IsDescending key l _ (drop-IsDescending key o _ (descending key (filter test d.jobs)))

    pub page-IsCut :
        (test : Job → Bool) (key : Job → ℕ) (l o : ℕ) (d : Db)
        → IsCut test key o d.jobs (page platform test key l o d)
    page-IsCut test key l o d =
        let rows = platform.order_jobs key (filter test d.jobs) in
        (
          take o rows,
          drop l (drop o rows),
          length-take o rows
              ∙ ap (min o) (
                  sym (count_all _)
                  ∙ count_kept key (λ _. true) (filter test d.jobs)
                  ∙ count_all _
                  ∙ length-filter test d.jobs),
          rw (whole l o rows) (descending key (filter test d.jobs)),
          λ mark.
              ap (count mark) (whole l o rows)
              ∙ count_kept key mark (filter test d.jobs)
              ∙ count-filter test mark d.jobs,
        )

    pub length-page :
        (test : Job → Bool) (key : Job → ℕ) (l o : ℕ) (d : Db)
        → length (page platform test key l o d) ≡ min l (count test d.jobs - o)
    length-page test key l o d =
        length-take-drop l o _ ∙ ap (λ n. min l (n - o)) (rows ∙ length-filter test d.jobs)
      where
        rows : length (platform.order_jobs key (filter test d.jobs)) ≡ length (filter test d.jobs)
        rows = sym (count_all _) ∙ count_kept key (λ _. true) (filter test d.jobs) ∙ count_all _
