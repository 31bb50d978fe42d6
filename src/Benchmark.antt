-- ===== src/Benchmark.antt =====
-- The runners of scripts/benchmark.cjs: `CONCURRENCY` calls of `run` share the counters. A runner
-- gives way only where it awaits, so its steps come between those of the others.
use scalequeue.Common.{
  All, ap, ◌∙◌, ◌||◌, ℕ, zero, suc, ◌+◌, ◌≤◌, ◌≡◌, refl, Bool, true, false, List, [], ◌∷◌, ltb,
  if◌then◌else◌, any, count, length, arith,
}

-- At the loop's test, with a job under way, or returned.
pub data Runner : Type 0 where
  ready busy returned : Runner

-- `next`, the length of `latencies`, and `errors`.
pub record Counters : Type 0 where
  pub next : ℕ
  pub completed : ℕ
  pub errors : ℕ

abbrev pub zeros : Counters
zeros = record { next = 0; completed = 0; errors = 0 }

abbrev pub runners : ℕ → List Runner
runners zero = []
runners (suc n) = ready ∷ runners n

abbrev is_busy : Runner → Bool
is_busy ready = false
is_busy busy = true
is_busy returned = false

abbrev is_returned : Runner → Bool
is_returned ready = false
is_returned busy = false
is_returned returned = true

module _ (jobs : ℕ) where
  -- One step of a runner; `fine` tells whether its job completes or `catch` counts an error.
  abbrev pub go_on : Bool → Runner → Counters → Runner × Counters
  go_on fine ready c =
      if ltb c.next jobs then (busy, record c { next = c.next + 1 }) else (returned, c)
  go_on true busy c = (ready, record c { completed = c.completed + 1 })
  go_on false busy c = (ready, record c { errors = c.errors + 1 })
  go_on fine returned c = (returned, c)

  -- A step of the runner with this number, if there is one.
  unfoldable pub advance : ℕ → Bool → List Runner → Counters → List Runner × Counters
  advance i fine [] c = ([], c)
  advance zero fine (r ∷ rs) c = let (q, d) = go_on fine r c in (q ∷ rs, d)
  advance (suc i) fine (r ∷ rs) c = let (qs, d) = advance i fine rs c in (r ∷ qs, d)

  unfoldable pub benchmark : List (ℕ × Bool) → List Runner → Counters → List Runner × Counters
  unfolding advance
  benchmark [] rs c = (rs, c)
  benchmark ((i, fine) ∷ steps) rs c = let (qs, d) = advance i fine rs c in benchmark steps qs d

  -- The runners under way, and `others` more, account for the jobs that were started.
  abbrev IsCounted : ℕ → Bool → List Runner → Counters → Type 0
  IsCounted others gone rs c =
      (c.next ≤ jobs)
      × (c.completed + c.errors + (others + count is_busy rs) ≡ c.next)
      × (gone ≡ true → c.next ≡ jobs)
      × (any is_returned rs ≡ true → c.next ≡ jobs)

  go_on-IsCounted :
      (others : ℕ) (gone fine : Bool) (r : Runner) (rs : List Runner) (c : Counters)
      → IsCounted others gone (r ∷ rs) c
      → let (q, d) = go_on fine r c in IsCounted others gone (q ∷ rs) d
  go_on-IsCounted others gone fine r rs c h = ground arith

  abbrev with_busy : Runner → ℕ → ℕ
  with_busy r others = if is_busy r then others + 1 else others

  leave_out :
      (others : ℕ) (gone : Bool) (r : Runner) (rs : List Runner) (c : Counters)
      → IsCounted others gone (r ∷ rs) c
      → IsCounted (with_busy r others) (gone || is_returned r) rs c
  leave_out others gone r rs c h = ground arith

  put_back :
      (others : ℕ) (gone : Bool) (r : Runner) (rs : List Runner) (c : Counters)
      → IsCounted (with_busy r others) (gone || is_returned r) rs c
      → IsCounted others gone (r ∷ rs) c
  put_back others gone r rs c h = ground arith

  advance-IsCounted :
      (i others : ℕ) (gone fine : Bool) (rs : List Runner) (c : Counters)
      → IsCounted others gone rs c
      → let (qs, d) = advance i fine rs c in IsCounted others gone qs d
  unfolding advance
  advance-IsCounted i others gone fine [] c h = h
  advance-IsCounted zero others gone fine (r ∷ rs) c h = go_on-IsCounted others gone fine r rs c h
  advance-IsCounted (suc i) others gone fine (r ∷ rs) c h =
      put_back others gone r (advance i fine rs c).0 (advance i fine rs c).1 (
        advance-IsCounted i (with_busy r others) (gone || is_returned r) fine rs c
          (leave_out others gone r rs c h))

  benchmark-IsCounted :
      (steps : List (ℕ × Bool)) (rs : List Runner) (c : Counters)
      → IsCounted 0 false rs c
      → let (qs, d) = benchmark steps rs c in IsCounted 0 false qs d
  unfolding benchmark
  benchmark-IsCounted [] rs c h = h
  benchmark-IsCounted ((i, fine) ∷ steps) rs c h =
      benchmark-IsCounted steps (advance i fine rs c).0 (advance i fine rs c).1
        (advance-IsCounted i 0 false fine rs c h)

  length-advance :
      (i : ℕ) (fine : Bool) (rs : List Runner) (c : Counters)
      → length (advance i fine rs c).0 ≡ length rs
  unfolding advance
  length-advance i fine [] c = refl
  length-advance zero fine (r ∷ rs) c = refl
  length-advance (suc i) fine (r ∷ rs) c = ap suc (length-advance i fine rs c)

  length-benchmark :
      (steps : List (ℕ × Bool)) (rs : List Runner) (c : Counters)
      → length (benchmark steps rs c).0 ≡ length rs
  unfolding benchmark
  length-benchmark [] rs c = refl
  length-benchmark ((i, fine) ∷ steps) rs c =
      length-benchmark steps (advance i fine rs c).0 (advance i fine rs c).1
      ∙ length-advance i fine rs c

  runners-IsCounted : (n : ℕ) → IsCounted 0 false (runners n) zeros
  runners-IsCounted zero = ground arith
  runners-IsCounted (suc n) = ground (arith, runners-IsCounted n)

  none_busy : (rs : List Runner) → All (λ r. r ≡ returned) rs → count is_busy rs ≡ 0
  none_busy [] h = refl
  none_busy (r ∷ rs) (e, h) = rw (e, none_busy rs h) refl

  some_returned :
      (rs : List Runner) (n : ℕ)
      → length rs ≡ suc n
      → All (λ r. r ≡ returned) rs
      → any is_returned rs ≡ true
  some_returned [] n e h = ground arith
  some_returned (r ∷ rs) n e (x, h) = rw x refl

  -- In whatever order the runners take their steps and whatever fails: no more than `jobs` jobs are
  -- started, those that completed and those that failed are at most the started ones, and once all
  -- runners have returned they are exactly `jobs`. There is at least one runner.
  pub benchmark_counts :
      (n : ℕ) (steps : List (ℕ × Bool))
      → let (rs, c) = benchmark steps (runners (suc n)) zeros in
        (c.next ≤ jobs)
        × (c.completed + c.errors ≤ c.next)
        × (All (λ r. r ≡ returned) rs → c.completed + c.errors ≡ jobs)
  benchmark_counts n steps =
      let (rs, c) = benchmark steps (runners (suc n)) zeros in
      let (le, sum, _, end) =
        benchmark-IsCounted steps (runners (suc n)) zeros (runners-IsCounted (suc n)) in
      let len = length-benchmark steps (runners (suc n)) zeros in
      (
        le,
        omega (arith, sum),
        λ all.
            omega
              (arith, sum, none_busy rs all, end (some_returned rs (length (runners n)) len all)),
      )
