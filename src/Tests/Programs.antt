-- ===== src/Tests/Programs.antt =====
-- The theorem on the benchmark at concrete inputs.
use scalequeue.Common.{◌≤◌, ◌+◌, ◌≡◌, true, false, [], ◌∷◌, All}
use scalequeue.Benchmark.{returned, zeros, runners, benchmark, benchmark_counts}

benchmark_counts_example :
    let (rs, c) =
      benchmark 1 ((0, true) ∷ (1, true) ∷ (0, false) ∷ (0, true) ∷ []) (runners 2) zeros in
    (c.next ≤ 1)
    × (c.completed + c.errors ≤ c.next)
    × (All (λ r. r ≡ returned) rs → c.completed + c.errors ≡ 1)
benchmark_counts_example =
    benchmark_counts 1 1 ((0, true) ∷ (1, true) ∷ (0, false) ∷ (0, true) ∷ [])
