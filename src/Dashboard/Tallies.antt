-- ===== src/Dashboard/Tallies.antt =====
-- The statistics of dashboard/app.js count the jobs of each status.
use scalequeue.Common.{
  ℕ, suc, ◌+◌, ◌≡◌, Bool, Option, none, some, List, [], ◌∷◌, count, if◌then◌else◌, str_eq, arith,
}
use scalequeue.Schema.{JobStatus, status_name, Job}
use scalequeue.Dashboard.{Counts, Stats}
use scalequeue.Dashboard.Drawing.{tally, tally_all, no_counts}

abbrev pub has_status : JobStatus → Job → Bool
has_status s j = str_eq (status_name j.status) (status_name s)

-- The number of jobs of each status.
abbrev pub AreCounts : List Job → Counts → Type 0
AreCounts jobs c =
    (c.pending ≡ count (has_status JobStatus.pending) jobs)
    × (c.processing ≡ count (has_status JobStatus.processing) jobs)
    × (c.completed ≡ count (has_status JobStatus.completed) jobs)
    × (c.failed ≡ count (has_status JobStatus.failed) jobs)
    × (c.dead ≡ count (has_status JobStatus.dead) jobs)

-- The counts `c`, to which those of the jobs were added.
abbrev AreAdded : List Job → Counts → Counts → Type 0
AreAdded jobs c r =
    (r.pending ≡ c.pending + count (has_status JobStatus.pending) jobs)
    × (r.processing ≡ c.processing + count (has_status JobStatus.processing) jobs)
    × (r.completed ≡ c.completed + count (has_status JobStatus.completed) jobs)
    × (r.failed ≡ c.failed + count (has_status JobStatus.failed) jobs)
    × (r.dead ≡ c.dead + count (has_status JobStatus.dead) jobs)

abbrev added : JobStatus → JobStatus → ℕ → ℕ
added s t n = if str_eq (status_name s) (status_name t) then suc n else n

tally_lem :
    (s : JobStatus) (c r : Counts) (n1 n2 n3 n4 n5 : ℕ)
    → r.pending ≡ (tally s c).pending + n1
    → r.processing ≡ (tally s c).processing + n2
    → r.completed ≡ (tally s c).completed + n3
    → r.failed ≡ (tally s c).failed + n4
    → r.dead ≡ (tally s c).dead + n5
    → (r.pending ≡ c.pending + added s JobStatus.pending n1)
      × (r.processing ≡ c.processing + added s JobStatus.processing n2)
      × (r.completed ≡ c.completed + added s JobStatus.completed n3)
      × (r.failed ≡ c.failed + added s JobStatus.failed n4)
      × (r.dead ≡ c.dead + added s JobStatus.dead n5)
unfolding tally
tally_lem JobStatus.pending c r n1 n2 n3 n4 n5 h1 h2 h3 h4 h5 = ground arith
tally_lem JobStatus.processing c r n1 n2 n3 n4 n5 h1 h2 h3 h4 h5 = ground arith
tally_lem JobStatus.completed c r n1 n2 n3 n4 n5 h1 h2 h3 h4 h5 = ground arith
tally_lem JobStatus.failed c r n1 n2 n3 n4 n5 h1 h2 h3 h4 h5 = ground arith
tally_lem JobStatus.dead c r n1 n2 n3 n4 n5 h1 h2 h3 h4 h5 = ground arith

tally-AreAdded :
    (j : Job) (js : List Job) (c r : Counts)
    → AreAdded js (tally j.status c) r
    → AreAdded (j ∷ js) c r
tally-AreAdded j js c r (h1, h2, h3, h4, h5) = tally_lem j.status c r _ _ _ _ _ h1 h2 h3 h4 h5

tally_all-AreAdded : (js : List Job) (c : Counts) → AreAdded js c (tally_all js c)
unfolding tally_all
tally_all-AreAdded [] c = ground arith
tally_all-AreAdded (j ∷ js) c = tally-AreAdded j js c _ (tally_all-AreAdded js (tally j.status c))

pub tally_all-AreCounts : (js : List Job) → AreCounts js (tally_all js no_counts)
tally_all-AreCounts js = ground (arith, tally_all-AreAdded js no_counts)

-- The statistics are those of the jobs.
abbrev pub StatsShow : Option Stats → List Job → Type 0
StatsShow none js = js ≡ []
StatsShow (some s) js = AreCounts js s.counts
