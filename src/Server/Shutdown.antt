-- ===== src/Server/Shutdown.antt =====
-- The shutdown of api-service/src/server.ts as a state machine: the signals, the callback of
-- `server.close`, the settled promise of the two pools, and the deadline, in any order.
use scalequeue.Common.{
  ◌≢◌, All, ℕ, ◌+◌, ◌≤◌, ◌≡◌, refl, Bool, true, false, Option, none, some, List, [], ◌∷◌, ◌++◌,
  arith,
}

-- `closes` counts the calls of `server.close`, `timers` those of `setTimeout`; `exit` is the code of
-- the first `process.exit`.
pub record Process : Type 0 where
  pub stopping : Bool
  pub closes : ℕ
  pub timers : ℕ
  pub closed : Bool
  pub deadline : Bool
  pub exit : Option ℕ

-- SIGTERM or SIGINT; `server.close` calls back; the pools have ended, or one fails to; the deadline.
pub data Event : Type 0 where
  signal drained ended failed expired : Event

abbrev pub running : Process
running = record {
  stopping = false;
  closes = 0;
  timers = 0;
  closed = false;
  deadline = false;
  exit = none;
}

abbrev exit_now : ℕ → Process → Process
exit_now code p = record p { exit = some code }

-- `shutdown`
abbrev shutdown : Process → Process
shutdown p = elim p.stopping [
  | true ↦ p
  | false ↦ record p {
    stopping = true;
    deadline = true;
    timers = p.timers + 1;
    closes = p.closes + 1;
  }
]

-- A callback runs only after what it waits for was called.
abbrev on_drained : Process → Process
on_drained p = elim p.stopping [ true ↦ record p { closed = true } | false ↦ p ]

abbrev on_ended : Process → Process
on_ended p = elim p.closed [ true ↦ record p { deadline = false } | false ↦ p ]

abbrev on_failed : Process → Process
on_failed p = elim p.closed [ true ↦ exit_now 1 p | false ↦ p ]

abbrev on_expired : Process → Process
on_expired p = elim p.deadline [ true ↦ exit_now 1 p | false ↦ p ]

handle : Event → Process → Process
handle signal p = shutdown p
handle drained p = on_drained p
handle ended p = on_ended p
handle failed p = on_failed p
handle expired p = on_expired p

-- Nothing runs after `process.exit`.
pub step : Process → Event → Process
unfolding handle
step p e = elim p.exit [ none ↦ handle e p | some code ↦ p ]

unfoldable pub run : Process → List Event → Process
unfolding step
run p [] = p
run p (e ∷ es) = run (step p e) es

-- What holds between two events.
record IsOrderly (p : Process) : Type 0 where
  once : p.closes ≤ 1
  timed : p.timers ≡ p.closes
  signalled : (p.stopping ≡ false) → (p.closes ≡ 0) × (p.exit ≡ none) × (p.deadline ≡ false)
  late : p.closed ≡ true → p.stopping ≡ true
  forced : (code : ℕ) → p.exit ≡ some code → code ≡ 1

step-IsOrderly : (p : Process) (e : Event) → IsOrderly p → IsOrderly (step p e)
unfolding step handle
step-IsOrderly p e h = ground arith

run-IsOrderly : (p : Process) (es : List Event) → IsOrderly p → IsOrderly (run p es)
unfolding run
run-IsOrderly p [] h = h
run-IsOrderly p (e ∷ es) h = run-IsOrderly (step p e) es (step-IsOrderly p e h)

running-IsOrderly : IsOrderly running
running-IsOrderly = ground arith

-- Whatever the signals and callbacks, and in whatever order: `server.close` and the deadline's
-- timer are called at most once and together, and a forced exit has the code 1 and follows a
-- signal.
pub shutdown_once :
    (es : List Event)
    → let p = run running es in
      (p.closes ≤ 1)
      × (p.timers ≡ p.closes)
      × ((code : ℕ) → p.exit ≡ some code → (code ≡ 1) × (p.stopping ≡ true))
shutdown_once es =
    let p = run running es in
    let h = run-IsOrderly running es running-IsOrderly in
    (h.once, h.timed, λ code e. (h.forced code e, ground arith))

run-append : (p : Process) (xs ys : List Event) → run p (xs ++ ys) ≡ run (run p xs) ys
unfolding run
run-append p [] ys = refl
run-append p (x ∷ xs) ys = run-append (step p x) xs ys

-- Neither a pool's failure nor the deadline.
abbrev pub IsHarmless : Event → Type 0
IsHarmless e = (e ≢ failed) × (e ≢ expired)

-- Not yet left; after a signal; after the server has drained.
abbrev IsUp : Process → Type 0
IsUp p = p.exit ≡ none

abbrev IsStopping : Process → Type 0
IsStopping p = (p.stopping ≡ true) × (p.exit ≡ none)

abbrev IsDrained : Process → Type 0
IsDrained p = (p.closed ≡ true) × (p.stopping ≡ true) × (p.exit ≡ none)

-- What every harmless event keeps, a list of them keeps.
run-keeps :
    (P : Process → Type 0) (p : Process) (es : List Event)
    → ((q : Process) (e : Event) → IsHarmless e → P q → P (step q e))
    → All IsHarmless es
    → P p
    → P (run p es)
unfolding run
run-keeps P p [] keep all h = h
run-keeps P p (e ∷ es) keep (a, all) h = run-keeps P (step p e) es keep all (keep p e a h)

step-IsUp : (p : Process) (e : Event) → IsHarmless e → IsUp p → IsUp (step p e)
unfolding step handle
step-IsUp p signal a h = ground arith
step-IsUp p drained a h = ground arith
step-IsUp p ended a h = ground arith
step-IsUp p failed a h = absurd (a.0 refl)
step-IsUp p expired a h = absurd (a.1 refl)

step-IsStopping : (p : Process) (e : Event) → IsHarmless e → IsStopping p → IsStopping (step p e)
unfolding step handle
step-IsStopping p signal a h = ground arith
step-IsStopping p drained a h = ground arith
step-IsStopping p ended a h = ground arith
step-IsStopping p failed a h = absurd (a.0 refl)
step-IsStopping p expired a h = absurd (a.1 refl)

step-IsDrained : (p : Process) (e : Event) → IsHarmless e → IsDrained p → IsDrained (step p e)
unfolding step handle
step-IsDrained p signal a h = ground arith
step-IsDrained p drained a h = ground arith
step-IsDrained p ended a h = ground arith
step-IsDrained p failed a h = absurd (a.0 refl)
step-IsDrained p expired a h = absurd (a.1 refl)

signal-IsStopping : (p : Process) → IsUp p → IsStopping (step p signal)
unfolding step handle
signal-IsStopping p h = ground arith

drained-IsDrained : (p : Process) → IsStopping p → IsDrained (step p drained)
unfolding step handle
drained-IsDrained p h = ground arith

-- After the pools have ended: no deadline is set, and no signal sets one.
abbrev IsDone : Process → Type 0
IsDone p = (p.stopping ≡ true) × (p.deadline ≡ false) × (p.exit ≡ none)

step-IsDone : (p : Process) (e : Event) → e ≢ failed → IsDone p → IsDone (step p e)
unfolding step handle
step-IsDone p signal h d = ground arith
step-IsDone p drained h d = ground arith
step-IsDone p ended h d = ground arith
step-IsDone p failed h d = absurd (h refl)
step-IsDone p expired h d = ground arith

run-IsDone :
    (p : Process) (es : List Event) → All (λ e. e ≢ failed) es → IsDone p → IsDone (run p es)
unfolding run
run-IsDone p [] all h = h
run-IsDone p (e ∷ es) (a, all) h = run-IsDone (step p e) es all (step-IsDone p e a h)

ended-IsDone : (p : Process) → IsDrained p → IsDone (step p ended)
unfolding step handle
ended-IsDone p h = ground arith

-- From a state with `P`, harmless events that keep `P` and then an event that brings `Q`.
run_then :
    (P Q : Process → Type 0) (p : Process) (es : List Event) (e : Event) (more : List Event)
    → ((q : Process) (x : Event) → IsHarmless x → P q → P (step q x))
    → ((q : Process) → P q → Q (step q e))
    → All IsHarmless es
    → P p
    → (q : Process) × Q q × (run p (es ++ e ∷ more) ≡ run q more)
unfolding run
run_then P Q p es e more keep reach all h =
    (step (run p es) e, reach (run p es) (run-keeps P p es keep all h), run-append p es (e ∷ more))

-- A shutdown in which the server drains and both pools end is never forced. A signal comes, some
-- time later `server.close` calls back, and some time after that the pools have ended; before,
-- between and after these any other events come, further signals included, but that a pool fails,
-- and that the deadline expires before the pools have ended. Then `process.exit` is not called, and
-- the deadline that may come after the pools have ended does not call it either.
pub clean_shutdown :
    (before draining ending after : List Event)
    → All IsHarmless before
    → All IsHarmless draining
    → All IsHarmless ending
    → All (λ e. e ≢ failed) after
    → (run running (before ++ signal ∷ (draining ++ drained ∷ (ending ++ ended ∷ after)))).exit
      ≡ none
clean_shutdown before draining ending after h1 h2 h3 h4 =
    let (p, stopping, e1) =
      run_then IsUp IsStopping running before signal
        (draining ++ drained ∷ (ending ++ ended ∷ after)) step-IsUp signal-IsStopping h1 refl in
    let (q, closed, e2) =
      run_then IsStopping IsDrained p draining drained (ending ++ ended ∷ after) step-IsStopping
        drained-IsDrained h2 stopping in
    let (r, over, e3) =
      run_then IsDrained IsDone q ending ended after step-IsDrained ended-IsDone h3 closed in
    rw (e1, e2, e3) ((run-IsDone r after h4 over).2)
