-- ===== src/Consumer/Loop/Returns.antt =====
-- The consumer of worker-service/internal/queue/consumer.go returns once it is told to stop, and what
-- it has done by then.
use scalequeue.Common.{
  ℕ, zero, suc, ◌+◌, ◌≤◌, ◌<◌, ◌≡◌, refl, String, Bool, true, false, Option, none, some, List, [],
  ◌∷◌, ◌++◌, Bool-cases, All, All-mono, ◌⊎◌, inl, inr, arith,
}
use scalequeue.Session.{Session}
use scalequeue.Consumer.{Delivery, handle}
use scalequeue.Consumer.Deliveries.{Handled, handle_lem}
use scalequeue.Consumer.Loop.{
  Visit, Turn, Log, Progress, after, standing, is_stopped, is_over, visit_all, recover, recover_if,
  stream, start,
}

-- A visit of a list.
abbrev pub Among : Visit → List Visit → Type 0
Among v [] = ⊥
Among v (w ∷ ws) = (v ≡ w) ⊎ Among v ws

-- The stream gave the visit in this iteration, by XAUTOCLAIM, where a recovery was due, or by
-- XREADGROUP.
abbrev pub IsGiven : Turn → Visit → Type 0
IsGiven turn v =
    ((turn.due ≡ true)
      × ((next : String) × (vs : List Visit) × (turn.claimed ≡ some (next, vs)) × Among v vs))
    ⊎ ((vs : List Visit) × (turn.streamed ≡ some vs) × Among v vs)

All-Among : (vs : List Visit) → All (λ v. Among v vs) vs
All-Among [] = tt
All-Among (v ∷ vs) = (inl refl, All-mono vs (λ w h. inr h) (All-Among vs))

module _ (stop_at lease : ℕ) (owner : String) (turns : ℕ → Turn) where
  -- The deliveries of the log, which the stream gave, were handled one after the other, from `s` to
  -- `t`.
  pub data Consumed : Log → Session → Session → Type 0 where
    nothing : (s : Session) → Consumed [] s s
    one_more :
        (n : ℕ) (v : Visit) (x : Delivery) (log : Log) (s t u : Session)
        → IsGiven (turns n) v
        → Handled v.run v.around lease owner v.message s (x, t)
        → Consumed log t u
        → Consumed ((v.message, x) ∷ log) s u

  Consumed-append :
      (log more : Log) (s t u : Session)
      → Consumed log s t
      → Consumed more t u
      → Consumed (log ++ more) s u
  Consumed-append _ more s _ u (nothing _) h = h
  Consumed-append _ more s t u (one_more n v x log _ r _ given ended rest) h =
      one_more n v x (log ++ more) s r u given ended (Consumed-append log more r t u rest h)

  abbrev IsProgress : ℕ → Session → Progress → Type 0
  IsProgress checks s p = Consumed p.log s p.session × (checks ≤ p.checks)

  visit_all-IsProgress :
      (n : ℕ) (recovering : Bool) (vs : List Visit) (checks : ℕ) (s : Session)
      → All (IsGiven (turns n)) vs
      → IsProgress checks s (visit_all stop_at lease owner recovering vs checks s).1
  unfolding visit_all
  visit_all-IsProgress n recovering [] checks s given = (nothing s, omega arith)
  visit_all-IsProgress n recovering (v ∷ vs) checks s (given, others) =
      elim (Bool-cases (is_over recovering v)) [
        | inl e ↦ rw (visit_all, e) (nothing s, omega arith)
        | inr e ↦
            rw (visit_all, e)
              (elim (Bool-cases (is_stopped stop_at checks)) [
                | inl f ↦ rw f (nothing s, omega arith)
                | inr f ↦
                    let (x, t) = handle v.run v.around lease owner v.message s in
                    let (rest, le) = visit_all-IsProgress n recovering vs (checks + 1) t others in
                    rw f (
                      one_more n v x _ s t _ given
                          (handle_lem v.run v.around lease owner v.message s) rest,
                      omega (arith, le),
                    )
              ])
      ]

  recover-IsProgress :
      (n : ℕ) (answer : Option (String × List Visit)) (cursor : String) (checks : ℕ) (s : Session)
      → (turns n).due ≡ true
      → (turns n).claimed ≡ answer
      → IsProgress checks s (recover stop_at lease owner answer cursor checks s).1
  unfolding recover
  recover-IsProgress n none cursor checks s due came = (nothing s, omega arith)
  recover-IsProgress n (some (next, vs)) cursor checks s due came =
      visit_all-IsProgress n true vs checks s
        (All-mono vs (λ v h. inl (due, (next, vs, came, h))) (All-Among vs))

  recover_if-IsProgress :
      (n : ℕ) (due : Bool) (cursor : String) (checks : ℕ) (s : Session)
      → (turns n).due ≡ due
      → IsProgress checks s (recover_if stop_at lease owner due (turns n) cursor checks s).1
  recover_if-IsProgress n true cursor checks s e =
      recover-IsProgress n (turns n).claimed cursor checks s e refl
  recover_if-IsProgress n false cursor checks s e = (nothing s, omega arith)

  stream-IsProgress :
      (n : ℕ) (answer : Option (List Visit)) (checks : ℕ) (s : Session)
      → (turns n).streamed ≡ answer
      → IsProgress checks s (stream stop_at lease owner answer checks s).1
  unfolding stream
  stream-IsProgress n none checks s came = (nothing s, omega arith)
  stream-IsProgress n (some vs) checks s came =
      visit_all-IsProgress n false vs checks s
        (All-mono vs (λ v h. inr (vs, came, h)) (All-Among vs))

  -- The loop over messages returns early, where it does not test the context of the execution, only
  -- when it has read that `stop` is set.
  visit_all-stopped :
      (vs : List Visit) (checks : ℕ) (s : Session)
      → (visit_all stop_at lease owner false vs checks s).0 ≡ true
      → stop_at < (visit_all stop_at lease owner false vs checks s).1.checks
  unfolding visit_all
  visit_all-stopped [] checks s h = cc
  visit_all-stopped (v ∷ vs) checks s h = elim (Bool-cases (is_stopped stop_at checks)) [
    | inl f ↦ rw (visit_all, f) (ground arith)
    | inr f ↦
        let t = (handle v.run v.around lease owner v.message s).1 in
        rw (visit_all, f) (visit_all-stopped vs (checks + 1) t (rw (visit_all, f) at h))
  ]

  stream-stopped :
      (answer : Option (List Visit)) (checks : ℕ) (s : Session)
      → (stream stop_at lease owner answer checks s).0 ≡ true
      → stop_at < (stream stop_at lease owner answer checks s).1.checks
  unfolding stream
  stream-stopped none checks s h = ground arith
  stream-stopped (some vs) checks s h = visit_all-stopped vs checks s h

  module _ (fuel : ℕ) (n : ℕ) (cursor : String) (checks : ℕ) (s : Session) where
    abbrev run : Option Progress
    run = start stop_at lease owner (suc fuel) turns n cursor checks s

    abbrev scan : String × Progress
    scan = recover_if stop_at lease owner (turns n).due (turns n) cursor (checks + 1) s

    abbrev poll : Bool × Progress
    poll = stream stop_at lease owner (turns n).streamed (scan.1.checks + 1) scan.1.session

    abbrev IsStopped : ℕ → Bool → Type 0
    IsStopped c b = is_stopped stop_at c ≡ b

    at_once : IsStopped checks true → run ≡ some (standing (checks + 1) s)
    unfolding start
    at_once e = rw (start, e) refl

    after_scan :
        IsStopped checks false
        → IsStopped scan.1.checks true
        → run ≡ some (record (scan.1) { checks = scan.1.checks + 1 })
    unfolding start
    after_scan e f = rw (start, e, f) refl

    after_poll :
        IsStopped checks false
        → IsStopped scan.1.checks false
        → poll.0 ≡ true
        → run ≡ some (after scan.1.log poll.1)
    unfolding start
    after_poll e f g = rw (start, e, f, g) refl

    after_rest :
        (r : Progress)
        → IsStopped checks false
        → IsStopped scan.1.checks false
        → poll.0 ≡ false
        → start stop_at lease owner fuel turns (n + 1) scan.0 poll.1.checks poll.1.session ≡ some r
        → run ≡ some (after (scan.1.log ++ poll.1.log) r)
    unfolding start
    after_rest r e f g h = rw (start, e, f, g, h) refl

  -- There is a result: `stop` has been read once it was set, and the log is accounted for.
  abbrev pub Returns : Session → Option Progress → Type 0
  Returns s r = (p : Progress) × (r ≡ some p) × (stop_at < p.checks) × Consumed p.log s p.session

  -- The consumer returns: where `stop` is set once it has been read `stop_at` times, so many
  -- iterations and one more are enough, whatever the stream answers and whatever becomes of the
  -- deliveries; and it returns only after it has read that `stop` is set. By then it has handled
  -- deliveries that the stream gave, one after the other, each as `Handled` says: it acknowledged
  -- one only where, when the claim read the row, there was nothing to run, where the claim gave up
  -- a free job with no attempt left, or where it took a free job and the verdict on the handler's
  -- outcome was stored.
  pub start-Returns :
      (fuel : ℕ) (n : ℕ) (cursor : String) (checks : ℕ) (s : Session)
      → stop_at ≤ checks + fuel
      → Returns s (start stop_at lease owner (suc fuel) turns n cursor checks s)
  start-Returns zero n cursor checks s h = (
    standing (checks + 1) s,
    at_once zero n cursor checks s (ground arith),
    ground arith,
    nothing s,
  )
  start-Returns (suc k) n cursor checks s h =
      let p = scan (suc k) n cursor checks s in
      let q = poll (suc k) n cursor checks s in
      let (done_p, le_p) = recover_if-IsProgress n (turns n).due cursor (checks + 1) s refl in
      let (done_q, le_q) =
        stream-IsProgress n (turns n).streamed (p.1.checks + 1) p.1.session refl in
      let both = Consumed-append p.1.log q.1.log s p.1.session q.1.session done_p done_q in
      elim (Bool-cases (is_stopped stop_at checks)) [
        | inl e ↦
            (standing (checks + 1) s, at_once (suc k) n cursor checks s e, ground arith, nothing s)
        | inr e ↦ elim (Bool-cases (is_stopped stop_at p.1.checks)) [
          | inl f ↦ (
            record (p.1) { checks = p.1.checks + 1 },
            after_scan (suc k) n cursor checks s e f,
            ground arith,
            done_p,
          )
          | inr f ↦ elim (Bool-cases q.0) [
            | inl g ↦ (
              after p.1.log q.1,
              after_poll (suc k) n cursor checks s e f g,
              stream-stopped (turns n).streamed (p.1.checks + 1) p.1.session g,
              both,
            )
            | inr g ↦
                let (r, ran, late, rest) =
                  start-Returns k (n + 1) p.0 q.1.checks q.1.session (omega arith) in
                (
                  after (p.1.log ++ q.1.log) r,
                  after_rest (suc k) n cursor checks s r e f g ran,
                  late,
                  Consumed-append (p.1.log ++ q.1.log) r.log s q.1.session r.session both rest,
                )
          ]
        ]
      ]
