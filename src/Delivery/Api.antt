-- ===== src/Delivery/Api.antt =====
-- `createJob` and `requeueJob` of api-service/src/services/jobService.ts, the
-- outbox and the attempts.
use scalequeue.Common.{
  ℕ, ◌+◌, ◌≡◌, refl, sym, inl, inr, ap, eq_iff, str_eq, String, true, [], ◌∷◌, Option, some, arith,
  find?-map_where, find?-append_cases, find?-test, any-append_left, any-append_last, eq_refl, ◌&&◌,
  ◌==◌, ◌∙◌, any, false, find?-append_last, find?-of-map_where, if_true,
}
use scalequeue.Schema.{Job, Db}
use scalequeue.Schema.Tables.{has_id, find_job}
use scalequeue.Session.{Session, Result}
use scalequeue.Session.Rules.{Ends, Ends-mono}
use scalequeue.JobService.{Platform, CreateJobInput}
use scalequeue.JobService.Create.{new_job, create_job}
use scalequeue.JobService.Create.Acceptance.{accepted, create_job_atomic}
use scalequeue.JobService.Requeue.{requeue_job}
use scalequeue.JobService.Requeue.Replay.{replayed, IsReplayed, requeue_job_atomic}
use scalequeue.Delivery.{is_intent, IsSound}
use scalequeue.Delivery.References.{
  append-IsKeyed, append_job-AreBehind, append-AreBehind, map_where-IsKeyed, map_where-AreBehind,
}
use scalequeue.Delivery.Statements.{append-IsNumbered, map_where-IsBudgeted}

-- Whether an action returns or throws, it leaves a sound database.
abbrev pub EndsSound : {A : Type 0} → Result A × Session → Type 0
EndsSound m = Ends (λ _ t. IsSound t.committed) (λ _ t. IsSound t.committed) m

accepted-IsSound :
    (id : String) (input : CreateJobInput) (key request : Option String) (a b c : ℕ) (d : Db)
    → any (has_id id) d.jobs ≡ false
    → IsSound d
    → IsSound (accepted id input key request a b c d)
accepted-IsSound id input key request a b c d free sound = record {
  covered = λ k j found opened.
      elim (find?-append_cases (has_id k) d.jobs (new_job id input key request a ∷ []) j found) [
        | inl old ↦
            any-append_left (is_intent k j.generation) d.outbox _ (sound.covered k j old opened)
        | inr new ↦ any-append_last (is_intent k j.generation) d.outbox _ (ground arith)
      ];
  budgeted = λ k j found.
      elim (find?-append_cases (has_id k) d.jobs (new_job id input key request a ∷ []) j found) [
        | inl old ↦ sound.budgeted k j old
        | inr new ↦ ground arith
      ];
  numbered = append-IsNumbered 0 d.next_outbox _ d.outbox refl sound.numbered;
  keyed = append-IsKeyed d.jobs (new_job id input key request a) free sound.keyed;
  behind =
      append-AreBehind _ _ d.outbox
        (
          new_job id input key request a,
          find?-append_last (has_id id) d.jobs (new_job id input key request a) free
              ∙ if_true _ _ (eq_refl id),
          inr (refl, omega arith),
        )
        (append_job-AreBehind d.jobs (new_job id input key request a) d.outbox sound.behind);
}

some_injective : {a b : Job} → some a ≡ some b → a ≡ b
some_injective h = cc

same_intent : (k id : String) (g h : ℕ) → id ≡ k → g ≡ h → (str_eq id k && h == g) ≡ true
same_intent k id g h e f = rw e (rw f (ground (arith, eq_refl k)))

replayed-IsSound :
    (id : String) (j : Job) (a b c : ℕ) (d : Db)
    → find_job id d ≡ some j
    → IsSound d
    → IsSound (replayed id j a b c d)
replayed-IsSound id j a b c d stored sound = record {
  covered = λ k i found opened.
      let (was, before, how) =
        find?-map_where (has_id k) (has_id id) _ d.jobs i (λ y. refl) found in
      elim how [
        | inl e ↦
            any-append_left (is_intent k i.generation) d.outbox _
              (sound.covered k i (rw e before) opened)
        | inr (q, e) ↦
            let by_k : was.id ≡ k = (eq_iff was.id k).0 (find?-test (has_id k) d.jobs was before) in
            let by_id : was.id ≡ id = (eq_iff was.id id).0 q in
            let both : id ≡ k = sym by_id ∙ by_k in
            let same : was ≡ j = some_injective (sym before ∙ (rw (← both) stored)) in
            any-append_last (is_intent k i.generation) d.outbox _ (
              same_intent k id i.generation (j.generation + 1) both
                (rw e (ap (λ x. x.generation + 1) same)))
      ];
  budgeted =
      map_where-IsBudgeted (has_id id) _ d.jobs (λ _. refl) (λ _ _ _ _. omega arith) sound.budgeted;
  numbered = append-IsNumbered 0 d.next_outbox _ d.outbox refl sound.numbered;
  keyed = map_where-IsKeyed (has_id id) _ d.jobs (λ _. refl) sound.keyed;
  behind =
      append-AreBehind _ _ d.outbox
        (
          _,
          find?-of-map_where (has_id id) (has_id id) _ d.jobs j (λ _. refl) stored
              (find?-test (has_id id) d.jobs j stored),
          inr (refl, omega arith),
        )
        (map_where-AreBehind (has_id id) _ d.jobs d.outbox (λ _. refl) (λ i. inl (omega arith))
          sound.behind);
}

module _ (platform : Platform) where
  pub create_job-IsSound :
      (id : String) (input : CreateJobInput) (request_key : Option String) (s : Session)
      → IsSound s.committed
      → EndsSound (create_job platform id input request_key s)
  create_job-IsSound id input request_key s sound =
      Ends-mono _
        (λ _ t q. elim q [
          | inl same ↦ rw same sound
          | inr ((a, b, c, e, free, _), _) ↦
              rw e (accepted-IsSound id input _ _ a b c s.committed free sound)
        ])
        (λ _ t q. elim q [
          | inl ((a, b, c, e, free, _), _) ↦
              rw e (accepted-IsSound id input _ _ a b c s.committed free sound)
          | inr (_, same) ↦ rw same sound
        ])
        (create_job_atomic platform id input request_key s)

after_replay : (id : String) (d e : Db) → IsReplayed id d e → IsSound d → IsSound e
after_replay id d e (j, a, b, c, stored, _, eq) sound =
    rw eq (replayed-IsSound id j a b c d stored sound)

pub requeue_job-IsSound :
    (id : String) (s : Session) → IsSound s.committed → EndsSound (requeue_job id s)
requeue_job-IsSound id s sound =
    Ends-mono _
      (λ _ t q. elim q [
        | inl (same, _) ↦ rw same sound
        | inr (new, _) ↦ after_replay id s.committed t.committed new sound
      ])
      (λ _ t (new, _). after_replay id s.committed t.committed new sound) (requeue_job_atomic id s)
