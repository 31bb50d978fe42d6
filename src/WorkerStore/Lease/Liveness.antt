-- ===== src/WorkerStore/Lease/Liveness.antt =====
-- `Renew` and `Finish` of worker-service/internal/db/mysql.go for the holder of a lease that lasts,
-- where nothing is lost.
use scalequeue.Common.{
  ℕ, ◌+◌, ◌≤◌, ◌<◌, ◌≡◌, refl, ◌∙◌, some, find?, map_where, arith, count-map_where,
  find?-of-map_where,
}
use scalequeue.Schema.{Job, Db}
use scalequeue.Schema.Tables.{has_id}
use scalequeue.Session.{Session}
use scalequeue.Session.Rules.{Ends, Ends-continue, Ends-releasing, IsOutside}
use scalequeue.Session.Timely.{
  IsTimely, IsTimely-of, statement-IsOutside-IsTimely, get_connection-IsTimely,
}
use scalequeue.WorkerStore.{is_held}
use scalequeue.WorkerStore.Held.{IsLeased, count-is_held, is_held_before}
use scalequeue.WorkerStore.Lease.{owned, extend, renew_row, renew}

module _ (j : Job) where
  -- The rows after an UPDATE of the held one.
  abbrev pub updated : (ℕ → Job → Job) → ℕ → Db → Db
  updated f now d = record d { jobs = map_where (is_held j now) (f now) d.jobs }

  pub update_held-found :
      {high : ℕ} (f : Job → Job) (now : ℕ) (d : Db) (h : IsLeased j high d)
      → now ≤ high
      → ((x : Job) → (f x).id ≡ x.id)
      → find? (has_id j.id) (map_where (is_held j now) f d.jobs) ≡ some (f h.row)
  update_held-found {high} f now d h before keep =
      find?-of-map_where (has_id j.id) (is_held j now) f d.jobs h.row (λ x. rw (keep x) refl)
        h.found (is_held_before j h.row now high before h.held)

  extend-IsLeased :
      {low high : ℕ} (lease now : ℕ) (d : Db)
      → low ≤ now
      → now ≤ high
      → high < low + lease
      → IsLeased j high d
      → IsLeased j high (updated (extend lease) now d)
  extend-IsLeased lease now d a b long h = record {
    row = extend lease now h.row;
    found = update_held-found (extend lease now) now d h b (λ x. refl);
    held = ground (arith, h.held);
    counted = h.counted;
    unique =
        count-map_where (has_id j.id) (is_held j now) (extend lease now) d.jobs (λ x. refl)
        ∙ h.unique;
    fresh = h.fresh;
  }

  -- A renewal keeps the lease.
  pub renew-IsTimely :
      {low high : ℕ} (lease : ℕ) {d : Db} (s : Session)
      → high < low + lease
      → IsLeased j high d
      → IsOutside d s
      → IsTimely low high s
      → Ends
          (λ _ _. ⊥)
          (λ _ t. (e : Db) × IsLeased j high e × IsOutside e t × IsTimely low high t)
          (renew lease j s)
  unfolding renew renew_row owned
  renew-IsTimely {low} {high} lease {d} s long leased o h =
      Ends-releasing {P = λ _ t. (e : Db) × IsLeased j high e × IsOutside e t × IsTimely low high t}
        _
        (Ends-continue _ _ (get_connection-IsTimely s o h) λ _ t (o1, h1).
          Ends-continue _ _
            (statement-IsOutside-IsTimely {low = low} {high = high} _
              (λ n e. (n ≡ 1) × IsLeased j high e) t o1 h1
              λ now a b. (
                _,
                _,
                refl,
                (count-is_held now d b leased, extend-IsLeased lease now d a b long leased),
              ))
            λ n u (e, (one, k), o2, h2). rw one (record { holds = (e, k, o2, h2) }))
        (λ _ _ (x : ⊥). x) (λ _ t (e, k, o, h). (e, k, (o.0, refl), IsTimely-of t _ refl refl h))
