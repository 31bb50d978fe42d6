-- ===== src/WorkerConfig/Validity.antt =====
-- When `Load` of worker-service/internal/config/config.go accepts the environment.
use scalequeue.Common.{
  ℕ, ◌≤◌, ◌≡◌, ◌≢◌, refl, sym, ◌∙◌, ap, String, true, false, Option, none, some, List, [], ◌∷◌, any,
  inl, inr, ◌⊎◌, Bool-cases, Option-cases, arith, str_eq, eq_iff,
}
use scalequeue.Identity.{codes}
use scalequeue.Backoff.{ℤ, pos}
use scalequeue.Consumer.{atoi}
use scalequeue.WorkerConfig.{
  WorkerConfig, DurationKey, lease_duration, with_duration, Loaded, loaded, invalid, is_shorter,
  is_bad_count, millisecond, env, duration_of, check_rest, load_durations, first_config,
  load_counted, load,
}
use scalequeue.WorkerConfig.Bounds.{
  IsAtLeast, get_duration, same_duration, same_duration-eq, get-with, get-with_other,
  with_duration-AgreesWith, long_enough, too_short, good_count, bad_count,
}

same_value : {A : Type 0} {o : Option A} {a b : A} → o ≡ some a → o ≡ some b → a ≡ b
same_value h k = ground arith

some-ne-none : {A : Type 0} {a : A} → some a ≢ none
some-ne-none h = cc

nonempty : (s : String) → str_eq s "" ≡ false → s ≢ ""
nonempty s h e = let contradiction : str_eq "" "" ≡ false = rw e at h in cc

module _ (getenv : String → String) (parse_duration : String → Option ℤ) where
  abbrev pub count_of : Option ℤ
  count_of = atoi (codes (env getenv parse_duration "WORKER_COUNT" "3"))

  abbrev pub IsCount : Option ℤ → Type 0
  IsCount o = (m : ℕ) × (o ≡ some (pos m)) × (1 ≤ m) × (m ≤ 100)

  abbrev pub HasDuration : DurationKey → ℕ → Type 0
  HasDuration k limit = (d : ℤ) × (duration_of getenv parse_duration k ≡ some d) × IsAtLeast limit d

  -- The environment, with the defaults, has a number of workers from 1 to 100, durations of at least a
  -- millisecond, a lease of at least 30, and the addresses of Redis and MySQL.
  pub record IsValid : Type 0 where
    pub counted : IsCount count_of
    pub durations : (k : DurationKey) → HasDuration k millisecond
    pub lasting : HasDuration lease_duration 30000000
    pub redis : getenv "REDIS_URL" ≢ ""
    pub mysql : getenv "MYSQL_URL" ≢ ""

  abbrev pub IsGiven : DurationKey → WorkerConfig → Type 0
  IsGiven k c =
      (duration_of getenv parse_duration k ≡ some (get_duration k c))
      × IsAtLeast millisecond (get_duration k c)

  -- The settings are those of the environment, within these bounds.
  pub record IsFit (c : WorkerConfig) : Type 0 where
    pub counted : (some c.worker_count ≡ count_of) × IsCount (some c.worker_count)
    pub durations : (k : DurationKey) → IsGiven k c
    pub lasting : IsAtLeast 30000000 c.lease
    pub redis : (c.redis_url ≡ getenv "REDIS_URL") × (c.redis_url ≢ "")
    pub mysql : (c.mysql_url ≡ getenv "MYSQL_URL") × (c.mysql_url ≢ "")

  abbrev pub IsJudged : Loaded → Type 0
  IsJudged (loaded c) = IsFit c
  IsJudged (invalid text) = ¬ IsValid

  -- What the loop over the durations begins with.
  abbrev IsBegun : WorkerConfig → Type 0
  IsBegun c =
      ((some c.worker_count ≡ count_of) × IsCount (some c.worker_count))
      × (c.redis_url ≡ getenv "REDIS_URL")
      × (c.mysql_url ≡ getenv "MYSQL_URL")

  check_rest_lem :
      (c : WorkerConfig)
      → IsBegun c
      → ((k : DurationKey) → IsGiven k c)
      → IsJudged (check_rest getenv parse_duration c)
  check_rest_lem c (counted, redis, mysql) set = elim (Bool-cases (is_shorter c.lease 30000000)) [
    | inl e ↦ rw e (λ valid.
        let (d, found, long) = valid.lasting in
        too_short c.lease 30000000 e (rw (same_value found (set lease_duration).0) at long))
    | inr e ↦ rw e (elim (Bool-cases (str_eq c.redis_url "")) [
      | inl r ↦ rw r (λ valid. valid.redis (sym redis ∙ (eq_iff c.redis_url "").0 r))
      | inr r ↦ rw r (elim (Bool-cases (str_eq c.mysql_url "")) [
        | inl q ↦ rw q (λ valid. valid.mysql (sym mysql ∙ (eq_iff c.mysql_url "").0 q))
        | inr q ↦ rw q (record {
          counted = counted;
          durations = set;
          lasting = long_enough c.lease 30000000 e;
          redis = (redis, nonempty c.redis_url r);
          mysql = (mysql, nonempty c.mysql_url q);
        })
      ])
    ])
  ]

  IsBegun-with_duration :
      (k : DurationKey) (d : ℤ) (c : WorkerConfig) → IsBegun c → IsBegun (with_duration k d c)
  IsBegun-with_duration k d c (counted, redis, mysql) =
      let (a, b, n) = with_duration-AgreesWith k d c in (rw n counted, a ∙ redis, b ∙ mysql)

  set_self :
      (k : DurationKey) (d : ℤ) (c : WorkerConfig)
      → duration_of getenv parse_duration k ≡ some d
      → IsAtLeast millisecond d
      → IsGiven k (with_duration k d c)
  set_self k d c found long = rw (get-with k d c) (found, long)

  -- The duration `k` was set, and the others are as before.
  set_after :
      (k l : DurationKey) (d : ℤ) (c : WorkerConfig) (ks : List DurationKey)
      → duration_of getenv parse_duration k ≡ some d
      → IsAtLeast millisecond d
      → (any (same_duration l) (k ∷ ks) ≡ true) ⊎ IsGiven l c
      → (any (same_duration l) ks ≡ true) ⊎ IsGiven l (with_duration k d c)
  set_after k l d c ks found long h = elim (Bool-cases (same_duration l k)) [
    | inl e ↦ inr (rw (same_duration-eq l k e) (set_self k d c found long))
    | inr e ↦ elim h [
      | inl later ↦ inl (rw e at later)
      | inr before ↦ inr (rw (get-with_other k l d c e) before)
    ]
  ]

  load_durations_lem :
      (ks : List DurationKey) (c : WorkerConfig)
      → IsBegun c
      → ((k : DurationKey) → (any (same_duration k) ks ≡ true) ⊎ IsGiven k c)
      → IsJudged (load_durations getenv parse_duration ks c)
  unfolding load_durations
  load_durations_lem [] c begun set =
      check_rest_lem c begun (λ k. elim (set k) [ inl e ↦ cc | inr s ↦ s ])
  load_durations_lem (k ∷ ks) c begun set =
      elim (Option-cases (duration_of getenv parse_duration k)) [
        | inl e ↦
            rw e (λ valid. let (d, found, _) = valid.durations k in some-ne-none (sym found ∙ e))
        | inr (d, e) ↦ rw e (elim (Bool-cases (is_shorter d millisecond)) [
          | inl short ↦ rw short (λ valid.
              let (x, found, long) = valid.durations k in
              too_short d millisecond short (rw (same_value found e) at long))
          | inr fine ↦ rw fine (
              load_durations_lem ks (with_duration k d c) (IsBegun-with_duration k d c begun)
                (λ l. set_after k l d c ks e (long_enough d millisecond fine) (set l)))
        ])
      ]

  load_counted_lem :
      (order : List DurationKey) (o : Option ℤ)
      → o ≡ count_of
      → ((k : DurationKey) → any (same_duration k) order ≡ true)
      → IsJudged (load_counted getenv parse_duration order o)
  load_counted_lem order none e each =
      λ valid. let (m, found, _, _) = valid.counted in some-ne-none (sym (e ∙ found))
  load_counted_lem order (some n) e each = elim (Bool-cases (is_bad_count n)) [
    | inl bad ↦ rw bad (λ valid.
        let (m, found, low, high) = valid.counted in
        bad_count n bad (m, same_value (sym e) found, low, high))
    | inr good ↦
        let (m, count, low, high) = good_count n good in
        rw good (
          load_durations_lem order (first_config getenv parse_duration n)
            ((e, (m, ap some count, low, high)), refl, refl) (λ k. inl (each k)))
  ]

  -- `Load` accepts exactly the valid environments. It returns settings only where the environment
  -- has a number of workers from 1 to 100, durations of at least a millisecond, a lease of at least
  -- 30, and the addresses of Redis and MySQL, and they are those settings; it returns an error only
  -- where one of these is missing. So it does in whatever order Go ranges over the five durations.
  pub load_lem :
      (order : List DurationKey)
      → ((k : DurationKey) → any (same_duration k) order ≡ true)
      → IsJudged (load getenv parse_duration order)
  unfolding load
  load_lem order each = load_counted_lem order count_of refl each
