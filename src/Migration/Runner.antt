-- ===== src/Migration/Runner.antt =====
-- The migration runners, api-service/migrations/*.js. Reading a file and `db.runSql` are parameters;
-- `S` is the database that `runSql` changes.
pub mod Statements
use Prim.Native.String.{◌++◌ as str_append}
use scalequeue.Common.{
  ℕ, String, Bool, true, false, ◌&&◌, List, [], ◌∷◌, map, filter, ◌==◌, if◌then◌else◌, ⊤,
}
use scalequeue.Identity.{Text}
use scalequeue.Http.{is_space}

-- A promise that has settled.
pub data Settled (A : Type 0) : Type 0 where
  rejected : Text → Settled A
  resolved : A → Settled A

abbrev pub put_first : ℕ → List Text → List Text
put_first c [] = (c ∷ []) ∷ []
put_first c (t ∷ ts) = (c ∷ t) ∷ ts

-- `text.split(';')`
unfoldable pub split : Text → List Text
split [] = [] ∷ []
split (c ∷ s) = let parts = split s in if c == b';' then [] ∷ parts else put_first c parts

abbrev pub trim_start : Text → Text
trim_start [] = []
trim_start (c ∷ s) = if is_space c then trim_start s else c ∷ s

abbrev pub keep_or_drop : ℕ → Text → Text
keep_or_drop c [] = if is_space c then [] else c ∷ []
keep_or_drop c (d ∷ s) = c ∷ d ∷ s

abbrev pub trim_end : Text → Text
trim_end [] = []
trim_end (c ∷ s) = keep_or_drop c (trim_end s)

-- `text.trim()`
abbrev pub trim : Text → Text
trim s = trim_end (trim_start s)

abbrev pub is_nonempty : Text → Bool
is_nonempty [] = false
is_nonempty (c ∷ s) = true

-- `sql.split(';').map(x => x.trim()).filter(Boolean)`
unfoldable pub statements : Text → List Text
unfolding split
statements sql = filter is_nonempty (map trim (split sql))

module _ {S : Type 0} where
  -- `await`, which goes on unless the promise is rejected.
  abbrev pub and_then : {A B : Type 0} → Settled A × S → (A → S → Settled B × S) → Settled B × S
  and_then (rejected e, s) f = (rejected e, s)
  and_then (resolved a, s) f = f a s

  module _ (run_sql : Text → S → Settled ⊤ × S) where
    -- `for (const statement of …) await db.runSql(statement)`
    unfoldable pub run_each : List Text → S → Settled ⊤ × S
    run_each [] s = (resolved tt, s)
    run_each (t ∷ ts) s = and_then (run_sql t s) (λ _ r. run_each ts r)

  module _ (read_file : String → Settled Text) (run_sql : Text → S → Settled ⊤ × S) where
    -- The function of `exports.up` and `exports.down` in the older migrations; a file is the whole
    -- of what `runSql` gets.
    unfoldable pub migrate : String → S → Settled ⊤ × S
    migrate file s = and_then (read_file file, s) run_sql

    abbrev pub create_jobs_up : S → Settled ⊤ × S
    create_jobs_up s = migrate "20260221101036-create-jobs-table-up.sql" s

    abbrev pub create_jobs_down : S → Settled ⊤ × S
    create_jobs_down s = migrate "20260221101036-create-jobs-table-down.sql" s

    abbrev pub create_logs_up : S → Settled ⊤ × S
    create_logs_up s = migrate "20260221102110-create-jobs-audit-log-table-up.sql" s

    abbrev pub create_logs_down : S → Settled ⊤ × S
    create_logs_down s = migrate "20260221102110-create-jobs-audit-log-table-down.sql" s

    abbrev pub create_clients_up : S → Settled ⊤ × S
    create_clients_up s = migrate "20260221102235-create-api-clients-table-up.sql" s

    abbrev pub create_clients_down : S → Settled ⊤ × S
    create_clients_down s = migrate "20260221102235-create-api-clients-table-down.sql" s

    -- `apply` of 20261025000000-durable-delivery.js
    unfoldable pub apply : String → S → Settled ⊤ × S
    unfolding statements run_each
    apply direction s =
        and_then
          (
            read_file (str_append "20261025000000-durable-delivery-" (str_append direction ".sql")),
            s,
          )
          (λ sql r. run_each run_sql (statements sql) r)
