-- ===== src/Tests/Upgrade.antt =====
-- The upgrade's theorems at concrete inputs.
use scalequeue.Common.{
  ℕ, ◌≡◌, refl, String, none, List, [], ◌∷◌, ◌++◌, map, ⊤, arith, if◌then◌else◌, str_eq,
}
use scalequeue.Json.{obj}
use scalequeue.Schema.{JobStatus, Db}
use scalequeue.Schema.Tables.{done}
use scalequeue.Identity.{Text, codes}
use scalequeue.Delivery.{IsSound}
use scalequeue.Migration.{OldJob, OldDb, Instants, upgrade}
use scalequeue.Migration.Inserting.{intent_of}
use scalequeue.Migration.Rows.{used_attempts, resumed, columns_of, intent_wanted, unfinished_jobs}
use scalequeue.Migration.Upgrade.{upgrade_lem, upgrade-IsSound}
use scalequeue.Migration.Runner.{Settled, rejected, resolved, apply}
use scalequeue.Migration.Runner.Statements.{script, Runs, apply-script}
use scalequeue.Tests.Data.{mail}

abbrev old_job : String → JobStatus → ℕ → OldJob
old_job id status retries = record {
  id = id;
  type = "send_email";
  payload = obj mail;
  status = status;
  retry_count = retries;
  max_retries = 3;
  priority = 5;
  created_at = 1;
  updated_at = 1;
  processed_at = none;
  error_msg = none;
}

abbrev old : OldDb
old = record {
  jobs =
      old_job "a" JobStatus.pending 2
      ∷ old_job "b" JobStatus.processing 1
      ∷ old_job "c" JobStatus.completed 0
      ∷ [];
  logs = [];
  clients = [];
  next_log = 1;
}

abbrev times : Instants
times = record { altered = 1; kept = 2; inserted = 3; released = 4 }

upgrade_lem_example :
    (e : Db) × (upgrade times old ≡ done e)
    × (map columns_of e.jobs ≡ map (λ j. (j.id, resumed j.status, used_attempts j, 1)) old.jobs)
    × (map intent_of e.outbox ≡ map intent_wanted (unfinished_jobs old.jobs))
upgrade_lem_example = upgrade_lem times old ((refl, (refl, tt)), ((refl, tt), (tt, tt)))

upgrade-IsSound_example : (e : Db) × (upgrade times old ≡ done e) × IsSound e
upgrade-IsSound_example = upgrade-IsSound times old (record {
  distinct = ((refl, (refl, tt)), ((refl, tt), (tt, tt)));
  unfailed = ((λ e. cc), ((λ e. cc), ((λ e. cc), tt)));
  budgeted = (omega arith, (omega arith, (omega arith, tt)));
})

abbrev two_statements : List Text
two_statements = codes "UPDATE a" ∷ codes "UPDATE b" ∷ []

-- A directory with one file, and a database that keeps what it runs.
abbrev one_file : String → Settled Text
one_file name =
    if str_eq name "20261025000000-durable-delivery-up.sql"
    then resolved (script two_statements)
    else rejected (codes "ENOENT")

abbrev record_sql : Text → List Text → Settled ⊤ × List Text
record_sql t ts = (resolved tt, ts ++ t ∷ [])

apply-script_example : Runs record_sql two_statements [] (apply one_file record_sql "up" [])
apply-script_example =
    apply-script one_file record_sql "up" two_statements []
      ((refl, refl, refl), ((refl, refl, refl), tt)) refl
