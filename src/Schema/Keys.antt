-- ===== src/Schema/Keys.antt =====
-- The unique key of the outbox, dispatch_identity of
-- api-service/migrations/sqls/20261025000000-durable-delivery-up.sql.
use scalequeue.Common.{ℕ, ◌≡◌, refl, String, false, List, [], ◌∷◌, any, arith}
use scalequeue.Schema.{Outbox}
use scalequeue.Schema.Tables.{of_job, has_identity}

-- No identity of a job that has no row.
pub no_identity :
    (id : String) (g a : ℕ) (os : List Outbox)
    → any (of_job id) os ≡ false
    → any (has_identity id g a) os ≡ false
no_identity id g a [] h = refl
no_identity id g a (o ∷ os) h = ground (arith, no_identity id g a os)
