-- ===== src/Server/Startup.antt =====
-- The start of the application: `bootstrap` of api-service/src/server.ts up to `app.listen`, and the
-- pool of api-service/src/db/mysql.ts.
use scalequeue.Common.{
  [], ℕ, ◌≡◌, ◌≢◌, refl, sym, ap, ◌∙◌, ◌⊎◌, inl, inr, String, Bool, true, false, Option, none, some,
  Bool-cases, str_eq, eq_iff, ⊤,
}
use scalequeue.Session.{
  Session, Action, Result, ok, err, calm, next_fault, continue, get_connection, close_transaction,
}
use scalequeue.Session.Rules.{Fault-cases}
use scalequeue.Identity.{codes, decimal}
use scalequeue.Http.{Number, plus, parse_int}
use scalequeue.Http.Numbers.{parse_int-decimal}
use scalequeue.Config.{Environment, Config, config}

-- The options of `mysql.createPool`; `ssl` is whether a certificate is demanded.
pub record PoolOptions : Type 0 where
  pub host : String
  pub port : Number
  pub user : String
  pub password : String
  pub database : String
  pub wait_for_connections : Bool
  pub connection_limit : ℕ
  pub queue_limit : ℕ
  pub timezone : String
  pub ssl : Bool

-- `process.env.DB_SSL === 'true'`
abbrev pub is_true : Option String → Bool
is_true none = false
is_true (some s) = str_eq s "true"

abbrev pub pool_options : Option String → Config → PoolOptions
pool_options db_ssl c = record {
  host = c.db.host;
  port = c.db.port;
  user = c.db.user;
  password = c.db.password;
  database = c.db.name;
  wait_for_connections = true;
  connection_limit = 10;
  queue_limit = 0;
  timezone = "+00:00";
  ssl = is_true db_ssl;
}

-- `testConnection`
pub test_connection : Action ⊤
test_connection s = continue (get_connection s) (λ _ t. (ok tt, close_transaction t))

-- The server listens on a port, or the process has ended with a code.
pub data Started : Type 0 where
  listening : Number → Started
  exited : ℕ → Started

pub listen_or_exit : Number → Result ⊤ × Session → Started × Session
listen_or_exit port (ok _, s) = (listening port, s)
listen_or_exit port (err e, s) = (exited 1, s)

-- `bootstrap`, up to the handlers of the signals.
pub bootstrap : Config → Session → Started × Session
unfolding listen_or_exit test_connection
bootstrap c s = listen_or_exit c.port (test_connection s)

port_of :
    (env : Environment) (text : String) (n : ℕ)
    → env.port ≡ some text
    → codes text ≡ decimal n
    → (config env).port ≡ plus n
unfolding config parse_int
port_of env text n given digits = elim (Bool-cases (str_eq text "")) [
  | inl e ↦ absurd (
      empty_ne
        (sym (ap parse_int (sym digits ∙ ap codes ((eq_iff text "").0 e))) ∙ parse_int-decimal n))
  | inr e ↦ rw given (rw e (ap parse_int digits ∙ parse_int-decimal n))
]
  where
    empty_ne : parse_int [] ≡ plus n → ⊥
    empty_ne h = cc

-- The application listens on the port that PORT names in decimal digits where the database gives a
-- connection, and ends with the code 1 where it does not. The start changes nothing in the database.
pub bootstrap_lem :
    (env : Environment) (text : String) (n : ℕ) (s : Session)
    → env.port ≡ some text
    → codes text ≡ decimal n
    → let (r, t) = bootstrap (config env) s in
      (((next_fault s ≡ calm) × (r ≡ listening (plus n)))
        ⊎ ((next_fault s ≢ calm) × (r ≡ exited 1)))
      × (t.committed ≡ s.committed)
unfolding bootstrap listen_or_exit test_connection get_connection continue
bootstrap_lem env text n s given digits =
    let port = port_of env text n given digits in
    elim (Fault-cases (next_fault s)) [
      | inl e ↦ rw e (inl (refl, ap listening port), refl)
      | inr (inl e) ↦ rw e (inr ((λ q. cc), refl), refl)
      | inr (inr e) ↦ rw e (inr ((λ q. cc), refl), refl)
    ]
