-- ===== src/Session.antt =====
-- A connection to MySQL as api-service/src/services/jobService.ts uses it (pool.getConnection,
-- beginTransaction, execute, commit, rollback, release), under every schedule of faults.
--
-- A session has the committed database, the view of its open transaction, the clock and the events
-- to come, one for each round trip to the server. A round trip can fail before the server acts or
-- after it; the caller sees the same error. Transactions of several sessions are taken to be
-- serialised, by the row lock of SELECT … FOR UPDATE and the unique keys.
pub mod Rules
pub mod Autocommit
pub mod Calm
pub mod Timely
pub mod Instants
use scalequeue.Common.{ℕ, ◌+◌, String, Option, none, some, List, [], ◌∷◌, ⊤}
use scalequeue.Schema.{Db}
use scalequeue.Schema.Tables.{SqlCode, other, Reply, done, refused}

pub data Fault : Type 0 where
  calm lost_request lost_reply : Fault

pub record Event : Type 0 where
  pub delay : ℕ
  pub fault : Fault

pub record Session : Type 0 where
  pub committed : Db
  pub working : Option Db
  pub clock : ℕ
  pub events : List Event

-- What a `throw` carries: the driver's error with its code, or an `Error` with a message.
pub data Error : Type 0 where
  sql : SqlCode → Error
  message : String → Error

pub data Result (A : Type 0) : Type 0 where
  ok : A → Result A
  err : Error → Result A

abbrev pub Action : Type 0 → Type 0
Action A = Session → Result A × Session

module _ {A : Type 0} where
  abbrev pub pure : A → Action A
  pure a s = (ok a, s)

  abbrev pub throw : Error → Action A
  throw e s = (err e, s)

module _ {A B : Type 0} where
  unfoldable pub continue : Result A × Session → (A → Action B) → Result B × Session
  continue (ok a, s) f = f a s
  continue (err e, s) f = (err e, s)

  infixl 5 ◌>>=◌ ◌>>◌
  abbrev pub ◌>>=◌ : Action A → (A → Action B) → Action B
  ◌>>=◌ m f s = continue (m s) f

  abbrev pub ◌>>◌ : Action A → Action B → Action B
  m >> k = m >>= λ _. k

module _ {A : Type 0} where
  unfoldable pub recover : Result A × Session → (Error → Action A) → Result A × Session
  recover (ok a, s) h = (ok a, s)
  recover (err e, s) h = h e s

  -- try { m } catch (e) { h e }
  abbrev pub catch : Action A → (Error → Action A) → Action A
  catch m h s = recover (m s) h

abbrev pub next_event : List Event → Event
next_event [] = record { delay = 0; fault = calm }
next_event (e ∷ es) = e

abbrev pub rest_events : List Event → List Event
rest_events [] = []
rest_events (e ∷ es) = es

-- The time passes before the server acts.
abbrev pub tick : Session → Session
tick s = record s { clock = s.clock + (next_event s.events).delay; events = rest_events s.events }

abbrev pub next_fault : Session → Fault
next_fault s = (next_event s.events).fault

-- What the statement sees: the open transaction's view, or, without one, the database.
abbrev pub view : Session → Db
view s = elim s.working [ none ↦ s.committed | some d ↦ d ]

-- A statement outside a transaction commits at once.
abbrev pub put : Db → Session → Session
put d s = elim s.working [
  | none ↦ record s { committed = d }
  | some _ ↦ record s { working = some d }
]

unfoldable pub settle : {A : Type 0} → Fault → Reply (A × Db) → Session → Result A × Session
settle lost_request r s = (err (sql other), s)
settle calm (done (a, d)) s = (ok a, put d s)
settle calm (refused c) s = (err (sql c), s)
settle lost_reply (done (a, d)) s = (err (sql other), put d s)
settle lost_reply (refused c) s = (err (sql other), s)

-- conn.execute of a statement that reads the clock and the tables.
unfoldable pub statement : {A : Type 0} → (ℕ → Db → Reply (A × Db)) → Action A
unfolding settle
statement f s = let t = tick s in settle (next_fault s) (f t.clock (view t)) t

abbrev pub with_unit : Reply Db → Reply (⊤ × Db)
with_unit (done d) = done (tt, d)
with_unit (refused c) = refused c

-- INSERT, UPDATE
abbrev pub execute : (ℕ → Db → Reply Db) → Action ⊤
execute f = statement (λ now d. with_unit (f now d))

-- SELECT
abbrev pub query : {A : Type 0} → (Db → A) → Action A
query f = statement (λ _ d. done (f d, d))

reply_of : Fault → Session → Result ⊤ × Session
reply_of calm s = (ok tt, s)
reply_of lost_request s = (err (sql other), s)
reply_of lost_reply s = (err (sql other), s)

-- pool.getConnection: no statement of ours is pending on a fresh connection.
unfoldable pub get_connection : Action ⊤
unfolding reply_of
get_connection s = reply_of (next_fault s) (tick s)

abbrev open_transaction : Session → Session
open_transaction s = record s { working = some s.committed }

abbrev pub close_transaction : Session → Session
close_transaction s = record s { working = none }

abbrev publish : Session → Session
publish s = record s { committed = view s; working = none }

begin_with : Fault → Session → Result ⊤ × Session
begin_with calm s = (ok tt, open_transaction s)
begin_with lost_request s = (err (sql other), s)
begin_with lost_reply s = (err (sql other), open_transaction s)

unfoldable pub begin_transaction : Action ⊤
unfolding begin_with
begin_transaction s = begin_with (next_fault s) (tick s)

commit_with : Fault → Session → Result ⊤ × Session
commit_with calm s = (ok tt, publish s)
commit_with lost_request s = (err (sql other), s)
commit_with lost_reply s = (err (sql other), publish s)

-- A commit whose reply is lost has taken effect.
unfoldable pub commit : Action ⊤
unfolding commit_with
commit s = commit_with (next_fault s) (tick s)

-- A rollback that fails means a lost connection, whose transaction the server rolls back.
unfoldable pub rollback : Action ⊤
unfolding reply_of
rollback s = reply_of (next_fault s) (close_transaction (tick s))

-- finally { conn.release() }
unfoldable pub releasing : {A : Type 0} → Result A × Session → Result A × Session
releasing (r, s) = (r, close_transaction s)
