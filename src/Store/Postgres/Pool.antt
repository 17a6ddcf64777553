-- ===== src/Store/Postgres/Pool.antt =====
-- The pool of apps/api/internal/store/postgres/store.go. What pgx and the server decide by
-- themselves is a parameter.
use pf_media.Base.{Str, Bool, Option, none, some}
use pf_media.Domain.{Err, other, Time, Result, ok, err}
use pf_media.Domain.Json.{Json}
use pf_media.Exec.{Exec}
use pf_media.Store.Postgres.Rows.{
  Tables, Failure, pg_error, lost, Outcome, done, refused, Statement, select,
}

-- `before` is the error of a call that the server does not run, whatever the reason, and `after` that
-- of one that it has run, but whose answer does not arrive. `timestamptz` is the time that a column
-- keeps, `jsonb` the text that one gives back, `collation` the order of texts.
pub record Backend (C : Type 0) : Type 0 where
  pub before : C → Option Failure × C
  pub after : C → Option Failure × C
  pub now : C → Time
  pub timestamptz : Time → Time
  pub jsonb : Str → Str
  pub collation : Str → Str → Bool
  pub json : Json

-- The tables, and what the connections depend on.
pub record Db (C : Type 0) : Type 0 where
  pub tables : Tables
  pub link : C

-- Neither is an error of the package domain.
abbrev pub error_of : Failure → Err
error_of (pg_error code) = other code
error_of (lost message) = other message

abbrev pub result_of : {A : Type 0} → Outcome A → Result A
result_of (done a) = ok a
result_of (refused f) = err (error_of f)

module _ {C : Type 0} (backend : Backend C) where
  open backend use {before, after}

  unfoldable pub reply : {A : Type 0} → A → Option Failure → Outcome A
  reply a none = done a
  reply a (some f) = refused f

  abbrev pub finish : {A : Type 0} → Outcome (A × Tables) → Db C → Outcome A × Db C
  finish (refused f) s = (refused f, s)
  finish (done (a, t)) s =
      let (failure, link) = after s.link in (reply a failure, record { tables = t; link = link })

  abbrev pub send : {A : Type 0} → Option Failure → Statement A → Db C → Outcome A × Db C
  send (some f) statement s = (refused f, s)
  send none statement s = finish (statement s.tables) s

  -- One call of the pool: it may fail before the server has run it, or after.
  unfoldable pub run : {A : Type 0} → Statement A → Db C → Outcome A × Db C
  unfolding reply
  run statement s =
      let (failure, link) = before s.link in send failure statement (record s { link = link })

  -- The same with the error as a Go error.
  unfoldable pub query : {A : Type 0} → Statement A → Exec (Db C) A
  unfolding run
  query statement s = let (outcome, s') = run statement s in (result_of outcome, s')

  -- `defer tx.Rollback(ctx)`, whose error is ignored, and `return tx.Commit(ctx)`: until the commit
  -- the tables are as they were.
  abbrev pub close : {A : Type 0} → Tables → Result A → Exec (Db C) A
  close saved (err e) s = (err e, record { tables = saved; link = (before s.link).1 })
  close saved (ok a) s = query (λ _. done (a, s.tables)) (record s { tables = saved })

  abbrev pub begun : {A : Type 0} → Exec (Db C) A → Result Tables → Exec (Db C) A
  begun body (err e) s = (err e, s)
  begun body (ok saved) s = let (r, s') = body s in close saved r s'

  -- `s.pool.Begin(ctx)`, and what is done on the transaction.
  unfoldable pub transaction : {A : Type 0} → Exec (Db C) A → Exec (Db C) A
  unfolding query
  transaction body s = let (r, s') = query (select (λ t. t)) s in begun body r s'
