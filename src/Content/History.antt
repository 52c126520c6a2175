-- ===== src/Content/History.antt =====
-- Histories of the task tables: any calls of the repositories (internal/respository/task.go and
-- dispatch.go), one transaction after another, with any arguments, at any times.
pub mod Safe
pub mod Steps
pub mod Once
use lets_go.Prelude.{ℕ, ◌≡◌, Bool, Option, some, List}
use lets_go.Sql.{Moment, Session, Result, ok, err}
use lets_go.Content.Errors.{Text, Error}
use lets_go.Content.Tables.{Ident, Time, Delivery, OutboxEvent, Tables}
use lets_go.Content.Delivery.{Duration}
use lets_go.Content.Tasks.{
  TaskContext, ClaimedTask, Database, Handler, claim, execute, schedule_retry, recover_expired,
}
use lets_go.Content.Dispatch.{Resolver, fan_out}

pub data Call : Type 0 where
  claims : (ℕ → Ident) → (Delivery → Bool) → ℕ → Duration → Call
  executes : (Text → Option ℕ) → Handler → ClaimedTask → Call
  retries : (Error → Text) → (ℕ → ℕ) → ClaimedTask → Option Error → Duration → Bool → Call
  recovers : (Delivery → Bool) → ℕ → Call
  fans_out : (OutboxEvent → Bool) → ℕ → Resolver → Call

-- The state after a call, whatever it returned.
unfoldable pub perform : Database → Call → Session Tables → Session Tables
unfolding claim execute schedule_retry recover_expired fan_out
perform db (Call.claims tokens skip limit lease) s = (claim db tokens skip limit lease s).1
perform db (Call.executes decode_header apply task) s = (execute db decode_header apply task s).1
perform db (Call.retries describe jitter task cause base is_permanent) s =
    (schedule_retry db describe jitter task cause base is_permanent s).1
perform db (Call.recovers skip limit) s = (recover_expired db skip limit s).1
perform db (Call.fans_out skip limit resolver) s = (fan_out db skip limit (some resolver) s).1

-- A handler of the program writes its own tables only, and not the deliveries.
abbrev pub IsApart : Handler → Type 0
IsApart apply =
    (input : TaskContext) (s : Session Tables)
    → (apply input s).1.tables.deliveries ≡ s.tables.deliveries

abbrev pub IsAllowed : Call → Type 0
IsAllowed (Call.claims tokens skip limit lease) = Unit
IsAllowed (Call.executes decode_header apply task) = IsApart apply
IsAllowed (Call.retries describe jitter task cause base is_permanent) = Unit
IsAllowed (Call.recovers skip limit) = Unit
IsAllowed (Call.fans_out skip limit resolver) = Unit

-- `u` comes of `t` by calls. Between them any time passes, and each meets its own faults.
pub data Reached (db : Database) (t : Tables) : Tables → Type 0 where
  start : Reached db t t
  next :
      (u : Tables) (c : Call) (now : Time) (script : List Moment)
      → Reached db t u
      → IsAllowed c
      → Reached db t (perform db c (record { tables = u; now = now; script = script })).tables
