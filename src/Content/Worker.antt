-- ===== src/Content/Worker.antt =====
-- How a worker carries out a claimed task: `Worker.execute` and `executeTransaction` of
-- internal/event/worker.go, and the `TaskController` of internal/event/task.go, which finds the
-- handler. A panic is a value: `none`.
pub mod Controller
pub mod Pool
pub mod Runs
use lets_go.Prelude.{ℕ, Bool, Option, none, some, is_none, List, [], ◌∷◌, ◌==◌, ◌||◌, if◌then◌else◌}
use lets_go.Sql.{Session, Result, ok, err}
use lets_go.Content.Errors.{Text, Sentinel, Message, Error, errors_is, is_permanent}
use lets_go.Content.Tables.{Ident, Tables}
use lets_go.Content.Delivery.{Duration}
use lets_go.Content.Tasks.{TaskContext, ClaimedTask, Database, Handler, execute, schedule_retry}
use lets_go.Content.Tasks.Backoff.{second}

-- The returned error, or a panic, and the session that the handler leaves.
abbrev pub TaskHandler : Type 0
TaskHandler = TaskContext → Session Tables → Option (Result Error (Unit {0})) × Session Tables

abbrev pub TaskController : Type 0
TaskController = List (Ident × TaskHandler)

abbrev pub new_task_controller : TaskController
new_task_controller = []

-- `c.taskMap[name]`
abbrev pub find_handler : TaskController → Ident → Option TaskHandler
find_handler [] name = none
find_handler ((key, handler) ∷ more) name =
    let rest = find_handler more name in if key == name then some handler else rest

-- `Register`. The name 0 stands for the empty one, and no handler for one that is nil.
abbrev pub register : Ident → Option TaskHandler → TaskController → Result Error TaskController
register name none controller = err (Error.message Message.consumer_or_handler_missing)
register name (some handler) controller =
    if name == 0
    then err (Error.message Message.consumer_or_handler_missing)
    else if is_none (find_handler controller name)
    then ok ((name, handler) ∷ controller)
    else err (Error.message Message.handler_registered)

abbrev pub run_found : Option TaskHandler → TaskHandler
run_found none input s = (some (err (Error.message Message.handler_not_registered)), s)
run_found (some handler) input s = handler input s

-- `TaskController.Handle`
abbrev pub handle :
    TaskController
    → Option TaskContext
    → Session Tables
    → Option (Result Error (Unit {0})) × Session Tables
handle controller none s = (some (err (Error.permanent (Error.message Message.nil_task))), s)
handle controller (some input) s = run_found (find_handler controller input.consumer_name) input s

-- The deferred `recover` of the callback
abbrev pub recovered : Option (Result Error (Unit {0})) → Result Error (Unit {0})
recovered none = err (Error.permanent (Error.message Message.handler_panic))
recovered (some r) = r

abbrev pub guarded : TaskHandler → Handler
guarded handler input s = let (r, s') = handler input s in (recovered r, s')

-- `retryDelay`, as `NewWorker` sets it
abbrev pub retry_delay : Duration
retry_delay = second

module _ (db : Database) (decode_header : Text → Option ℕ) (describe : Error → Text)
    (jitter : ℕ → ℕ) (handler : TaskHandler) (task : ClaimedTask) where
  -- What follows the transaction: nothing, or the retry. Its own error is only logged.
  abbrev pub after_execute : Result Error (Unit {0}) × Session Tables → Session Tables
  after_execute (ok done, s) = s
  after_execute (err e, s) =
      let retried =
        (schedule_retry db describe jitter task (some e) retry_delay (is_permanent e) s).1 in
      if errors_is e Sentinel.claim_lost then s else retried

  -- `Worker.execute`, over a repository that does not panic
  unfoldable pub run_task : Session Tables → Session Tables
  run_task s = after_execute (execute db decode_header (guarded handler) task s)
