-- ===== src/Content/Tasks/Execute.antt =====
-- `Execute` (internal/respository/task.go): only the holder of a live claim runs the handler, and
-- the handler's writes commit with the delivery's final status or not at all.
use lets_go.Prelude.{
  ℕ, ◌≤◌, ◌≡◌, refl, ◌∙◌, ◌⊎◌, inl, inr, Bool, true, false, ◌&&◌, Option, none, some, List, [],
  arith, ◌==◌, Bool-cases,
}
use lets_go.Sql.{Session, Result, ok, err}
use lets_go.Sql.Table.{find_row, update_where, affected}
use lets_go.Sql.Outcome.{Holds, Outcome, bind-Holds, transact-Outcome, Holds-mono}
use lets_go.Content.Errors.{error_driver, Text, Sentinel, Message, Error, errors_is}
use lets_go.Content.Tables.{Time, Delivery, OutboxEvent, Tables, delivery_key}
use lets_go.Content.Delivery.{has_claim, lease_valid, terminal}
use lets_go.Content.Tasks.{
  ClaimedTask, TaskContext, Database, Handler, settle_result, settle_status, finish_task,
  run_handler, context_of, find_event, run_decoded, run_event, claim_is_lost, run_claimed,
  lock_claim, execute_body, execute,
}
use lets_go.Content.Tasks.Settle.{
  Locked, lock_claim-Holds, find_event-Holds, Finished, finish_task-Holds,
}

-- Nobody may run this task: its row is gone, is no longer processed under the task's token, or the
-- lease is over.
abbrev pub Stale : Time → List Delivery → ClaimedTask → Type 0
Stale now rows task =
    (find_row (delivery_key task.event_id task.consumer_name) rows ≡ none)
    ⊎ ((r : Delivery) × (find_row (delivery_key task.event_id task.consumer_name) rows ≡ some r)
        × ((has_claim task.claim_token r ≡ false) ⊎ (lease_valid now r ≡ false)))

-- How a committed execution came about: the claim was held, the handler ran on the tables of the
-- start and was settled as `status`, and that status was stored in what the handler left.
pub record Execution (decode_header : Text → Option ℕ) (apply : Handler) (task : ClaimedTask)
    (before after : Tables) : Type 0 where
  pub row : Delivery
  pub held : find_row (delivery_key task.event_id task.consumer_name) before.deliveries ≡ some row
  pub claimed : has_claim task.claim_token row ≡ true
  pub source : OutboxEvent
  pub version : ℕ
  pub event :
      find_row (λ (r : OutboxEvent). r.event_id == task.event_id) before.outbox ≡ some source
  pub header : decode_header source.payload_json ≡ some version
  pub start : Session Tables
  pub finish : Session Tables
  pub status : ℕ
  pub from : start.tables ≡ before
  pub settled : settle_status apply (context_of task source version) start ≡ (ok status, finish)
  pub now : Time
  pub one :
      affected
        (λ r. delivery_key task.event_id task.consumer_name r && has_claim task.claim_token r)
        finish.tables.deliveries
      ≡ 1
  pub stored : after ≡ record finish.tables {
    deliveries =
        update_where
          (λ r. delivery_key task.event_id task.consumer_name r && has_claim task.claim_token r)
          (terminal status [] now)
          finish.tables.deliveries;
  }

-- The errors that a call of `Execute` may return, beside those of the handler.
pub data ExecuteError (apply : Handler) (e : Error) : Type 0 where
  lost : e ≡ Error.sentinel Sentinel.claim_lost → ExecuteError apply e
  refused : e ≡ Error.driver → ExecuteError apply e
  cancelled : e ≡ Error.context_done → ExecuteError apply e
  no_event : e ≡ Error.sentinel Sentinel.not_found → ExecuteError apply e
  no_header : e ≡ Error.permanent (Error.message Message.decode_header) → ExecuteError apply e
  handler :
      (input : TaskContext) (s s' : Session Tables)
      → apply input s ≡ (err e, s')
      → ExecuteError apply e

module _ (decode_header : Text → Option ℕ) (apply : Handler) (task : ClaimedTask) where
  settled-Holds :
      (input : TaskContext) (s : Session Tables) (r : Result Error (Unit {0}) × Session Tables)
      → apply input s ≡ r
      → Holds
          (λ status finish. settle_result r ≡ (ok status, finish))
          (ExecuteError apply)
          (settle_result r)
  settled-Holds input s (ok a, s1) e = refl
  settled-Holds input s (err x, s1) e = elim (Bool-cases (errors_is x Sentinel.superseded)) [
    | inl over ↦ rw over refl
    | inr other ↦ rw other (handler input s s1 e)
  ]

  abbrev Handled : TaskContext → Session Tables → Session Tables → Type 0
  Handled input s s' =
      (status : ℕ) × (finish : Session Tables) × (settle_status apply input s ≡ (ok status, finish))
      × Finished task status finish s'

  run_handler-Holds :
      (input : TaskContext) (s : Session Tables)
      → Holds (λ _ s'. Handled input s s') (ExecuteError apply) (run_handler apply task input s)
  unfolding run_handler
  run_handler-Holds input s =
      bind-Holds (ExecuteError apply) (settle_status apply input) (finish_task task)
        (λ status finish. settle_status apply input s ≡ (ok status, finish))
        (λ _ s'. Handled input s s') s (settled-Holds input s (apply input s) refl)
        λ status finish e.
          Holds-mono (λ _ s'. Finished task status finish s') (λ _ s'. Handled input s s')
            (ExecuteError apply) (ExecuteError apply) (finish_task task status finish)
            (λ _ s' h. (status, finish, e, h)) (λ x r. r)
            (finish_task-Holds (ExecuteError apply) task status finish (refused refl)
              (cancelled refl) (lost refl))

  run_event-Holds :
      (row : Delivery) (source : OutboxEvent) (before : Tables) (s : Session Tables)
      → find_row (delivery_key task.event_id task.consumer_name) before.deliveries ≡ some row
      → has_claim task.claim_token row ≡ true
      → find_row (λ (r : OutboxEvent). r.event_id == task.event_id) before.outbox ≡ some source
      → s.tables ≡ before
      → Holds
          (λ _ s'. Execution decode_header apply task before s'.tables)
          (ExecuteError apply)
          (run_event decode_header apply task source s)
  unfolding run_event
  run_event-Holds row source before s held claimed event same =
      go (decode_header source.payload_json) refl
    where
      go :
          (header : Option ℕ)
          → decode_header source.payload_json ≡ header
          → Holds
              (λ _ s'. Execution decode_header apply task before s'.tables)
              (ExecuteError apply)
              (run_decoded apply task source header s)
      go none e = no_header refl
      go (some version) e =
          Holds-mono (λ _ s'. Handled (context_of task source version) s s')
            (λ _ s'. Execution decode_header apply task before s'.tables) (ExecuteError apply)
            (ExecuteError apply) (run_handler apply task (context_of task source version) s)
            (λ _ s' (status, finish, settled, (now, one, stored)). record {
              row = row;
              held = held;
              claimed = claimed;
              source = source;
              version = version;
              event = event;
              header = e;
              start = s;
              finish = finish;
              status = status;
              from = same;
              settled = settled;
              now = now;
              one = one;
              stored = stored;
            })
            (λ x r. r) (run_handler-Holds (context_of task source version) s)

  run_claimed-Holds :
      (row : Delivery) (valid : Bool) (before : Tables) (s : Session Tables)
      → find_row (delivery_key task.event_id task.consumer_name) before.deliveries ≡ some row
      → s.tables ≡ before
      → Holds
          (λ _ s'. Execution decode_header apply task before s'.tables)
          (ExecuteError apply)
          (run_claimed decode_header apply task (row, valid) s)
  unfolding run_claimed
  run_claimed-Holds row valid before s held same =
      elim (Bool-cases (claim_is_lost task row valid)) [
        | inl gone ↦ rw gone (lost refl)
        | inr mine ↦ rw mine (
            bind-Holds (ExecuteError apply) (find_event task.event_id)
              (run_event decode_header apply task)
              (λ source s'.
                (s'.tables ≡ s.tables)
                × (find_row (λ (r : OutboxEvent). r.event_id == task.event_id) s.tables.outbox
                    ≡ some source))
              (λ _ s'. Execution decode_header apply task before s'.tables) s
              (find_event-Holds (ExecuteError apply) task.event_id s (refused refl) (no_event refl))
              λ source s' (kept, event).
                run_event-Holds row source before s' held (ground arith) (rw (← same) event)
                  (kept ∙ same))
      ]

pub execute-Outcome :
    (db : Database) (decode_header : Text → Option ℕ) (apply : Handler) (task : ClaimedTask)
    (s : Session Tables)
    → Outcome
        (λ _ t. Execution decode_header apply task s.tables t)
        (ExecuteError apply)
        s.tables
        (execute db decode_header apply task s)
unfolding execute execute_body
execute-Outcome db decode_header apply task s =
    transact-Outcome db (λ _ t. Execution decode_header apply task s.tables t) (ExecuteError apply)
      (execute_body decode_header apply task) s (refused refl)
      (bind-Holds (ExecuteError apply) (lock_claim task) (run_claimed decode_header apply task)
        (Locked task s) (λ _ s'. Execution decode_header apply task s.tables s'.tables) s
        (lock_claim-Holds (ExecuteError apply) task s (refused refl) (lost refl))
        λ (row, valid) s' (kept, held, _).
          run_claimed-Holds decode_header apply task row valid s.tables s' held kept)

-- Where the row of the task is missing, is not processed under the task's token, or has a lease
-- that is over, `Execute` never commits: it returns `ErrClaimLost` or the driver's error and leaves
-- every table as it was, whatever the handler is.
pub execute-Stale :
    (db : Database) (decode_header : Text → Option ℕ) (apply : Handler) (task : ClaimedTask)
    (s : Session Tables)
    → Stale s.now s.tables.deliveries task
    → Outcome
        (λ _ t. ⊥)
        (λ e. (e ≡ Error.sentinel Sentinel.claim_lost) ⊎ (e ≡ Error.driver))
        s.tables
        (execute db decode_header apply task s)
unfolding execute execute_body
execute-Stale db decode_header apply task s stale =
    transact-Outcome db (λ _ t. ⊥) Late (execute_body decode_header apply task) s (inr refl)
      (bind-Holds Late (lock_claim task) (run_claimed decode_header apply task) (Locked task s)
        (λ _ s'. ⊥) s (lock_claim-Holds Late task s (inr refl) (inl refl))
        λ (row, valid) s' (kept, held, (now, later, v)).
          rw (gone row valid now held later v) (inl refl))
  where
    Late : Error → Type 0
    Late e = (e ≡ Error.sentinel Sentinel.claim_lost) ⊎ (e ≡ Error.driver)

    gone :
        (row : Delivery) (valid : Bool) (now : Time)
        → find_row (delivery_key task.event_id task.consumer_name) s.tables.deliveries ≡ some row
        → s.now ≤ now
        → valid ≡ lease_valid now row
        → claim_is_lost task row valid ≡ true
    gone row valid now held later v = ground arith
