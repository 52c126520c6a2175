-- ===== src/Content/Worker/Runs.antt =====
-- What one run of a worker on a claimed task does to the tables.
use lets_go.Prelude.{ℕ, ◌≡◌, refl, inl, inr, false, Option, none, some, Bool-cases}
use lets_go.Sql.{Session, Result, ok, err}
use lets_go.Sql.Outcome.{Outcome}
use lets_go.Content.Errors.{error_driver, Text, Sentinel, Error, errors_is, is_permanent}
use lets_go.Content.Tables.{Tables}
use lets_go.Content.Delivery.Valid.{IsValid}
use lets_go.Content.Tasks.{
  TaskContext, ClaimedTask, Database, execute, schedule_retry, settle_result, context_of,
}
use lets_go.Content.Tasks.Execute.{Execution, ExecuteError, execute-Outcome}
use lets_go.Content.Tasks.Retry.{Rescheduled, LateClaim, retry-Outcome}
use lets_go.Content.Tasks.Rules.{Outcome-never}
use lets_go.Content.Tasks.Stored.{schedule_retry-Stored}
use lets_go.Content.Worker.{TaskHandler, guarded, retry_delay, after_execute, run_task}

module _ (db : Database) (decode_header : Text → Option ℕ) (describe : Error → Text)
    (jitter : ℕ → ℕ) (handler : TaskHandler) (task : ClaimedTask) where
  -- The three ways a run ends.
  pub data Worked (before after : Tables) : Type 0 where
    committed : Execution decode_header (guarded handler) task before after → Worked before after
    unchanged : after ≡ before → Worked before after
    retried :
        (e : Error)
        → ExecuteError (guarded handler) e
        → errors_is e Sentinel.claim_lost ≡ false
        → Rescheduled describe jitter task (some e) retry_delay (is_permanent e) before after
        → Worked before after

  retry-Worked :
      (e : Error) (before : Tables) (r : Result Error (Unit {0}) × Session Tables)
      → ExecuteError (guarded handler) e
      → errors_is e Sentinel.claim_lost ≡ false
      → Outcome
          (λ _ t. Rescheduled describe jitter task (some e) retry_delay (is_permanent e) before t)
          LateClaim
          before
          r
      → Worked before r.1.tables
  retry-Worked e before (ok done, s) known kept o = retried e known kept o
  retry-Worked e before (err x, s) known kept o = elim o.1 [
    | inl same ↦ unchanged same
    | inr (lost, (done, stored)) ↦ retried e known kept stored
  ]

  after_execute-Worked :
      (before : Tables) (r : Result Error (Unit {0}) × Session Tables)
      → IsValid before.deliveries
      → Outcome
          (λ _ t. Execution decode_header (guarded handler) task before t)
          (ExecuteError (guarded handler))
          before
          r
      → Worked before (after_execute db decode_header describe jitter handler task r).tables
  after_execute-Worked before (ok done, s) v o = committed o
  after_execute-Worked before (err e, s) v (known, inl same) =
      elim (Bool-cases (errors_is e Sentinel.claim_lost)) [
        | inl lost ↦ rw lost (unchanged same)
        | inr kept ↦ rw kept (
            retry-Worked e before
              (schedule_retry db describe jitter task (some e) retry_delay (is_permanent e) s) known
              kept
              (rw (← same) (
                retry-Outcome db describe jitter task (some e) retry_delay (is_permanent e) s
                  (rw same v))))
      ]
  after_execute-Worked before (err e, s) v (known, inr (driver, (done, x))) =
      elim (Bool-cases (errors_is e Sentinel.claim_lost)) [
        | inl lost ↦ rw lost (committed x)
        | inr kept ↦
            let same =
              Outcome-never LateClaim s.tables
                (schedule_retry db describe jitter task (some e) retry_delay (is_permanent e) s)
                (schedule_retry-Stored describe jitter task (some e) retry_delay (is_permanent e) db
                  decode_header (guarded handler) before s x) in
            rw kept (committed (rw (← same) at x))
      ]

  -- On a valid table a run of a worker ends in one of three ways: the handler's work is committed
  -- with the final status, also where the answer of that commit was lost; or nothing is changed; or
  -- `Execute` has failed with an error that is not `ErrClaimLost`, one that it may return, nothing
  -- of the handler's work is kept, and the row of the task is failed, where that error is permanent
  -- or no attempts are left, and else pending again after the backoff from one second.
  pub run_task-Worked :
      (s : Session Tables)
      → IsValid s.tables.deliveries
      → Worked s.tables (run_task db decode_header describe jitter handler task s).tables
  unfolding run_task
  run_task-Worked s v =
      after_execute-Worked s.tables (execute db decode_header (guarded handler) task s) v
        (execute-Outcome db decode_header (guarded handler) task s)

  -- A handler that always panics.
  abbrev pub Panics : TaskHandler → Type 0
  Panics h = (input : TaskContext) (s : Session Tables) → (h input s).0 ≡ none

  panic_never_settles :
      (input : TaskContext) (s finish : Session Tables) (status : ℕ)
      → Panics handler
      → settle_result (guarded handler input s) ≡ (ok status, finish)
      → ⊥
  unfolding errors_is
  panic_never_settles input s finish status panics h = let h' = rw (panics input s) at h in cc

  -- A run whose handler always panics keeps nothing of what the handler wrote: on a valid table no
  -- table but the deliveries is changed, and the constraints of the deliveries are kept.
  pub run_task-Panics :
      (s : Session Tables)
      → IsValid s.tables.deliveries
      → Panics handler
      → ((run_task db decode_header describe jitter handler task s).tables ≡ record s.tables {
        deliveries = (run_task db decode_header describe jitter handler task s).tables.deliveries;
      })
        × IsValid (run_task db decode_header describe jitter handler task s).tables.deliveries
  run_task-Panics s v panics = elim (run_task-Worked s v) [
    | committed x ↦
        elim (panic_never_settles (context_of task x.source x.version) x.start x.finish x.status
          panics x.settled) [ ]
    | unchanged same ↦ rw same (refl, v)
    | retried e known kept h ↦ (h.changed.frame, h.changed.valid v)
  ]
