-- ===== src/Content/Tasks/Stored.antt =====
-- A task whose `Execute` was stored, its answer lost, is not scheduled again
-- (internal/respository/task.go; contentServer/docs/worker.md on commits of uncertain outcome).
use lets_go.Prelude.{ℕ, ◌≡◌, refl, ◌⊎◌, inl, inr, Bool, ◌&&◌, Option, none, List, [], ◌∷◌, arith}
use lets_go.Sql.{Session}
use lets_go.Sql.Table.{find_row, update_where}
use lets_go.Sql.Outcome.{Holds, Outcome, bind-Holds, call_then, transact-Outcome}
use lets_go.Content.Errors.{error_driver, Text, Sentinel, Error, errors_is}
use lets_go.Content.Tables.{Ident, Time, Delivery, Tables, delivery_key}
use lets_go.Content.Delivery.{
  Duration, has_claim, terminal, find_retry_state, lift_result, or_not_found,
}
use lets_go.Content.Tasks.{
  ClaimedTask, Database, Handler, lock_retry, reschedule, retry_body, schedule_retry,
}
use lets_go.Content.Tasks.Execute.{Execution}
use lets_go.Content.Tasks.Retry.{LateClaim}
use lets_go.Content.Tasks.Rules.{replace_error-Holds}

-- A final status ends every claim of the key under the token.
no_claim_left :
    (e c token : Ident) (status : ℕ) (cause : Text) (now : Time) (rows : List Delivery)
    → find_row
        (λ r. delivery_key e c r && has_claim token r)
        (update_where
          (λ r. delivery_key e c r && has_claim token r)
          (terminal status cause now)
          rows)
      ≡ none
no_claim_left e c token status cause now [] = refl
no_claim_left e c token status cause now (r ∷ rows) =
    ground (arith, no_claim_left e c token status cause now rows)

module _ (describe : Error → Text) (jitter : ℕ → ℕ) (task : ClaimedTask) (cause : Option Error)
    (base : Duration) (is_permanent : Bool) where
  abbrev mine : Delivery → Bool
  mine r = delivery_key task.event_id task.consumer_name r && has_claim task.claim_token r

  lock-missing :
      (s : Session Tables)
      → find_row mine s.tables.deliveries ≡ none
      → Holds (λ _ s'. ⊥) LateClaim (lock_retry task s)
  unfolding find_retry_state errors_is
  lock-missing s missing =
      replace_error-Holds Sentinel.not_found (Error.sentinel Sentinel.claim_lost)
        (find_retry_state task.event_id task.consumer_name task.claim_token) (λ _ s'. ⊥)
        (λ x. (x ≡ Error.driver) ⊎ (x ≡ Error.sentinel Sentinel.not_found)) LateClaim s
        (λ x e. elim e [ inl d ↦ rw d (inr refl) | inr n ↦ rw n (inl refl) ])
        (call_then _ Error.driver _ (λ found. lift_result (or_not_found found)) (λ _ s'. ⊥) s
          (inl refl) λ now ms later. rw missing (inr refl))

  -- On the tables that `Execute` has stored for a task, as after a commit whose answer was lost,
  -- `ScheduleRetry` for that task never commits, whatever the handler did: it returns
  -- `ErrClaimLost` or the driver's error and leaves every table as it is.
  pub schedule_retry-Stored :
      (db : Database) (decode_header : Text → Option ℕ) (apply : Handler) (before : Tables)
      (s : Session Tables)
      → Execution decode_header apply task before s.tables
      → Outcome
          (λ _ t. ⊥)
          LateClaim
          s.tables
          (schedule_retry db describe jitter task cause base is_permanent s)
  unfolding schedule_retry retry_body
  schedule_retry-Stored db decode_header apply before s x =
      transact-Outcome db (λ _ t. ⊥) LateClaim
        (retry_body describe jitter task cause base is_permanent) s (inr refl)
        (bind-Holds LateClaim (lock_retry task)
          (reschedule describe jitter task cause base is_permanent) (λ _ s'. ⊥) (λ _ s'. ⊥) s
          (lock-missing s (
            rw x.stored (
              no_claim_left task.event_id task.consumer_name task.claim_token x.status [] x.now
                x.finish.tables.deliveries)))
          λ r s' never. elim never [ ])
