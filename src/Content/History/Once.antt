-- ===== src/Content/History/Once.antt =====
-- A handler takes effect at most once for a delivery.
use lets_go.Prelude.{ℕ, ◌≡◌, refl, ◌∙◌, ◌⊎◌, inl, inr, Option, some, [], arith}
use lets_go.Sql.{Session, ok}
use lets_go.Sql.Table.{find_row, find-update_same}
use lets_go.Sql.Outcome.{Outcome}
use lets_go.Content.Errors.{error_driver, Text, Sentinel, Error}
use lets_go.Content.Tables.{Delivery, Tables, delivery_key}
use lets_go.Content.Delivery.{has_claim, terminal}
use lets_go.Content.Delivery.Valid.{IsValid}
use lets_go.Content.Tasks.{ClaimedTask, Database, Handler, execute}
use lets_go.Content.Tasks.Execute.{Execution, execute-Outcome, execute-Stale}
use lets_go.Content.History.{IsApart, Reached}
use lets_go.Content.History.Safe.{IsFinal}
use lets_go.Content.History.Steps.{Execution-kept, Execution-Safe, history-Safe}

-- The row after a committed execution.
executed_row :
    (decode_header : Text → Option ℕ) (apply : Handler) (task : ClaimedTask) (before after : Tables)
    → IsApart apply
    → Execution decode_header apply task before after
    → (r : Delivery) × (find_row (delivery_key task.event_id task.consumer_name) after.deliveries
        ≡ some r)
      × IsFinal r
executed_row decode_header apply task before after apart x =
    let (kept, range) = Execution-kept decode_header apply task before after apart x in
    (
      terminal x.status [] x.now x.row,
      rw (x.stored, kept)
          (find-update_same (delivery_key task.event_id task.consumer_name)
              (has_claim task.claim_token) (terminal x.status [] x.now) (λ r. refl)
              before.deliveries
            ∙ rw x.held (rw x.claimed refl)),
      range.0,
    )

-- Once `Execute` has committed for a delivery, no later call of `Execute` for the same event and
-- consumer commits, with whatever task, handler and token, after any history of calls: it
-- returns `ErrClaimLost` or the driver's error and leaves the tables as they are. It is asked that
-- the constraints hold at first, and that the first handler leaves the deliveries alone.
pub execute-once :
    (db : Database) (decode_header : Text → Option ℕ) (apply : Handler) (task : ClaimedTask)
    (s s' : Session Tables) (decode_again : Text → Option ℕ) (apply_again : Handler)
    (again : ClaimedTask) (u : Session Tables)
    → IsValid s.tables.deliveries
    → IsApart apply
    → execute db decode_header apply task s ≡ (ok tt, s')
    → Reached db s'.tables u.tables
    → again.event_id ≡ task.event_id
    → again.consumer_name ≡ task.consumer_name
    → Outcome
        (λ _ t. ⊥)
        (λ e. (e ≡ Error.sentinel Sentinel.claim_lost) ⊎ (e ≡ Error.driver))
        u.tables
        (execute db decode_again apply_again again u)
execute-once db decode_header apply task s s' decode_again apply_again again u v apart done later p
      q =
    let x : Execution decode_header apply task s.tables s'.tables =
      rw done at (execute-Outcome db decode_header apply task s) in
    let valid = (Execution-Safe decode_header apply task s.tables s'.tables apart x).valid v in
    let (r, found, final) = executed_row decode_header apply task s.tables s'.tables apart x in
    let still =
      (history-Safe db s'.tables u.tables valid later).final task.event_id task.consumer_name r
        found final in
    execute-Stale db decode_again apply_again again u (inr (r, rw (p, q) still, inl (ground arith)))
