-- ===== src/Content/Tasks/Settle.antt =====
-- The statements of `Execute` (internal/respository/task.go) around the handler: the locking read,
-- the read of the event, and the final write.
use lets_go.Prelude.{
  ℕ, ◌≤◌, ◌≡◌, refl, ◌⊎◌, inl, inr, Bool, ◌&&◌, some, [], arith, ◌==◌, Bool-cases, Option-cases,
}
use lets_go.Sql.{Session, ◌>>=◌}
use lets_go.Sql.Table.{find_row, update_where, affected}
use lets_go.Sql.Outcome.{Holds, call_then}
use lets_go.Content.Errors.{Sentinel, Error, errors_is}
use lets_go.Content.Tables.{Ident, Time, Delivery, OutboxEvent, Tables, delivery_key}
use lets_go.Content.Delivery.{
  has_claim, lease_valid, terminal, mark_terminal, find_claim_state, lift_result, or_not_found,
}
use lets_go.Content.Tasks.{ClaimedTask, require_claim, finish_task, find_event, lock_claim}
use lets_go.Content.Tasks.Rules.{replace_error-Holds}

-- What the locking read returns.
abbrev pub Locked : ClaimedTask → Session Tables → Delivery × Bool → Session Tables → Type 0
Locked task s (row, valid) s' =
    (s'.tables ≡ s.tables)
    × (find_row (delivery_key task.event_id task.consumer_name) s.tables.deliveries ≡ some row)
    × ((now : Time) × (s.now ≤ now) × (valid ≡ lease_valid now row))

pub lock_claim-Holds :
    (R : Error → Type 0) (task : ClaimedTask) (s : Session Tables)
    → R Error.driver
    → R (Error.sentinel Sentinel.claim_lost)
    → Holds (Locked task s) R (lock_claim task s)
unfolding find_claim_state errors_is
lock_claim-Holds R task s refused lost =
    replace_error-Holds Sentinel.not_found (Error.sentinel Sentinel.claim_lost)
      (find_claim_state task.event_id task.consumer_name) (Locked task s)
      (λ x. (x ≡ Error.driver) ⊎ (x ≡ Error.sentinel Sentinel.not_found)) R s
      (λ x e. elim e [ inl d ↦ rw d refused | inr n ↦ rw n lost ])
      (call_then _ Error.driver _ (λ found. lift_result (or_not_found found)) (Locked task s) s
        (inl refl)
        λ now ms later.
          elim (Option-cases
            (find_row (delivery_key task.event_id task.consumer_name) s.tables.deliveries)) [
              | inl e ↦ rw e (inr refl)
              | inr (r, e) ↦ rw e (refl, e, (now, later, refl))
            ])

pub find_event-Holds :
    (R : Error → Type 0) (e : Ident) (s : Session Tables)
    → R Error.driver
    → R (Error.sentinel Sentinel.not_found)
    → Holds
        (λ source s'.
          (s'.tables ≡ s.tables)
          × (find_row (λ (r : OutboxEvent). r.event_id == e) s.tables.outbox ≡ some source))
        R
        (find_event e s)
unfolding find_event
find_event-Holds R e s refused missing =
    call_then R Error.driver _ (λ found. lift_result (or_not_found found)) _ s refused
      λ now ms later.
        elim (Option-cases (find_row (λ (r : OutboxEvent). r.event_id == e) s.tables.outbox)) [
          | inl none_found ↦ rw none_found missing
          | inr (source, found) ↦ rw found (refl, refl)
        ]

-- The final write: one row, under the task's own claim.
abbrev pub Finished : ClaimedTask → ℕ → Session Tables → Session Tables → Type 0
Finished task status s s' =
    (now : Time) × (affected
        (λ r. delivery_key task.event_id task.consumer_name r && has_claim task.claim_token r)
        s.tables.deliveries
      ≡ 1)
    × (s'.tables ≡ record s.tables {
      deliveries =
          update_where
            (λ r. delivery_key task.event_id task.consumer_name r && has_claim task.claim_token r)
            (terminal status [] now) s.tables.deliveries;
    })

pub finish_task-Holds :
    (R : Error → Type 0) (task : ClaimedTask) (status : ℕ) (s : Session Tables)
    → R Error.driver
    → R Error.context_done
    → R (Error.sentinel Sentinel.claim_lost)
    → Holds (λ _ s'. Finished task status s s') R (finish_task task status s)
unfolding finish_task mark_terminal
finish_task-Holds R task status s refused cancelled lost =
    call_then R Error.context_done _
      (λ _.
        mark_terminal task.event_id task.consumer_name task.claim_token status >>= require_claim)
      _ s cancelled
      λ now ms later. call_then R Error.driver _ require_claim _ _ refused λ now' ms' later'.
        elim (Bool-cases (
          affected
            (λ r. delivery_key task.event_id task.consumer_name r && has_claim task.claim_token r)
            s.tables.deliveries
          == 1)) [ inl one ↦ rw one (now', ground arith, refl) | inr other ↦ rw other lost ]
