-- ===== src/Content/Tasks/Retry.antt =====
-- `ScheduleRetry` (internal/respository/task.go): a failed delivery waits for its next attempt, or
-- has failed for good.
use lets_go.Prelude.{
  ℕ, ◌≤◌, ◌≡◌, refl, ◌⊎◌, inl, inr, Bool, true, ◌&&◌, ◌||◌, Option, none, some, List, [], arith,
  leb, if◌then◌else◌, Bool-cases, Option-cases,
}
use lets_go.Sql.{Moment, Session}
use lets_go.Sql.Table.{find_row, update_where, affected, find-key_and}
use lets_go.Sql.Outcome.{Holds, Outcome, bind-Holds, call_then, transact-Outcome}
use lets_go.Content.Errors.{error_driver, Text, Sentinel, Error, errors_is}
use lets_go.Content.Tables.{Time, Delivery, Tables, delivery_key}
use lets_go.Content.Delivery.{
  Duration, has_claim, terminal, waiting, timestamp_add, microseconds, mark_failed, mark_pending,
  find_retry_state, lift_result, or_not_found,
}
use lets_go.Content.Delivery.Valid.{IsUnique, IsValid, Keeps, terminal-Keeps, waiting-Keeps}
use lets_go.Content.Delivery.Lookup.{Changed, Edited-Changed, update-Edited, affected-one}
use lets_go.Content.Tasks.{
  ClaimedTask, Database, require_claim, clip, reschedule, lock_retry, retry_body, schedule_retry,
}
use lets_go.Content.Tasks.Backoff.{backoff}
use lets_go.Content.Tasks.Rules.{replace_error-Holds}

abbrev pub message_of : (Error → Text) → Option Error → Text
message_of describe cause = clip (elim cause [ none ↦ [] | some e ↦ describe e ])

-- The row that replaces `r`.
abbrev pub rescheduled :
    (Error → Text) → (ℕ → ℕ) → Option Error → Duration → Bool → Time → Delivery → Delivery
rescheduled describe jitter cause base is_permanent now r =
    if is_permanent || leb r.max_attempts r.attempt_count
    then terminal 5 (message_of describe cause) now r
    else waiting (message_of describe cause)
        (timestamp_add (microseconds (backoff jitter base r.attempt_count)) now) r

abbrev pub LateClaim : Error → Type 0
LateClaim e = (e ≡ Error.sentinel Sentinel.claim_lost) ⊎ (e ≡ Error.driver)

module _ (describe : Error → Text) (jitter : ℕ → ℕ) (task : ClaimedTask) (cause : Option Error)
    (base : Duration) (is_permanent : Bool) where
  -- What a committed call has done: the row was processed under the task's claim, and is replaced.
  pub record Rescheduled (before after : Tables) : Type 0 where
    pub row : Delivery
    pub claimed : has_claim task.claim_token row ≡ true
    pub held : find_row (delivery_key task.event_id task.consumer_name) before.deliveries ≡ some row
    pub now : Time
    pub changed :
        Changed task.event_id task.consumer_name
          (rescheduled describe jitter cause base is_permanent now row)
          before
          after

  reschedule-Holds :
      (r : Delivery) (s : Session Tables)
      → IsUnique s.tables.deliveries
      → find_row (delivery_key task.event_id task.consumer_name) s.tables.deliveries ≡ some r
      → has_claim task.claim_token r ≡ true
      → Holds
          (λ _ s'. Rescheduled s.tables s'.tables)
          LateClaim
          (reschedule describe jitter task cause base is_permanent r s)
  unfolding reschedule mark_failed mark_pending
  reschedule-Holds r s u held claimed =
      elim (Bool-cases (is_permanent || leb r.max_attempts r.attempt_count)) [
        | inl over ↦ rw over (
            call_then LateClaim Error.driver _ require_claim
              (λ _ s'. Rescheduled s.tables s'.tables) s (inr refl)
              λ now ms later.
                stored now ms later (terminal 5 (message_of describe cause) now)
                  (terminal-Keeps _ 5 _ now (omega arith) (omega arith)) (rw over refl))
        | inr again ↦ rw again (
            call_then LateClaim Error.driver _ require_claim
              (λ _ s'. Rescheduled s.tables s'.tables) s (inr refl)
              λ now ms later.
                stored now ms later
                  (waiting (message_of describe cause)
                    (timestamp_add (microseconds (backoff jitter base r.attempt_count)) now))
                  (waiting-Keeps _ _ _) (rw again refl))
      ]
    where
      mine : Delivery → Bool
      mine x = delivery_key task.event_id task.consumer_name x && has_claim task.claim_token x

      stored :
          (now : Time) (ms : List Moment)
          → s.now ≤ now
          → (f : Delivery → Delivery) → Keeps mine f
          → rescheduled describe jitter cause base is_permanent now r ≡ f r
          → Holds
              (λ _ s'. Rescheduled s.tables s'.tables)
              LateClaim
              (require_claim (affected mine s.tables.deliveries) (record {
                tables = record s.tables { deliveries = update_where mine f s.tables.deliveries };
                now = now;
                script = ms;
              }))
      stored now ms later f keep e =
          rw
            (affected-one task.event_id task.consumer_name (has_claim task.claim_token) r
              s.tables.deliveries u held claimed)
            (record {
              row = r;
              claimed = claimed;
              held = held;
              now = now;
              changed = rw e (
                  Edited-Changed _ _ (f r) s _ (
                    update-Edited task.event_id task.consumer_name (has_claim task.claim_token) f r
                      s now ms later held claimed keep));
            })

  lock_retry-Holds :
      (s : Session Tables)
      → IsUnique s.tables.deliveries
      → Holds
          (λ r s'.
            (s'.tables ≡ s.tables)
            × (find_row (delivery_key task.event_id task.consumer_name) s.tables.deliveries
                ≡ some r)
            × (has_claim task.claim_token r ≡ true))
          LateClaim
          (lock_retry task s)
  unfolding find_retry_state errors_is
  lock_retry-Holds s u =
      replace_error-Holds Sentinel.not_found (Error.sentinel Sentinel.claim_lost)
        (find_retry_state task.event_id task.consumer_name task.claim_token) Found
        (λ x. (x ≡ Error.driver) ⊎ (x ≡ Error.sentinel Sentinel.not_found)) LateClaim s
        (λ x e. elim e [ inl d ↦ rw d (inr refl) | inr n ↦ rw n (inl refl) ])
        (call_then _ Error.driver _ (λ found. lift_result (or_not_found found)) Found s (inl refl)
          λ now ms later. elim (Option-cases (find_row mine s.tables.deliveries)) [
            | inl e ↦ rw e (inr refl)
            | inr (r, e) ↦
                let (held, claimed) =
                  find-key_and (delivery_key task.event_id task.consumer_name)
                    (has_claim task.claim_token) s.tables.deliveries r
                    (u task.event_id task.consumer_name) e in
                rw e (refl, held, claimed)
          ])
    where
      mine : Delivery → Bool
      mine x = delivery_key task.event_id task.consumer_name x && has_claim task.claim_token x

      Found : Delivery → Session Tables → Type 0
      Found r s' =
          (s'.tables ≡ s.tables)
          × (find_row (delivery_key task.event_id task.consumer_name) s.tables.deliveries ≡ some r)
          × (has_claim task.claim_token r ≡ true)

pub retry-Outcome :
    (db : Database) (describe : Error → Text) (jitter : ℕ → ℕ) (task : ClaimedTask)
    (cause : Option Error) (base : Duration) (is_permanent : Bool) (s : Session Tables)
    → IsValid s.tables.deliveries
    → Outcome
        (λ _ t. Rescheduled describe jitter task cause base is_permanent s.tables t)
        LateClaim
        s.tables
        (schedule_retry db describe jitter task cause base is_permanent s)
unfolding schedule_retry retry_body
retry-Outcome db describe jitter task cause base is_permanent s v =
    transact-Outcome db (λ _ t. Rescheduled describe jitter task cause base is_permanent s.tables t)
      LateClaim (retry_body describe jitter task cause base is_permanent) s (inr refl)
      (bind-Holds LateClaim (lock_retry task)
        (reschedule describe jitter task cause base is_permanent)
        (λ r s'.
          (s'.tables ≡ s.tables)
          × (find_row (delivery_key task.event_id task.consumer_name) s.tables.deliveries ≡ some r)
          × (has_claim task.claim_token r ≡ true))
        (λ _ s'. Rescheduled describe jitter task cause base is_permanent s.tables s'.tables) s
        (lock_retry-Holds describe jitter task cause base is_permanent s v.unique)
        λ r s' (kept, held, claimed). rw (← kept) (
          reschedule-Holds describe jitter task cause base is_permanent r s' (rw kept v.unique)
            (rw kept held) claimed))
