-- ===== src/Content/Tasks.antt =====
-- internal/respository/task.go, the task repository, and the types of internal/event/task.go that
-- it passes on. Every operation is one transaction.
pub mod Backoff
pub mod Rules
pub mod Claim
pub mod Grant
pub mod Settle
pub mod Execute
pub mod Retry
pub mod Stored
pub mod Overdue
pub mod Recover
use lets_go.Prelude.{
  ℕ, suc, zero, ◌+◌, ◌*◌, ◌/◌, ◌%◌, Bool, true, false, not, ◌||◌, Option, none, some, List, [], ◌∷◌,
  ltb, leb, ◌==◌, if◌then◌else◌, holds, take, length, min,
}
use lets_go.Sql.{Session, Result, ok, err, Tx, ◌>>=◌, ◌>>◌, pure, fail, call}
use lets_go.Sql.Table.{find_row}
use lets_go.Sql.Outcome.{Conn}
use lets_go.Content.Errors.{Text, Sentinel, Message, Error, errors_is}
use lets_go.Content.Tables.{Ident, Time, Delivery, OutboxEvent, Tables}
use lets_go.Content.Delivery.{
  Duration, find_ready_for_update, mark_processing, find_claim_state, find_retry_state,
  find_expired_for_update, mark_terminal, mark_failed, mark_pending, mark_expired_failed,
  mark_expired_pending, lift_result, or_not_found,
}
use Backoff.{backoff}

-- `TaskContext`. `payload` is the event's JSON text.
pub record TaskContext : Type 0 where
  pub event_id : Ident
  pub consumer_name : Ident
  pub event_type : Ident
  pub schema_version : ℕ
  pub payload : Text

-- `ClaimedTask`: of its context, `Claim` fills in the key.
pub record ClaimedTask : Type 0 where
  pub event_id : Ident
  pub consumer_name : Ident
  pub claim_token : Ident
  pub locked_until : Time

pub record RecoveryResult : Type 0 where
  pub scanned : ℕ
  pub recovered : ℕ
  pub failed : ℕ

abbrev pub Database : Type 1
Database = Conn Tables Error Error.driver

abbrev pub TaskTx : Type 0 → Type 0
TaskTx A = Tx Tables Error A

-- `if errors.Is(err, sentinel) { return e }`
abbrev pub replace_error : {A : Type 0} → Sentinel → Error → TaskTx A → TaskTx A
replace_error target e m s =
    let (r, s') = m s in
    elim r [ ok a ↦ (ok a, s') | err x ↦ (err (if errors_is x target then e else x), s') ]

abbrev pub claimed_task : Delivery → Ident → Time → ClaimedTask
claimed_task row token locked_until = record {
  event_id = row.event_id;
  consumer_name = row.consumer_name;
  claim_token = token;
  locked_until = locked_until;
}

abbrev pub claim_row : Ident → Duration → Delivery → TaskTx Time
claim_row token lease row =
    replace_error Sentinel.not_found (Error.message Message.task_not_claimable)
      (mark_processing row.event_id row.consumer_name token lease)

-- The loop of `Claim`. `tokens i` is the i-th result of `uuid.NewString`.
pub claim_rows : (ℕ → Ident) → Duration → ℕ → List Delivery → TaskTx (List ClaimedTask)
unfolding errors_is
claim_rows tokens lease i [] = pure []
claim_rows tokens lease i (row ∷ rows) = do
  locked_until ← claim_row (tokens i) lease row
  rest ← claim_rows tokens lease (suc i) rows
  pure (claimed_task row (tokens i) locked_until ∷ rest)

pub claim_body : (ℕ → Ident) → (Delivery → Bool) → ℕ → Duration → TaskTx (List ClaimedTask)
claim_body tokens skip limit lease = do
  rows ← find_ready_for_update skip limit
  claim_rows tokens lease 0 rows

-- `Claim`. A limit of 0 also stands for a negative one.
unfoldable pub claim :
    Database → (ℕ → Ident) → (Delivery → Bool) → ℕ → Duration → TaskTx (List ClaimedTask)
unfolding claim_body claim_rows
claim db tokens skip limit lease =
    if limit == 0
    then pure []
    else if lease == 0
    then fail (Error.message Message.lease_not_positive)
    else db.transact (List ClaimedTask) (claim_body tokens skip (min limit 100) lease)

-- `row.Status != 2 || !row.ClaimToken.Valid || … != task.ClaimToken || !row.LeaseValid`
abbrev pub claim_is_lost : ClaimedTask → Delivery → Bool → Bool
claim_is_lost task row lease_valid =
    not (row.status == 2) || not (holds row.claim_token task.claim_token) || not lease_valid

unfoldable pub find_event : Ident → TaskTx OutboxEvent
find_event e = do
  found ← call Error.driver λ now t. (find_row (λ r. r.event_id == e) t.outbox, t)
  lift_result (or_not_found found)

-- `ctx.Err()`: whether the context has been cancelled by now is up to the environment.
unfoldable pub check_context : TaskTx (Unit {0})
check_context = call Error.context_done λ now t. (tt, t)

abbrev pub require_claim : ℕ → TaskTx (Unit {0})
require_claim n = if n == 1 then pure tt else fail (Error.sentinel Sentinel.claim_lost)

abbrev pub Handler : Type 0
Handler = TaskContext → TaskTx (Unit {0})

-- The status that follows from what the handler returned.
abbrev pub settle_result :
    Result Error (Unit {0}) × Session Tables → Result Error ℕ × Session Tables
settle_result (ok _, s) = (ok 3, s)
settle_result (err e, s) = (if errors_is e Sentinel.superseded then ok 4 else err e, s)

abbrev pub settle_status : Handler → TaskContext → TaskTx ℕ
settle_status apply input s = settle_result (apply input s)

-- From `ctx.Err()` on: the delivery gets its final status in the handler's transaction.
pub finish_task : ClaimedTask → ℕ → TaskTx (Unit {0})
unfolding check_context
finish_task task status = do
  check_context
  n ← mark_terminal task.event_id task.consumer_name task.claim_token status
  require_claim n

pub run_handler : Handler → ClaimedTask → TaskContext → TaskTx (Unit {0})
unfolding finish_task errors_is
run_handler apply task input = do status ← settle_status apply input; finish_task task status

abbrev pub context_of : ClaimedTask → OutboxEvent → ℕ → TaskContext
context_of task source version = record {
  event_id = task.event_id;
  consumer_name = task.consumer_name;
  event_type = source.event_type;
  schema_version = version;
  payload = source.payload_json;
}

pub run_decoded : Handler → ClaimedTask → OutboxEvent → Option ℕ → TaskTx (Unit {0})
unfolding run_handler
run_decoded apply task source none = fail (Error.permanent (Error.message Message.decode_header))
run_decoded apply task source (some version) =
    run_handler apply task (context_of task source version)

-- `decode_header` is the `json.Unmarshal` of the payload's `schemaVersion`.
pub run_event : (Text → Option ℕ) → Handler → ClaimedTask → OutboxEvent → TaskTx (Unit {0})
unfolding run_decoded
run_event decode_header apply task source =
    run_decoded apply task source (decode_header source.payload_json)

pub run_claimed : (Text → Option ℕ) → Handler → ClaimedTask → Delivery × Bool → TaskTx (Unit {0})
unfolding find_event run_event
run_claimed decode_header apply task (row, lease_valid) =
    if claim_is_lost task row lease_valid
    then fail (Error.sentinel Sentinel.claim_lost)
    else (find_event task.event_id >>= run_event decode_header apply task)

abbrev pub lock_claim : ClaimedTask → TaskTx (Delivery × Bool)
lock_claim task =
    replace_error Sentinel.not_found (Error.sentinel Sentinel.claim_lost)
      (find_claim_state task.event_id task.consumer_name)

pub execute_body : (Text → Option ℕ) → Handler → ClaimedTask → TaskTx (Unit {0})
unfolding run_claimed
execute_body decode_header apply task = do
  state ← lock_claim task
  run_claimed decode_header apply task state

unfoldable pub execute : Database → (Text → Option ℕ) → Handler → ClaimedTask → TaskTx (Unit {0})
unfolding execute_body
execute db decode_header apply task = db.transact (Unit {0}) (execute_body decode_header apply task)

-- `if len(runes) > 1000`
abbrev pub clip : Text → Text
clip message = take 1000 message

-- What is stored once the row is known: `failed` for good, or another attempt after the delay.
-- `describe` is the `Error` method of an error; `jitter n` is what `rand.Int64N(n)` returns.
pub reschedule :
    (Error → Text)
    → (ℕ → ℕ)
    → ClaimedTask
    → Option Error
    → Duration
    → Bool
    → Delivery
    → TaskTx (Unit {0})
unfolding backoff
reschedule describe jitter task cause base is_permanent row = do
  let message : Text = clip (elim cause [ none ↦ [] | some e ↦ describe e ])
  n ←
      if is_permanent || leb row.max_attempts row.attempt_count
      then mark_failed task.event_id task.consumer_name task.claim_token message
      else mark_pending task.event_id task.consumer_name task.claim_token message
          (backoff jitter base row.attempt_count)
  require_claim n

abbrev pub lock_retry : ClaimedTask → TaskTx Delivery
lock_retry task =
    replace_error Sentinel.not_found (Error.sentinel Sentinel.claim_lost)
      (find_retry_state task.event_id task.consumer_name task.claim_token)

pub retry_body :
    (Error → Text) → (ℕ → ℕ) → ClaimedTask → Option Error → Duration → Bool → TaskTx (Unit {0})
unfolding errors_is reschedule
retry_body describe jitter task cause base is_permanent = do
  row ← lock_retry task
  reschedule describe jitter task cause base is_permanent row

unfoldable pub schedule_retry :
    Database
    → (Error → Text)
    → (ℕ → ℕ)
    → ClaimedTask
    → Option Error
    → Duration
    → Bool
    → TaskTx (Unit {0})
unfolding retry_body
schedule_retry db describe jitter task cause base is_permanent =
    db.transact (Unit {0}) (retry_body describe jitter task cause base is_permanent)

-- "task processing lease expired"
abbrev pub expired_task_error : Text
expired_task_error =
    116 ∷ 97 ∷ 115 ∷ 107 ∷ 32 ∷ 112 ∷ 114 ∷ 111 ∷ 99 ∷ 101 ∷ 115 ∷ 115 ∷ 105 ∷ 110 ∷ 103 ∷ 32 ∷ 108
    ∷ 101 ∷ 97 ∷ 115 ∷ 101 ∷ 32 ∷ 101 ∷ 120 ∷ 112 ∷ 105 ∷ 114 ∷ 101 ∷ 100 ∷ []

abbrev pub is_exhausted : Delivery → Bool
is_exhausted row = leb row.max_attempts row.attempt_count

abbrev pub count_recovery : Delivery → RecoveryResult → RecoveryResult
count_recovery row r =
    if is_exhausted row
    then record r { failed = r.failed + 1 }
    else record r { recovered = r.recovered + 1 }

-- The token of an expired row, which the query scans into a string that cannot be NULL.
abbrev pub token_of : Delivery → Ident
token_of row = elim row.claim_token [ none ↦ 0 | some token ↦ token ]

pub recover_row : Delivery → TaskTx ℕ
recover_row row =
    if is_exhausted row
    then mark_expired_failed row.event_id row.consumer_name (token_of row) expired_task_error
    else mark_expired_pending row.event_id row.consumer_name (token_of row) expired_task_error

pub recover_rows : RecoveryResult → List Delivery → TaskTx RecoveryResult
unfolding recover_row
recover_rows result [] = pure result
recover_rows result (row ∷ rows) = do
  n ← recover_row row
  if n == 1 then pure tt else fail (Error.message Message.recovery_lost_claim)
  recover_rows (count_recovery row result) rows

pub recover_body : (Delivery → Bool) → ℕ → TaskTx RecoveryResult
unfolding recover_rows
recover_body skip limit = do
  rows ← find_expired_for_update skip limit
  recover_rows (record { scanned = length rows; recovered = 0; failed = 0 }) rows

-- `RecoverExpired`. A limit of 0 also stands for a negative one.
unfoldable pub recover_expired : Database → (Delivery → Bool) → ℕ → TaskTx RecoveryResult
unfolding recover_body
recover_expired db skip limit =
    if limit == 0
    then pure (record { scanned = 0; recovered = 0; failed = 0 })
    else db.transact RecoveryResult (recover_body skip (min limit 500))
