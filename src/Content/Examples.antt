-- ===== src/Content/Examples.antt =====
-- Runs of the task repositories on a small database, and the theorems at such runs.
mod Posts
mod Removals
mod Drafts
mod Publications
mod Workers
mod Pools
use lets_go.Prelude.{
  ℕ, ◌+◌, ◌*◌, ◌/◌, ◌≤◌, ◌≡◌, refl, ◌⊎◌, inr, Bool, false, Option, none, some, List, [], ◌∷◌, arith,
}
use lets_go.Sql.{Session, Result, ok, err, pure}
use lets_go.Sql.Outcome.{Outcome}
use lets_go.Sql.Plain.{plain, lossy}
use lets_go.Content.Errors.{error_driver, Text, Sentinel, Error}
use lets_go.Content.Tables.{Delivery, OutboxEvent, Tables}
use lets_go.Content.Delivery.Valid.{IsValid}
use lets_go.Content.Tasks.{ClaimedTask, Database, Handler, claim, execute, schedule_retry}
use lets_go.Content.Tasks.Backoff.{backoff, second, backoff_bounds}
use lets_go.Content.Tasks.Grant.{Grant}
use lets_go.Content.Tasks.Execute.{execute-Outcome, execute-Stale}
use lets_go.Content.Tasks.Stored.{schedule_retry-Stored}
use lets_go.Content.Tasks.Retry.{LateClaim}
use lets_go.Content.Dispatch.{Resolver, no_events, fan_out}
use lets_go.Content.Dispatch.FanOut.{count_all, split_all}
use lets_go.Content.History.{Call, start, next, perform}
use lets_go.Content.History.Safe.{Safe}
use lets_go.Content.History.Steps.{history-Safe}
use lets_go.Content.History.Once.{execute-once}

abbrev pub database : Database
database = plain Tables Error Error.driver

-- Event 1 waits for its consumer 10; event 2 is under a claim of token 70 until 500.
abbrev rows : List Delivery
rows =
    record {
      event_id = 1;
      consumer_name = 10;
      status = 1;
      attempt_count = 0;
      max_attempts = 10;
      next_attempt_at = 100;
      claim_token = none;
      locked_until = none;
      last_error = [];
      completed_at = none;
    }
    ∷ record {
      event_id = 2;
      consumer_name = 10;
      status = 2;
      attempt_count = 1;
      max_attempts = 10;
      next_attempt_at = 100;
      claim_token = some 70;
      locked_until = some 500;
      last_error = [];
      completed_at = none;
    }
    ∷ []

abbrev event : ℕ → ℕ → OutboxEvent
event e status = record {
  event_id = e;
  aggregate_id = e;
  event_type = 5;
  payload_json = 123 ∷ 125 ∷ [];
  status = status;
  attempt_count = 0;
  next_attempt_at = 100;
  occurred_at = 90;
  published_at = none;
}

-- At time `now`, with event 3 still to be dispatched.
abbrev pub session_at : ℕ → Session Tables
session_at now = record {
  tables = record {
    deliveries = rows;
    outbox = event 1 3 ∷ event 2 3 ∷ event 3 1 ∷ [];
    posts = [];
    revisions = [];
    cards = [];
    drafts = [];
    assets = [];
    refs = [];
    tags = [];
    revision_tags = [];
  };
  now = now;
  script = [];
}

pub rows-IsValid : IsValid rows
rows-IsValid = record { checked = (ground arith, (ground arith, tt)); unique = λ e c. ground arith }

abbrev tokens : ℕ → ℕ
tokens i = 80 + i

abbrev unlocked : {A : Type 0} → A → Bool
unlocked x = false

abbrev pub held : ClaimedTask
held = record { event_id = 2; consumer_name = 10; claim_token = 70; locked_until = 500 }

abbrev idle : Handler
idle input = pure tt

abbrev pub header : Text → Option ℕ
header text = some 1

abbrev consumers : Resolver
consumers event_type = some (10 ∷ 11 ∷ [])

abbrev pub describe : Error → Text
describe e = 33 ∷ []

abbrev pub no_jitter : ℕ → ℕ
no_jitter n = 0

-- The claim of row 1 at time 200 has a lease of one millisecond.
claimed_run :
    (claim database tokens unlocked 5 1_000_000 (session_at 200)).0
    ≡ ok (record { event_id = 1; consumer_name = 10; claim_token = 80; locked_until = 201 } ∷ [])
unfolding claim lets_go.Content.Delivery.find_ready_for_update lets_go.Sql.call
    lets_go.Content.Delivery.mark_processing
claimed_run = refl

backoff_bounds_example :
    (8 * second / 2 ≤ backoff no_jitter second 4) × (backoff no_jitter second 4 ≤ 8 * second)
backoff_bounds_example = backoff_bounds no_jitter second 4 (λ n h. h)

-- At time 500 the lease is over.
execute-Stale_example :
    Outcome
      (λ _ t. ⊥)
      (λ e. (e ≡ Error.sentinel Sentinel.claim_lost) ⊎ (e ≡ Error.driver))
      (session_at 500).tables
      (execute database header idle held (session_at 500))
execute-Stale_example =
    execute-Stale database header idle held (session_at 500) (inr (_, refl, inr refl))

fan_out_run :
    (fan_out database unlocked 5 (some consumers) (session_at 200)).0
    ≡ ok
        (record { scanned_events = 1; dispatched_events = 1; failed_events = 0; created_tasks = 2 })
unfolding fan_out lets_go.Content.Dispatch.find_pending_for_dispatch lets_go.Sql.call
    lets_go.Content.Delivery.insert_pending lets_go.Content.Dispatch.mark_dispatched
fan_out_run = refl

abbrev executed : Session Tables
executed = (execute database header idle held (session_at 200)).1

abbrev history : Call
history = Call.claims tokens unlocked 5 1_000_000

history-Safe_example : Safe rows (perform database history (session_at 200)).tables.deliveries
history-Safe_example =
    history-Safe database (session_at 200).tables (perform database history (session_at 200)).tables
      rows-IsValid (next _ history 200 [] start tt)

executes : execute database header idle held (session_at 200) ≡ (ok tt, executed)
unfolding execute lets_go.Content.Delivery.find_claim_state lets_go.Sql.call
    lets_go.Content.Delivery.mark_terminal
executes = refl

execute-once_example :
    Outcome
      (λ _ t. ⊥)
      (λ e. (e ≡ Error.sentinel Sentinel.claim_lost) ⊎ (e ≡ Error.driver))
      executed.tables
      (execute database header idle held executed)
execute-once_example =
    execute-once database header idle held (session_at 200) executed header idle held executed
      rows-IsValid (λ input s. refl) executes start refl refl

-- The same task where every answer of a commit is lost.
loses :
    execute (lossy Tables Error Error.driver) header idle held (session_at 200)
    ≡ (err Error.driver, executed)
unfolding execute lets_go.Content.Delivery.find_claim_state lets_go.Sql.call
    lets_go.Content.Delivery.mark_terminal
loses = refl

schedule_retry-Stored_example :
    Outcome
      (λ _ t. ⊥)
      LateClaim
      executed.tables
      (schedule_retry database describe no_jitter held (some Error.driver) second false executed)
schedule_retry-Stored_example =
    schedule_retry-Stored describe no_jitter held (some Error.driver) second false database header
      idle (session_at 200).tables executed
      (rw executes at (execute-Outcome database header idle held (session_at 200)))
