-- ===== src/Content/Dispatch.antt =====
-- internal/respository/dispatch.go and internal/model/outbox_event_model.go: one delivery for every
-- event and consumer.
pub mod Added
pub mod Scanned
pub mod FanOut
use lets_go.Prelude.{
  ℕ, suc, ◌+◌, Bool, true, false, not, ◌&&◌, ◌||◌, Option, none, some, List, [], ◌∷◌, ◌++◌, ltb,
  leb, ◌==◌, if◌then◌else◌, take, select, length, min,
}
use lets_go.Sql.{Session, Result, ok, err, Tx, ◌>>=◌, ◌>>◌, pure, fail, call}
use lets_go.Sql.Table.{update_where, affected}
use lets_go.Sql.Order.{order_by}
use lets_go.Content.Errors.{Message, Error}
use lets_go.Content.Tables.{Ident, Time, OutboxEvent, Tables}
use lets_go.Content.Delivery.{insert_pending}
use lets_go.Content.Tasks.{Database, TaskTx}

pub record DispatchResult : Type 0 where
  pub scanned_events : ℕ
  pub dispatched_events : ℕ
  pub failed_events : ℕ
  pub created_tasks : ℕ

abbrev pub by_event_time : OutboxEvent → OutboxEvent → Bool
by_event_time a b =
    ltb a.next_attempt_at b.next_attempt_at
    || a.next_attempt_at == b.next_attempt_at && leb a.event_id b.event_id

-- The rows of `FindPendingForDispatch`. `skip` are the rows that other transactions have locked.
abbrev pub pending_rows : (OutboxEvent → Bool) → ℕ → Time → List OutboxEvent → List OutboxEvent
pending_rows skip limit now rows = take limit (
    order_by by_event_time
      (select (λ r. r.status == 1 && leb r.next_attempt_at now && not (skip r)) rows))

unfoldable pub find_pending_for_dispatch : (OutboxEvent → Bool) → ℕ → TaskTx (List OutboxEvent)
find_pending_for_dispatch skip limit =
    call Error.driver λ now t. (pending_rows skip limit now t.outbox, t)

-- WHERE event_id=? AND status=1
abbrev pub is_pending : Ident → OutboxEvent → Bool
is_pending e r = r.event_id == e && r.status == 1

abbrev pub dispatched : Time → OutboxEvent → OutboxEvent
dispatched now r = record r {
  status = 3;
  attempt_count = r.attempt_count + 1;
  published_at = some now;
}

abbrev pub dispatch_failed : OutboxEvent → OutboxEvent
dispatch_failed r = record r {
  status = 4;
  attempt_count = r.attempt_count + 1;
  published_at = none;
}

unfoldable pub mark_dispatched : Ident → TaskTx ℕ
mark_dispatched e = call Error.driver λ now t. (
  affected (is_pending e) t.outbox,
  record t { outbox = update_where (is_pending e) (dispatched now) t.outbox },
)

unfoldable pub mark_dispatch_failed : Ident → TaskTx ℕ
mark_dispatch_failed e = call Error.driver λ now t. (
  affected (is_pending e) t.outbox,
  record t { outbox = update_where (is_pending e) dispatch_failed t.outbox },
)

-- `requireOneRow`, under the wrapping of its callers.
abbrev pub require_one_row : ℕ → TaskTx (Unit {0})
require_one_row n =
    if n == 1 then pure tt else fail (Error.wrapped (Error.message Message.one_row_expected))

-- The event's own row is settled; it must have been pending still.
abbrev pub finish_event : TaskTx ℕ → TaskTx (Unit {0})
finish_event mark = mark >>= require_one_row

-- `ConsumerResolver`: the consumers of an event type, and whether the type is known.
abbrev pub Resolver : Type 0
Resolver = Ident → Option (List Ident)

-- The consumers of an event: none is the branch `!ok || len(consumers) == 0`.
abbrev pub consumers_of : Resolver → OutboxEvent → List Ident
consumers_of resolver source = elim (resolver source.event_type) [ none ↦ [] | some cs ↦ cs ]

pub insert_all : Ident → List Ident → DispatchResult → TaskTx DispatchResult
insert_all e [] result = pure result
insert_all e (c ∷ cs) result = do
  insert_pending e c
  insert_all e cs (record result { created_tasks = result.created_tasks + 1 })

pub dispatch_event : OutboxEvent → List Ident → DispatchResult → TaskTx DispatchResult
unfolding insert_all
dispatch_event source [] result = do
  finish_event (mark_dispatch_failed source.event_id)
  pure (record result { failed_events = result.failed_events + 1 })
dispatch_event source (c ∷ cs) result = do
  inserted ← insert_all source.event_id (c ∷ cs) result
  finish_event (mark_dispatched source.event_id)
  pure (record inserted { dispatched_events = inserted.dispatched_events + 1 })

pub dispatch_events : Resolver → List OutboxEvent → DispatchResult → TaskTx DispatchResult
unfolding dispatch_event
dispatch_events resolver [] result = pure result
dispatch_events resolver (source ∷ events) result = do
  next ← dispatch_event source (consumers_of resolver source) result
  dispatch_events resolver events next

abbrev pub no_events : DispatchResult
no_events = record {
  scanned_events = 0;
  dispatched_events = 0;
  failed_events = 0;
  created_tasks = 0;
}

pub fan_out_body : Resolver → (OutboxEvent → Bool) → ℕ → TaskTx DispatchResult
unfolding dispatch_events
fan_out_body resolver skip limit = do
  events ← find_pending_for_dispatch skip limit
  dispatch_events resolver events (record no_events { scanned_events = length events })

-- `FanOut`. A limit of 0 also stands for a negative one; `none` is a nil resolver.
unfoldable pub fan_out :
    Database → (OutboxEvent → Bool) → ℕ → Option Resolver → TaskTx DispatchResult
unfolding fan_out_body
fan_out db skip limit resolver = if limit == 0 then pure no_events else elim resolver [
  | none ↦ fail (Error.message Message.resolver_required)
  | some r ↦ db.transact DispatchResult (fan_out_body r skip (min limit 500))
]
