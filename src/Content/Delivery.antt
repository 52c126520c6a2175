-- ===== src/Content/Delivery.antt =====
-- internal/model/event_delivery_model.go: the statements on the table of deliveries. Each is one
-- SQL statement, at the time `now` when it runs.
pub mod Lookup
pub mod Valid
pub mod Select
use lets_go.Prelude.{
  ℕ, suc, ◌+◌, ◌*◌, ◌/◌, ◌≤◌, Bool, true, false, not, ◌&&◌, ◌||◌, Option, none, some, List, [], ◌∷◌,
  ◌++◌, ltb, leb, ◌==◌, if◌then◌else◌, holds, take, select, length,
}
use lets_go.Sql.{Session, Result, ok, err, Tx, ◌>>=◌, ◌>>◌, pure, fail, call}
use lets_go.Sql.Table.{find_row, update_where, affected}
use lets_go.Sql.Order.{order_by}
use lets_go.Content.Errors.{Text, Sentinel, Error}
use lets_go.Content.Tables.{Ident, Time, Delivery, Tables, delivery_key}

-- A `time.Duration` is a number of nanoseconds.
abbrev pub Duration : Type 0
Duration = ℕ

abbrev pub microseconds : Duration → ℕ
microseconds d = d / 1000

-- TIMESTAMPADD(MICROSECOND, us, NOW(3)), rounded to the column's milliseconds.
abbrev pub timestamp_add : ℕ → Time → Time
timestamp_add us now = (now * 1000 + us + 500) / 1000

abbrev pub on_deliveries :
    {A : Type 0} → (Time → List Delivery → A × List Delivery) → Tx Tables Error A
on_deliveries f =
    call Error.driver
      λ now t. let (a, rows) = f now t.deliveries in (a, record t { deliveries = rows })

-- An UPDATE, with its number of rows.
abbrev pub update_rows : (Time → Delivery → Bool) → (Time → Delivery → Delivery) → Tx Tables Error ℕ
update_rows p f =
    on_deliveries λ now rows. (affected (p now) rows, update_where (p now) (f now) rows)

abbrev pub new_delivery : Ident → Ident → Time → Delivery
new_delivery e c now = record {
  event_id = e;
  consumer_name = c;
  status = 1;
  attempt_count = 0;
  max_attempts = 10;
  next_attempt_at = now;
  claim_token = none;
  locked_until = none;
  last_error = [];
  completed_at = none;
}

-- Whether a row was added, by whether its key is free.
abbrev pub insert_if : Bool → Delivery → List Delivery → Bool × List Delivery
insert_if true r rows = (true, rows ++ r ∷ [])
insert_if false r rows = (false, rows)

abbrev pub insert_row : Ident → Ident → Time → List Delivery → Bool × List Delivery
insert_row e c now rows =
    insert_if (affected (delivery_key e c) rows == 0) (new_delivery e c now) rows

-- `InsertPending`: a second row of the same key is a duplicate entry, which the driver refuses.
unfoldable pub insert_pending : Ident → Ident → Tx Tables Error (Unit {0})
insert_pending e c = do
  inserted ← on_deliveries (insert_row e c)
  if inserted then pure tt else fail Error.driver

abbrev pub is_ready : Time → Delivery → Bool
is_ready now r = r.status == 1 && leb r.next_attempt_at now && ltb r.attempt_count r.max_attempts

abbrev pub by_attempt_time : Delivery → Delivery → Bool
by_attempt_time a b =
    ltb a.next_attempt_at b.next_attempt_at
    || a.next_attempt_at == b.next_attempt_at
      && (ltb a.event_id b.event_id
          || a.event_id == b.event_id && leb a.consumer_name b.consumer_name)

-- The rows of `FindReadyForUpdate`. `skip` are the rows that other transactions have locked.
abbrev pub ready_rows : (Delivery → Bool) → ℕ → Time → List Delivery → List Delivery
ready_rows skip limit now rows =
    take limit (order_by by_attempt_time (select (λ r. is_ready now r && not (skip r)) rows))

unfoldable pub find_ready_for_update : (Delivery → Bool) → ℕ → Tx Tables Error (List Delivery)
find_ready_for_update skip limit = on_deliveries λ now rows. (ready_rows skip limit now rows, rows)

-- A row that its claimant works on until the lease ends.
abbrev pub processing : Ident → Time → Delivery → Delivery
processing token until r = record r {
  status = 2;
  attempt_count = r.attempt_count + 1;
  claim_token = some token;
  locked_until = some until;
  completed_at = none;
}

abbrev pub lease_end : Option Delivery → Result Error Time
lease_end none = err (Error.sentinel Sentinel.not_found)
lease_end (some r) = elim r.locked_until [ none ↦ err Error.driver | some until ↦ ok until ]

abbrev pub lift_result : {T A : Type 0} → Result Error A → Tx T Error A
lift_result r s = (r, s)

-- What follows the UPDATE: no row is ErrNotFound, else SELECT locked_until.
pub read_lease_end : Ident → Ident → ℕ → Tx Tables Error Time
read_lease_end e c n = do
  row ←
      if n == 1
      then on_deliveries (λ now rows. (find_row (delivery_key e c) rows, rows))
      else fail (Error.sentinel Sentinel.not_found)
  lift_result (lease_end row)

unfoldable pub mark_processing : Ident → Ident → Ident → Duration → Tx Tables Error Time
unfolding read_lease_end
mark_processing e c token lease = do
  n ←
      update_rows (λ now r. delivery_key e c r && is_ready now r)
        (λ now. processing token (timestamp_add (microseconds lease) now))
  read_lease_end e c n

-- `FindClaimStateForUpdate`: the row, and whether its lease still runs.
abbrev pub lease_valid : Time → Delivery → Bool
lease_valid now r = elim r.locked_until [ none ↦ false | some until ↦ ltb now until ]

abbrev pub or_not_found : {A : Type 0} → Option A → Result Error A
or_not_found none = err (Error.sentinel Sentinel.not_found)
or_not_found (some a) = ok a

unfoldable pub find_claim_state : Ident → Ident → Tx Tables Error (Delivery × Bool)
find_claim_state e c = do
  found ← call Error.driver λ now t. (
    elim (find_row (delivery_key e c) t.deliveries) [
      | none ↦ none
      | some r ↦ some (r, lease_valid now r)
    ],
    t,
  )
  lift_result (or_not_found found)

-- AND status=2 AND claim_token=?
abbrev pub has_claim : Ident → Delivery → Bool
has_claim token r = r.status == 2 && holds r.claim_token token

unfoldable pub find_retry_state : Ident → Ident → Ident → Tx Tables Error Delivery
find_retry_state e c token = do
  found ←
      on_deliveries λ now rows. (find_row (λ r. delivery_key e c r && has_claim token r) rows, rows)
  lift_result (or_not_found found)

abbrev pub is_expired : Time → Delivery → Bool
is_expired now r =
    r.status == 2 && elim r.locked_until [ none ↦ false | some until ↦ leb until now ]

abbrev pub lock_time : Delivery → Time
lock_time r = elim r.locked_until [ none ↦ 0 | some until ↦ until ]

abbrev pub by_lock : Delivery → Delivery → Bool
by_lock a b =
    ltb (lock_time a) (lock_time b)
    || lock_time a == lock_time b
      && (ltb a.event_id b.event_id
          || a.event_id == b.event_id && leb a.consumer_name b.consumer_name)

abbrev pub expired_rows : (Delivery → Bool) → ℕ → Time → List Delivery → List Delivery
expired_rows skip limit now rows =
    take limit (order_by by_lock (select (λ r. is_expired now r && not (skip r)) rows))

unfoldable pub find_expired_for_update : (Delivery → Bool) → ℕ → Tx Tables Error (List Delivery)
find_expired_for_update skip limit =
    on_deliveries λ now rows. (expired_rows skip limit now rows, rows)

-- A row that its claimant has finished, under `status` 3, 4 or 5.
abbrev pub terminal : ℕ → Text → Time → Delivery → Delivery
terminal status cause now r = record r {
  status = status;
  claim_token = none;
  locked_until = none;
  last_error = cause;
  completed_at = some now;
}

-- A row that waits for its next attempt.
abbrev pub waiting : Text → Time → Delivery → Delivery
waiting cause next r = record r {
  status = 1;
  next_attempt_at = next;
  claim_token = none;
  locked_until = none;
  last_error = cause;
  completed_at = none;
}

unfoldable pub mark_terminal : Ident → Ident → Ident → ℕ → Tx Tables Error ℕ
mark_terminal e c token status =
    update_rows (λ now r. delivery_key e c r && has_claim token r) (terminal status [])

unfoldable pub mark_failed : Ident → Ident → Ident → Text → Tx Tables Error ℕ
mark_failed e c token cause =
    update_rows (λ now r. delivery_key e c r && has_claim token r) (terminal 5 cause)

unfoldable pub mark_pending : Ident → Ident → Ident → Text → Duration → Tx Tables Error ℕ
mark_pending e c token cause delay =
    update_rows (λ now r. delivery_key e c r && has_claim token r)
      (λ now. waiting cause (timestamp_add (microseconds delay) now))

-- AND status=2 AND claim_token=? AND locked_until<=NOW(3)
abbrev pub has_expired : Ident → Time → Delivery → Bool
has_expired token now r = has_claim token r && is_expired now r

unfoldable pub mark_expired_failed : Ident → Ident → Ident → Text → Tx Tables Error ℕ
mark_expired_failed e c token cause =
    update_rows (λ now r. delivery_key e c r && has_expired token now r) (terminal 5 cause)

unfoldable pub mark_expired_pending : Ident → Ident → Ident → Text → Tx Tables Error ℕ
mark_expired_pending e c token cause =
    update_rows (λ now r. delivery_key e c r && has_expired token now r) (waiting cause)
