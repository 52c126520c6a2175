-- ===== src/Content/Dispatch/Scanned.antt =====
-- Which events of the outbox `FindPendingForDispatch` (internal/model/outbox_event_model.go) selects.
use lets_go.Prelude.{
  ℕ, true, false, not, ◌&&◌, ltb, leb, ◌≤◌, ◌<◌, select, map-All, take-All, length-take, ◌≡◌, ◌⊎◌,
  inl, inr, Bool, List, [], ◌∷◌, arith, ◌==◌, Bool-cases, All, length,
}
use lets_go.Sql.Table.{affected, affected-take, affected-select, select-All}
use lets_go.Sql.Order.{order_by, affected-order, order-All}
use lets_go.Sql.Sorted.{In, Sorted, order-Sorted, take-Sorted, take-In, order-In, select-In}
use lets_go.Content.Tables.{Time, OutboxEvent}
use lets_go.Content.Dispatch.{by_event_time, pending_rows}

-- The order of the events: by the time of their next attempt, then by key.
abbrev pub Before : OutboxEvent → OutboxEvent → Type 0
Before a b =
    (a.next_attempt_at < b.next_attempt_at)
    ⊎ (a.next_attempt_at ≡ b.next_attempt_at) × (a.event_id ≤ b.event_id)

-- An event that is pending and due, and not locked by others.
abbrev pub Waits : (OutboxEvent → Bool) → Time → OutboxEvent → Type 0
Waits skip now r = (r.status ≡ 1) × (r.next_attempt_at ≤ now) × (skip r ≡ false)

-- The first `limit` events of the outbox that wait, in order, none more often than it is there: an
-- event that waits is left out only where the limit is used up by events before it.
pub record Scanned (skip : OutboxEvent → Bool) (limit : ℕ) (now : Time)
    (outbox source : List OutboxEvent) : Type 0 where
  pub waiting : All (Waits skip now) source
  pub there : (k : OutboxEvent → Bool) → affected k source ≤ affected k outbox
  pub in_order : Sorted Before source
  pub bounded : length source ≤ limit
  pub first :
      (r : OutboxEvent)
      → In r outbox
      → Waits skip now r
      → In r source ⊎ (length source ≡ limit) × All (λ a. Before a r) source

Before-trans : (a b c : OutboxEvent) → Before a b → Before b c → Before a c
Before-trans a b c h k = ground (arith, h, k)

by_event_time-Before : (a b : OutboxEvent) → by_event_time a b ≡ true → Before a b
by_event_time-Before a b h = elim (Bool-cases (ltb a.next_attempt_at b.next_attempt_at)) [
  | inl sooner ↦ inl (ground arith)
  | inr same ↦ inr (ground arith, ground arith)
]

by_event_time-after : (a b : OutboxEvent) → by_event_time a b ≡ false → Before b a
by_event_time-after a b h = elim (Bool-cases (ltb b.next_attempt_at a.next_attempt_at)) [
  | inl sooner ↦ inl (ground arith)
  | inr same ↦ inr (ground arith, ground arith)
]

everywhere : (rows : List OutboxEvent) → All (λ r. Unit {0}) rows
everywhere [] = tt
everywhere (r ∷ rows) = (tt, everywhere rows)

pub pending_rows-Scanned :
    (skip : OutboxEvent → Bool) (limit : ℕ) (now : Time) (outbox : List OutboxEvent)
    → Scanned skip limit now outbox (pending_rows skip limit now outbox)
pending_rows-Scanned skip limit now outbox = record {
  waiting =
      map-All _ (Waits skip now) (λ r h. (ground arith, ground arith, ground arith)) _
        (take-All _ limit _ (
          order-All _ by_event_time _
            (select-All (λ r. Unit {0}) wanted outbox (everywhere outbox))));
  there = λ k. omega (
    arith,
    affected-take k limit sorted,
    affected-order k by_event_time (select wanted outbox),
    affected-select k wanted outbox,
  );
  in_order = take-Sorted Before limit sorted in_order;
  bounded = length-take limit sorted;
  first = λ r there waits. take-In Before limit r sorted in_order (
      order-In by_event_time r (select wanted outbox)
        (select-In wanted r outbox there (ground arith)));
}
  where
    wanted : OutboxEvent → Bool
    wanted r = r.status == 1 && leb r.next_attempt_at now && not (skip r)

    sorted : List OutboxEvent
    sorted = order_by by_event_time (select wanted outbox)

    in_order : Sorted Before sorted
    in_order =
        order-Sorted Before by_event_time by_event_time-Before by_event_time-after Before-trans
          (select wanted outbox)
