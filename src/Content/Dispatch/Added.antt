-- ===== src/Content/Dispatch/Added.antt =====
-- The rows that a transaction of `FanOut` adds, and what becomes of an event's own row.
use lets_go.Prelude.{
  ℕ, ◌+◌, ◌≤◌, ◌≡◌, refl, sym, ◌∙◌, inl, inr, Bool, true, false, List, [], ◌∷◌, ◌++◌, map, arith,
  ◌==◌, if◌then◌else◌, Bool-cases, All, length, append-All,
}
use mathlib.Core.List.{append_assoc, append-nil, map-append}
use lets_go.Sql.{Moment, Session, pure, fail, call}
use lets_go.Sql.Table.{update_where, affected}
use lets_go.Sql.Outcome.{Holds, bind-Holds, call_then, Holds-mono}
use lets_go.Content.Errors.{Message, Error}
use lets_go.Content.Tables.{Ident, Time, Delivery, OutboxEvent, Tables, delivery_key}
use lets_go.Content.Delivery.{new_delivery, insert_if, insert_pending}
use lets_go.Content.Delivery.Valid.{IsValid, insert-IsValid}
use lets_go.Content.Tasks.{TaskTx}
use lets_go.Content.Dispatch.{DispatchResult, is_pending, require_one_row, finish_event, insert_all}

abbrev pub key_of : Delivery → Ident × Ident
key_of r = (r.event_id, r.consumer_name)

-- A row as `InsertPending` leaves it.
abbrev pub IsFresh : Delivery → Type 0
IsFresh r = (now : Time) × (r ≡ new_delivery r.event_id r.consumer_name now)

-- The rows that have been added, and what else is known of the tables.
pub record Added (keys : List (Ident × Ident)) (before after : Tables) : Type 0 where
  pub rows : List Delivery
  pub deliveries : after.deliveries ≡ before.deliveries ++ rows
  pub keys_match : map key_of rows ≡ keys
  pub fresh : All IsFresh rows
  pub valid : IsValid before.deliveries → IsValid after.deliveries
  -- No event becomes pending again.
  pub outbox :
      (e : Ident) → affected (is_pending e) after.outbox ≤ affected (is_pending e) before.outbox
  pub frame : after ≡ record before { deliveries = after.deliveries; outbox = after.outbox }

pub Added-refl : (t : Tables) → Added [] t t
Added-refl t = record {
  rows = [];
  deliveries = sym (append-nil t.deliveries);
  keys_match = refl;
  fresh = tt;
  valid = λ v. v;
  outbox = λ e. omega arith;
  frame = refl;
}

pub Added-trans :
    (xs ys : List (Ident × Ident)) (t u v : Tables)
    → Added xs t u
    → Added ys u v
    → Added (xs ++ ys) t v
Added-trans xs ys t u v h k = record {
  rows = h.rows ++ k.rows;
  deliveries = rw (k.deliveries, h.deliveries) (append_assoc t.deliveries h.rows k.rows);
  keys_match = rw (map-append, h.keys_match, k.keys_match) refl;
  fresh = append-All IsFresh h.rows k.rows h.fresh k.fresh;
  valid = λ w. k.valid (h.valid w);
  outbox = λ e. omega (arith, h.outbox e, k.outbox e);
  frame = k.frame ∙ rw h.frame refl;
}

pub insert_pending-Holds :
    (R : Error → Type 0) (e c : Ident) (s : Session Tables)
    → R Error.driver
    → Holds (λ _ s'. Added ((e, c) ∷ []) s.tables s'.tables) R (insert_pending e c s)
unfolding insert_pending
insert_pending-Holds R e c s refused =
    call_then R Error.driver _ (λ inserted. if inserted then pure tt else fail Error.driver)
      (λ _ s'. Added ((e, c) ∷ []) s.tables s'.tables) s refused
      λ now ms later. go now ms (affected (delivery_key e c) s.tables.deliveries == 0) refl
  where
    go :
        (now : Time) (ms : List Moment) (b : Bool)
        → (affected (delivery_key e c) s.tables.deliveries == 0) ≡ b
        → let (inserted, rows) = insert_if b (new_delivery e c now) s.tables.deliveries in
          Holds
            (λ _ s'. Added ((e, c) ∷ []) s.tables s'.tables)
            R
            ((if inserted then pure tt else fail Error.driver)
              (record { tables = record s.tables { deliveries = rows }; now = now; script = ms }))
    go now ms true free = record {
      rows = new_delivery e c now ∷ [];
      deliveries = refl;
      keys_match = refl;
      fresh = ((now, refl), tt);
      valid = λ v. rw free at (insert-IsValid e c now s.tables.deliveries v);
      outbox = λ e'. omega arith;
      frame = refl;
    }
    go now ms false taken = refused

-- The rows for one event, and the count of them.
abbrev pub Inserted :
    Ident → List Ident → DispatchResult → Session Tables → DispatchResult → Session Tables → Type 0
Inserted e cs start s result s' =
    Added (map (λ c. (e, c)) cs) s.tables s'.tables
    × (result ≡ record start { created_tasks = start.created_tasks + length cs })

pub insert_all-Holds :
    (R : Error → Type 0) (e : Ident) (cs : List Ident) (start : DispatchResult) (s : Session Tables)
    → R Error.driver
    → Holds (Inserted e cs start s) R (insert_all e cs start s)
unfolding insert_all
insert_all-Holds R e [] start s refused = (Added-refl s.tables, ground arith)
insert_all-Holds R e (c ∷ cs) start s refused =
    bind-Holds R (insert_pending e c)
      (λ _. insert_all e cs (record start { created_tasks = start.created_tasks + 1 }))
      (λ _ s'. Added ((e, c) ∷ []) s.tables s'.tables) (Inserted e (c ∷ cs) start s) s
      (insert_pending-Holds R e c s refused)
      λ _ s' one.
        Holds-mono (Inserted e cs (record start { created_tasks = start.created_tasks + 1 }) s')
          (Inserted e (c ∷ cs) start s) R R
          (insert_all e cs (record start { created_tasks = start.created_tasks + 1 }) s')
          (λ result s'' (rest, counted). (
            Added-trans ((e, c) ∷ []) (map (λ c. (e, c)) cs) s.tables s'.tables s''.tables one rest,
            ground arith,
          ))
          (λ x r. r)
          (insert_all-Holds R e cs (record start { created_tasks = start.created_tasks + 1 }) s'
            refused)

pub pending_settled :
    (e : Ident) (f : OutboxEvent → OutboxEvent)
    → ((r : OutboxEvent) → ((f r).event_id ≡ r.event_id) × (((f r).status == 1) ≡ false))
    → (rows : List OutboxEvent) (e' : Ident)
    → (affected (is_pending e) (update_where (is_pending e) f rows) ≡ 0)
      × (affected (is_pending e') (update_where (is_pending e) f rows)
          ≤ affected (is_pending e') rows)
pending_settled e f h [] e' = (refl, omega arith)
pending_settled e f h (r ∷ rows) e' = ground (arith, h r, pending_settled e f h rows e')

pub mark-Holds :
    (R : Error → Type 0) (e : Ident) (mark : TaskTx ℕ) (f : Time → OutboxEvent → OutboxEvent)
    (s : Session Tables)
    → R Error.driver
    → R (Error.wrapped (Error.message Message.one_row_expected))
    → ((now : Time) (r : OutboxEvent)
        → ((f now r).event_id ≡ r.event_id) × (((f now r).status == 1) ≡ false))
    → mark
      ≡ call Error.driver (λ now t. (
        affected (is_pending e) t.outbox,
        record t { outbox = update_where (is_pending e) (f now) t.outbox },
      ))
    → Holds
        (λ _ s'. Added [] s.tables s'.tables × (affected (is_pending e) s'.tables.outbox ≡ 0))
        R
        (finish_event mark s)
mark-Holds R e mark f s refused missing final same = rw same (
    call_then R Error.driver _ require_one_row
      (λ _ s'. Added [] s.tables s'.tables × (affected (is_pending e) s'.tables.outbox ≡ 0)) s
      refused
      λ now ms later. elim (Bool-cases (affected (is_pending e) s.tables.outbox == 1)) [
        | inl one ↦ rw one (
          record {
            rows = [];
            deliveries = sym (append-nil s.tables.deliveries);
            keys_match = refl;
            fresh = tt;
            valid = λ v. v;
            outbox = λ e'. (pending_settled e (f now) (final now) s.tables.outbox e').1;
            frame = refl;
          },
          (pending_settled e (f now) (final now) s.tables.outbox e).0,
        )
        | inr other ↦ rw other missing
      ])
