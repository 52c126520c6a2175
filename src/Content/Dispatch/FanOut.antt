-- ===== src/Content/Dispatch/FanOut.antt =====
-- What a committed `FanOut` has done to the outbox and to the deliveries.
use lets_go.Prelude.{
  ℕ, suc, ◌+◌, ◌≡◌, refl, ◌⊎◌, inl, inr, Bool, some, List, [], ◌∷◌, ◌++◌, map, arith, ◌==◌, min,
  Bool-cases, All, length, length-append,
}
use mathlib.Core.List.{append-nil}
use lets_go.Sql.{Session, ◌>>◌, pure}
use lets_go.Sql.Table.{affected}
use lets_go.Sql.Outcome.{Holds, Outcome, bind-Holds, call_then, transact-Outcome, Holds-mono}
use lets_go.Content.Errors.{error_driver, Message, Error}
use lets_go.Content.Tables.{Ident, Time, OutboxEvent, Tables}
use lets_go.Content.Tasks.{Database}
use lets_go.Content.Dispatch.{
  DispatchResult, Resolver, consumers_of, is_pending, dispatched, dispatch_failed, mark_dispatched,
  mark_dispatch_failed, finish_event, insert_all, dispatch_event, dispatch_events, no_events,
  find_pending_for_dispatch, pending_rows, fan_out_body, fan_out,
}
use lets_go.Content.Dispatch.Added.{
  Added, Added-refl, Added-trans, Inserted, insert_all-Holds, mark-Holds,
}
use lets_go.Content.Dispatch.Scanned.{Scanned, pending_rows-Scanned}

-- The keys that the specification asks for: each event, in order, with each of its consumers.
abbrev pub pairs : Resolver → List OutboxEvent → List (Ident × Ident)
pairs resolver [] = []
pairs resolver (source ∷ events) =
    map (λ c. (source.event_id, c)) (consumers_of resolver source) ++ pairs resolver events

-- What one event adds to the counters.
abbrev pub counted : List Ident → DispatchResult → DispatchResult
counted [] r = record r { failed_events = r.failed_events + 1 }
counted (c ∷ cs) r = record r {
  dispatched_events = r.dispatched_events + 1;
  created_tasks = r.created_tasks + length (c ∷ cs);
}

abbrev DispatchedOne :
    Ident → List Ident → DispatchResult → Session Tables → DispatchResult → Session Tables → Type 0
DispatchedOne e cs start s result s' =
    Added (map (λ c. (e, c)) cs) s.tables s'.tables
    × (affected (is_pending e) s'.tables.outbox ≡ 0)
    × (result ≡ counted cs start)

dispatch_event-Holds :
    (R : Error → Type 0) (source : OutboxEvent) (cs : List Ident) (start : DispatchResult)
    (s : Session Tables)
    → R Error.driver
    → R (Error.wrapped (Error.message Message.one_row_expected))
    → Holds (DispatchedOne source.event_id cs start s) R (dispatch_event source cs start s)
unfolding dispatch_event
dispatch_event-Holds R source [] start s refused missing =
    bind-Holds R (finish_event (mark_dispatch_failed source.event_id))
      (λ _. pure (record start { failed_events = start.failed_events + 1 }))
      (λ _ s'.
        Added [] s.tables s'.tables × (affected (is_pending source.event_id) s'.tables.outbox ≡ 0))
      (DispatchedOne source.event_id [] start s) s
      (mark-Holds R source.event_id (mark_dispatch_failed source.event_id) (λ _. dispatch_failed) s
        refused missing (λ now r. (refl, refl)) (unfold mark_dispatch_failed in refl))
      λ _ s' (added, settled). (added, settled, refl)
dispatch_event-Holds R source (c ∷ cs) start s refused missing =
    bind-Holds R (insert_all source.event_id (c ∷ cs) start)
      (λ inserted.
        finish_event (mark_dispatched source.event_id)
        >> pure (record inserted { dispatched_events = inserted.dispatched_events + 1 }))
      (Inserted source.event_id (c ∷ cs) start s) (DispatchedOne source.event_id (c ∷ cs) start s) s
      (insert_all-Holds R source.event_id (c ∷ cs) start s refused)
      λ inserted s' (added, count).
        bind-Holds R (finish_event (mark_dispatched source.event_id))
          (λ _. pure (record inserted { dispatched_events = inserted.dispatched_events + 1 }))
          (λ _ s''.
            Added [] s'.tables s''.tables
            × (affected (is_pending source.event_id) s''.tables.outbox ≡ 0))
          (DispatchedOne source.event_id (c ∷ cs) start s) s'
          (mark-Holds R source.event_id (mark_dispatched source.event_id) dispatched s' refused
            missing (λ now r. (refl, refl)) (unfold mark_dispatched in refl))
          λ _ s'' (marked, settled). (
            rw append-nil at (
                Added-trans (map (λ c. (source.event_id, c)) (c ∷ cs)) [] s.tables s'.tables
                  s''.tables added marked),
            settled,
            ground arith,
          )

abbrev pub count_all : Resolver → List OutboxEvent → DispatchResult → DispatchResult
count_all resolver [] r = r
count_all resolver (source ∷ events) r =
    count_all resolver events (counted (consumers_of resolver source) r)

-- No event of the list is left pending.
abbrev pub Settled : List OutboxEvent → Tables → Type 0
Settled events t = All (λ source. affected (is_pending source.event_id) t.outbox ≡ 0) events

abbrev DispatchedAll :
    Resolver
    → List OutboxEvent
    → DispatchResult
    → Session Tables
    → DispatchResult
    → Session Tables
    → Type 0
DispatchedAll resolver events start s result s' =
    Added (pairs resolver events) s.tables s'.tables
    × Settled events s'.tables
    × (result ≡ count_all resolver events start)

dispatch_events-Holds :
    (R : Error → Type 0) (resolver : Resolver) (events : List OutboxEvent) (start : DispatchResult)
    (s : Session Tables)
    → R Error.driver
    → R (Error.wrapped (Error.message Message.one_row_expected))
    → Holds (DispatchedAll resolver events start s) R (dispatch_events resolver events start s)
unfolding dispatch_events
dispatch_events-Holds R resolver [] start s refused missing = (Added-refl s.tables, tt, refl)
dispatch_events-Holds R resolver (source ∷ events) start s refused missing =
    bind-Holds R (dispatch_event source (consumers_of resolver source) start)
      (dispatch_events resolver events)
      (DispatchedOne source.event_id (consumers_of resolver source) start s)
      (DispatchedAll resolver (source ∷ events) start s) s
      (dispatch_event-Holds R source (consumers_of resolver source) start s refused missing)
      λ next s' (added, settled, count).
        Holds-mono (DispatchedAll resolver events next s')
          (DispatchedAll resolver (source ∷ events) start s) R R
          (dispatch_events resolver events next s')
          (λ result s'' (rest, others, total). (
            Added-trans _ (pairs resolver events) s.tables s'.tables s''.tables added rest,
            (omega (arith, rest.outbox source.event_id), others),
            rw (← count) total,
          ))
          (λ x r. r) (dispatch_events-Holds R resolver events next s' refused missing)

-- A committed call: the events that were scanned, and when.
pub record Fanned (resolver : Resolver) (skip : OutboxEvent → Bool) (limit : ℕ)
    (before after : Tables) (result : DispatchResult) : Type 0 where
  pub source : List OutboxEvent
  pub now : Time
  pub scanned : Scanned skip (min limit 500) now before.outbox source
  pub added : Added (pairs resolver source) before after
  pub settled : Settled source after
  pub counts :
      result ≡ count_all resolver source (record no_events { scanned_events = length source })

length-map : {A B : Type 0} (f : A → B) (xs : List A) → length (map f xs) ≡ length xs
length-map f [] = refl
length-map f (x ∷ xs) = omega (arith, length-map f xs)

-- The counters of `FanOut` over any events: each event is counted once, as dispatched or as failed,
-- on top of the counters at the start; the tasks created are as many as the pairs of an event and
-- one of its consumers; and the number of scanned events is the one at the start.
pub split_all :
    (resolver : Resolver) (events : List OutboxEvent) (start : DispatchResult)
    → let r = count_all resolver events start in
      (r.dispatched_events + r.failed_events
        ≡ start.dispatched_events + start.failed_events + length events)
      × (r.created_tasks ≡ start.created_tasks + length (pairs resolver events))
      × (r.scanned_events ≡ start.scanned_events)
split_all resolver [] start = omega arith
split_all resolver (source ∷ events) start =
    go (consumers_of resolver source) (split_all resolver events)
  where
    go :
        (cs : List Ident)
        → ((start' : DispatchResult)
            → let r = count_all resolver events start' in
              (r.dispatched_events + r.failed_events
                ≡ start'.dispatched_events + start'.failed_events + length events)
              × (r.created_tasks ≡ start'.created_tasks + length (pairs resolver events))
              × (r.scanned_events ≡ start'.scanned_events))
        → let r = count_all resolver events (counted cs start) in
          (r.dispatched_events + r.failed_events
            ≡ start.dispatched_events + start.failed_events + suc (length events))
          × (r.created_tasks
              ≡ start.created_tasks
                + length (map (λ c. (source.event_id, c)) cs ++ pairs resolver events))
          × (r.scanned_events ≡ start.scanned_events)
    go [] ih = let h = ih (counted [] start) in (omega (arith, h.0), h.1, h.2)
    go (c ∷ cs) ih =
        let h = ih (counted (c ∷ cs) start) in
        let n = length-append (map (λ c. (source.event_id, c)) (c ∷ cs)) (pairs resolver events) in
        let m = length-map {B = Ident × Ident} (λ x. (source.event_id, x)) (c ∷ cs) in
        (omega (arith, h.0), omega (arith, h.1, n, m), h.2)

abbrev pub FanOutError : Error → Type 0
FanOutError e = (e ≡ Error.driver) ⊎ (e ≡ Error.wrapped (Error.message Message.one_row_expected))

fan_out_body-Holds :
    (skip : OutboxEvent → Bool) (limit : ℕ) (resolver : Resolver) (s : Session Tables)
    → Holds
        (λ result s'. Fanned resolver skip limit s.tables s'.tables result)
        FanOutError
        (fan_out_body resolver skip (min limit 500) s)
unfolding fan_out_body find_pending_for_dispatch
fan_out_body-Holds skip limit resolver s =
    call_then FanOutError Error.driver _
      (λ events.
        dispatch_events resolver events (record no_events { scanned_events = length events }))
      (λ result s'. Fanned resolver skip limit s.tables s'.tables result) s (inl refl)
      λ now ms later.
        let source = pending_rows skip (min limit 500) now s.tables.outbox in
        let start : DispatchResult = record no_events { scanned_events = length source } in
        let s' : Session Tables = record { tables = s.tables; now = now; script = ms } in
        Holds-mono (DispatchedAll resolver source start s')
          (λ result s''. Fanned resolver skip limit s.tables s''.tables result) FanOutError
          FanOutError _
          (λ result s'' h. record {
            source = source;
            now = now;
            scanned = pending_rows-Scanned skip (min limit 500) now s.tables.outbox;
            added = h.0;
            settled = h.1;
            counts = h.2;
          })
          (λ e h. h)
          (dispatch_events-Holds FanOutError resolver source start s' (inl refl) (inr refl))

-- A limit that is not positive asks for nothing.
abbrev pub FannedOut :
    Resolver → (OutboxEvent → Bool) → ℕ → Tables → Tables → DispatchResult → Type 0
FannedOut resolver skip limit before after result =
    (limit ≡ 0) × (result ≡ no_events) × (after ≡ before)
    ⊎ Fanned resolver skip limit before after result

pub fan_out-Outcome :
    (db : Database) (skip : OutboxEvent → Bool) (limit : ℕ) (resolver : Resolver)
    (s : Session Tables)
    → Outcome
        (λ result t. FannedOut resolver skip limit s.tables t result)
        FanOutError
        s.tables
        (fan_out db skip limit (some resolver) s)
unfolding fan_out
fan_out-Outcome db skip limit resolver s = elim (Bool-cases (limit == 0)) [
  | inl none_wanted ↦ rw none_wanted (inl (ground arith, refl, refl))
  | inr wanted ↦ rw wanted (
      transact-Outcome db _ _ (fan_out_body resolver skip (min limit 500)) s (inl refl) (
        Holds-mono (λ result s'. Fanned resolver skip limit s.tables s'.tables result) _ FanOutError
          FanOutError _ (λ result s' h. inr h) (λ e h. h)
          (fan_out_body-Holds skip limit resolver s)))
]
