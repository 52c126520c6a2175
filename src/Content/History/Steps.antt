-- ===== src/Content/History/Steps.antt =====
-- Each call of the repositories is safe for the deliveries, and so is every history of calls.
use lets_go.Prelude.{ℕ, ◌≤◌, ◌≡◌, ◌∙◌, ◌⊎◌, inl, inr, Option, arith, map-All, ap, Bool-cases, []}
use lets_go.Sql.{Session, Result, ok, err}
use lets_go.Sql.Outcome.{Outcome}
use lets_go.Content.Errors.{error_driver, Text, Sentinel, Error, errors_is}
use lets_go.Content.Tables.{Tables, delivery_key}
use lets_go.Content.Delivery.Valid.{IsValid, terminal-Keeps}
use lets_go.Content.Tasks.{ClaimedTask, Database, Handler, settle_result, context_of}
use lets_go.Content.Tasks.Rules.{Outcome-keeps, Outcome-mono}
use lets_go.Content.Tasks.Grant.{Grant, claim-Outcome}
use lets_go.Content.Tasks.Execute.{Execution, execute-Outcome}
use lets_go.Content.Tasks.Retry.{Rescheduled, retry-Outcome}
use lets_go.Content.Tasks.Recover.{Recovery, recover-Outcome}
use lets_go.Content.Dispatch.{no_events}
use lets_go.Content.Dispatch.FanOut.{Fanned, fan_out-Outcome}
use lets_go.Content.History.{Call, perform, IsApart, IsAllowed, Reached, start, next}
use lets_go.Content.History.Safe.{
  Safe, Safe-refl, Safe-trans, Safe-rows, Safe-Changed, Safe-update, find-append,
}

-- A call is safe where its commits are.
Safe-of :
    {A : Type 0} (Q : A → Tables → Type 0) (R : Error → Type 0) (t : Tables)
    (r : Result Error A × Session Tables)
    → ((a : A) (t' : Tables) → Q a t' → Safe t.deliveries t'.deliveries)
    → Outcome Q R t r
    → Safe t.deliveries r.1.tables.deliveries
Safe-of Q R t r commits o =
    Outcome-keeps (λ t'. Safe t.deliveries t'.deliveries) R t r (Safe-refl t.deliveries)
      (Outcome-mono Q (λ a t'. Safe t.deliveries t'.deliveries) R R t r commits (λ e h. h) o)

-- The handler's answer becomes the status succeeded or superseded, and the handler's tables stay.
settled_status :
    (r : Result Error (Unit {0}) × Session Tables) (status : ℕ) (s' : Session Tables)
    → settle_result r ≡ (ok status, s')
    → ((3 ≤ status) × (status ≤ 4)) × (s' ≡ r.1)
settled_status (ok done, s1) status s' h =
    let three : 3 ≡ status = cc in let same : s' ≡ s1 = cc in ((omega arith, omega arith), same)
settled_status (err e, s1) status s' h = elim (Bool-cases (errors_is e Sentinel.superseded)) [
  | inl over ↦
      let h' = rw over at h in
      let four : 4 ≡ status = cc in let same : s' ≡ s1 = cc in ((omega arith, omega arith), same)
  | inr other ↦ let h' = rw other at h in cc
]

-- What a committed execution found and settled.
pub Execution-kept :
    (decode_header : Text → Option ℕ) (apply : Handler) (task : ClaimedTask) (before after : Tables)
    → IsApart apply
    → (x : Execution decode_header apply task before after)
    → (x.finish.tables.deliveries ≡ before.deliveries) × ((3 ≤ x.status) × (x.status ≤ 4))
Execution-kept decode_header apply task before after apart x =
    let (range, same) =
      settled_status (apply (context_of task x.source x.version) x.start) x.status x.finish
        x.settled in
    (
      ap (λ (s : Session Tables). s.tables.deliveries) same
          ∙ apart (context_of task x.source x.version) x.start
          ∙ ap (λ (t : Tables). t.deliveries) x.from,
      range,
    )

pub Execution-Safe :
    (decode_header : Text → Option ℕ) (apply : Handler) (task : ClaimedTask) (before after : Tables)
    → IsApart apply
    → Execution decode_header apply task before after
    → Safe before.deliveries after.deliveries
Execution-Safe decode_header apply task before after apart x =
    let (kept, range) = Execution-kept decode_header apply task before after apart x in
    rw (x.stored, kept)
      (Safe-update task.event_id task.consumer_name task.claim_token before.deliveries
        (terminal-Keeps _ x.status [] x.now range.0 (omega (arith, range.1))))

perform-Safe :
    (db : Database) (c : Call) (s : Session Tables)
    → IsAllowed c
    → IsValid s.tables.deliveries
    → Safe s.tables.deliveries (perform db c s).tables.deliveries
unfolding perform
perform-Safe db (Call.claims tokens skip limit lease) s allowed v =
    Safe-of _ _ s.tables _
      (λ tasks t (g : Grant tokens lease skip limit s.tables t tasks).
        Safe-rows _ _ g.source g.claimed.valid
          (map-All _ _ (λ k h. (h.0, ground arith)) _ g.offered) g.claimed.untouched)
      (claim-Outcome db tokens skip limit lease s v)
perform-Safe db (Call.executes decode_header apply task) s apart v =
    Safe-of _ _ s.tables _
      (λ done t (x : Execution decode_header apply task s.tables t).
        Execution-Safe decode_header apply task s.tables t apart x)
      (execute-Outcome db decode_header apply task s)
perform-Safe db (Call.retries describe jitter task cause base is_permanent) s allowed v =
    Safe-of _ _ s.tables _
      (λ done t (h : Rescheduled describe jitter task cause base is_permanent s.tables t).
        Safe-Changed task.event_id task.consumer_name task.claim_token h.row _ s.tables t h.changed
          h.held h.claimed)
      (retry-Outcome db describe jitter task cause base is_permanent s v)
perform-Safe db (Call.recovers skip limit) s allowed v =
    Safe-of _ _ s.tables _
      (λ result t (h : Recovery skip limit s.tables t result).
        Safe-rows _ _ h.source h.recovered.valid
          (map-All _ _ (λ k p. (p.0, ground arith)) _ h.expired) h.recovered.untouched)
      (recover-Outcome db skip limit s v)
perform-Safe db (Call.fans_out skip limit resolver) s allowed v =
    Safe-of _ _ s.tables _
      (λ result t
          (h : (limit ≡ 0) × (result ≡ no_events) × (t ≡ s.tables)
            ⊎ Fanned resolver skip limit s.tables t result).
        elim h [
          | inl (none_wanted, no_result, same) ↦ rw same (Safe-refl s.tables.deliveries)
          | inr fanned ↦ record {
            valid = fanned.added.valid;
            final = λ e c r found f.
                rw fanned.added.deliveries
                  (find-append (delivery_key e c) s.tables.deliveries fanned.added.rows r found);
          }
        ])
      (fan_out-Outcome db skip limit resolver s)

-- Whatever is called in whatever order, at any times and with any faults, and the handlers leave
-- the deliveries alone: if the constraints of event_delivery hold at first, then they hold at the
-- end, and every delivery that was final is there unchanged.
pub history-Safe :
    (db : Database) (t u : Tables)
    → IsValid t.deliveries
    → Reached db t u
    → Safe t.deliveries u.deliveries
history-Safe db t u v start = Safe-refl t.deliveries
history-Safe db t _ v (next u c now script before allowed) =
    let h = history-Safe db t u v before in
    Safe-trans _ _ _ h
      (perform-Safe db c (record { tables = u; now = now; script = script }) allowed (h.valid v))
