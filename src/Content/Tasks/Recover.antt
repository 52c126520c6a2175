-- ===== src/Content/Tasks/Recover.antt =====
-- `RecoverExpired` (internal/respository/task.go): deliveries whose lease ran out are returned to
-- the queue, or failed where their attempts are used up.
use lets_go.Prelude.{
  ℕ, ◌+◌, Option, none, leb, ◌≤◌, ◌≡◌, refl, inl, inr, Bool, true, false, ◌&&◌, some, List, [],
  arith, ◌==◌, min, not, is_some, Bool-cases, All, map-All, both-All, length,
}
use lets_go.Sql.{Session}
use lets_go.Sql.Table.{find_row, affected}
use lets_go.Sql.Outcome.{Holds, Outcome, call_then, transact-Outcome, Holds-mono}
use lets_go.Content.Errors.{error_driver, Error}
use lets_go.Content.Tables.{Time, Delivery, Tables, delivery_key}
use lets_go.Content.Delivery.{is_expired, by_lock, find_expired_for_update, expired_rows}
use lets_go.Content.Delivery.Select.{find_self, selected-All, selected-IsUnique, length-selected}
use lets_go.Content.Delivery.Valid.{IsUnique, IsValid, IsValidRow}
use lets_go.Content.Tasks.{Database, RecoveryResult, recover_rows, recover_body, recover_expired}
use lets_go.Content.Tasks.Overdue.{RecoveredRows, Overdue, Counted, recover_rows-Holds}

-- A row of the table that is in processing under a lease that is over, and not locked by others.
abbrev pub Expired : (Delivery → Bool) → Time → List Delivery → Delivery → Type 0
Expired skip now rows k =
    (find_row (delivery_key k.event_id k.consumer_name) rows ≡ some k)
    × (k.status ≡ 2)
    × ((until : Time) × (k.locked_until ≡ some until) × (until ≤ now))
    × (skip k ≡ false)

lease_over :
    (now : Time) (k : Delivery)
    → is_expired now k ≡ true
    → (until : Time) × (k.locked_until ≡ some until) × (until ≤ now)
lease_over now k h = go k.locked_until refl
  where
    go :
        (lock : Option Time)
        → k.locked_until ≡ lock
        → (until : Time) × (k.locked_until ≡ some until) × (until ≤ now)
    go none e = let never : ⊥ = ground arith in elim never [ ]
    go (some until) e = (until, e, ground arith)

Overdue-Expired :
    (skip : Delivery → Bool) (now : Time) (rows : List Delivery) (k : Delivery)
    → Overdue now rows k × (skip k ≡ false)
    → Expired skip now rows k
Overdue-Expired skip now rows k ((held, over, token), free) =
    (held, ground arith, lease_over now k over, free)

-- A committed batch: the rows it found, when it found them, what became of them and the counts.
pub record Recovery (skip : Delivery → Bool) (limit : ℕ) (before after : Tables)
    (result : RecoveryResult) : Type 0 where
  pub source : List Delivery
  pub now : Time
  pub expired : All (Expired skip now before.deliveries) source
  pub distinct : IsUnique source
  pub bounded : result.scanned ≤ min limit 500
  pub recovered : RecoveredRows source before after
  pub scanned : result.scanned ≡ length source
  pub split : result.scanned ≡ result.recovered + result.failed
  pub failed : result.failed ≡ affected (λ r. leb r.max_attempts r.attempt_count) source

abbrev wanted : (Delivery → Bool) → Time → Delivery → Bool
wanted skip now r = is_expired now r && not (skip r)

expired_rows-Overdue :
    (skip : Delivery → Bool) (limit : ℕ) (now : Time) (rows : List Delivery)
    → IsValid rows
    → All (λ k. Overdue now rows k × (skip k ≡ false)) (expired_rows skip limit now rows)
expired_rows-Overdue skip limit now rows v =
    map-All _ _ (λ r h. ((h.0.0, ground arith, token r h.0.1 (ground arith)), ground arith)) _
      (selected-All (wanted skip now) by_lock limit rows _
        (both-All _ IsValidRow rows (find_self rows v.unique) v.checked))
  where
    token : (r : Delivery) → IsValidRow r → r.status ≡ 2 → is_some r.claim_token ≡ true
    token r valid h = ground arith

recover_body-Holds :
    (R : Error → Type 0) (skip : Delivery → Bool) (limit : ℕ) (s : Session Tables)
    → R Error.driver
    → IsValid s.tables.deliveries
    → Holds
        (λ result s'. Recovery skip limit s.tables s'.tables result)
        R
        (recover_body skip (min limit 500) s)
unfolding recover_body find_expired_for_update
recover_body-Holds R skip limit s refused v =
    call_then R Error.driver _
      (λ rows. recover_rows (record { scanned = length rows; recovered = 0; failed = 0 }) rows)
      (λ result s'. Recovery skip limit s.tables s'.tables result) s refused
      λ now ms later.
        let rows = expired_rows skip (min limit 500) now s.tables.deliveries in
        let overdue = expired_rows-Overdue skip (min limit 500) now s.tables.deliveries v in
        let distinct =
          selected-IsUnique (wanted skip now) by_lock (min limit 500) s.tables.deliveries
            v.unique in
        let short = length-selected (wanted skip now) by_lock (min limit 500) s.tables.deliveries in
        let start : RecoveryResult = record { scanned = length rows; recovered = 0; failed = 0 } in
        Holds-mono (λ result s'. RecoveredRows rows s.tables s'.tables × Counted start rows result)
          (λ result s'. Recovery skip limit s.tables s'.tables result) R R _
          (λ result s' (h, counted). record {
            source = rows;
            now = now;
            expired =
                map-All _ (Expired skip now s.tables.deliveries)
                  (Overdue-Expired skip now s.tables.deliveries) rows overdue;
            distinct = distinct;
            bounded = omega (arith, short, counted.0);
            recovered = h;
            scanned = counted.0;
            split = omega (arith, counted.0, counted.1, counted.2);
            failed = omega (arith, counted.1);
          })
          (λ e r. r)
          (recover_rows-Holds R start rows _ refused v.unique distinct
            (map-All _ _ (λ k h. h.0) rows overdue))

pub recover-Outcome :
    (db : Database) (skip : Delivery → Bool) (limit : ℕ) (s : Session Tables)
    → IsValid s.tables.deliveries
    → Outcome
        (λ result t. Recovery skip limit s.tables t result)
        (λ e. e ≡ Error.driver)
        s.tables
        (recover_expired db skip limit s)
unfolding recover_expired
recover-Outcome db skip limit s v = elim (Bool-cases (limit == 0)) [
  | inl none_wanted ↦ rw none_wanted (record {
    source = [];
    now = s.now;
    expired = tt;
    distinct = λ e c. omega arith;
    bounded = omega arith;
    recovered = record { rows = tt; untouched = λ e c p. refl; frame = refl; valid = λ w. w };
    scanned = refl;
    split = omega arith;
    failed = refl;
  })
  | inr some_wanted ↦ rw some_wanted (
      transact-Outcome db (λ result t. Recovery skip limit s.tables t result)
        (λ e. e ≡ Error.driver) (recover_body skip (min limit 500)) s refl
        (recover_body-Holds (λ e. e ≡ Error.driver) skip limit s refl v))
]
