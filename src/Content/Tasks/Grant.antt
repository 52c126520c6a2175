-- ===== src/Content/Tasks/Grant.antt =====
-- What a call of `Claim` has done when it returns.
use lets_go.Prelude.{
  ℕ, suc, ◌≤◌, ◌<◌, some, ◌≡◌, refl, ◌⊎◌, inl, inr, Bool, false, ◌&&◌, List, [], ◌∷◌, arith, ◌==◌,
  min, Bool-cases, All, map-All, length, not,
}
use lets_go.Sql.{Session}
use lets_go.Sql.Table.{find_row}
use lets_go.Sql.Outcome.{Holds, Outcome, call_then, transact-Outcome, Holds-mono}
use lets_go.Content.Errors.{error_driver, Message, Error}
use lets_go.Content.Tables.{Ident, Time, Delivery, Tables, delivery_key}
use lets_go.Content.Delivery.{
  Duration, is_ready, by_attempt_time, ready_rows, find_ready_for_update,
}
use lets_go.Content.Delivery.Select.{find_self, selected-All, selected-IsUnique, length-selected}
use lets_go.Content.Delivery.Valid.{IsUnique, IsValid}
use lets_go.Content.Tasks.{ClaimedTask, Database, claim_rows, claim_body, claim}
use lets_go.Content.Tasks.Claim.{Claimed, ClaimedRows, Claimable, claim_rows-Holds}

-- A row of the table that is pending, due, has attempts left and is not locked by others.
abbrev pub Offered : (Delivery → Bool) → Time → List Delivery → Delivery → Type 0
Offered skip now rows k =
    (find_row (delivery_key k.event_id k.consumer_name) rows ≡ some k)
    × (k.status ≡ 1)
    × (k.next_attempt_at ≤ now)
    × (k.attempt_count < k.max_attempts)
    × (skip k ≡ false)

-- What `FindReadyForUpdate` selects.
abbrev wanted : (Delivery → Bool) → Time → Delivery → Bool
wanted skip now r = is_ready now r && not (skip r)

ready_rows-Offered :
    (skip : Delivery → Bool) (limit : ℕ) (now : Time) (rows : List Delivery)
    → IsUnique rows
    → All (Offered skip now rows) (ready_rows skip limit now rows)
ready_rows-Offered skip limit now rows u =
    map-All _ (Offered skip now rows)
      (λ r h. (h.0, ground arith, ground arith, ground arith, ground arith)) _
      (selected-All (wanted skip now) by_attempt_time limit rows _ (find_self rows u))

-- The rows that were claimed, when they were selected, and what became of them.
pub record Grant (tokens : ℕ → Ident) (lease : Duration) (skip : Delivery → Bool) (limit : ℕ)
    (before after : Tables) (tasks : List ClaimedTask) : Type 0 where
  pub source : List Delivery
  pub now : Time
  pub offered : All (Offered skip now before.deliveries) source
  pub distinct : IsUnique source
  pub bounded : length tasks ≤ min limit 100
  pub claimed : ClaimedRows tokens now lease 0 source before after tasks

length-Claimed :
    (tokens : ℕ → Ident) (start : Time) (lease : Duration) (i : ℕ) (ks : List Delivery)
    (ts : List ClaimedTask) (rows : List Delivery)
    → Claimed tokens start lease i ks ts rows
    → length ts ≡ length ks
length-Claimed tokens start lease i [] [] rows h = refl
length-Claimed tokens start lease i [] (t ∷ ts) rows h = elim h [ ]
length-Claimed tokens start lease i (k ∷ ks) [] rows h = elim h [ ]
length-Claimed tokens start lease i (k ∷ ks) (t ∷ ts) rows h =
    omega (arith, length-Claimed tokens start lease (suc i) ks ts rows h.1)

claim_body-Holds :
    (R : Error → Type 0) (tokens : ℕ → Ident) (skip : Delivery → Bool) (limit : ℕ)
    (lease : Duration) (s : Session Tables)
    → R Error.driver
    → IsUnique s.tables.deliveries
    → Holds
        (λ tasks s'. Grant tokens lease skip limit s.tables s'.tables tasks)
        R
        (claim_body tokens skip (min limit 100) lease s)
unfolding claim_body find_ready_for_update
claim_body-Holds R tokens skip limit lease s refused u =
    call_then R Error.driver _ (claim_rows tokens lease 0)
      (λ tasks s'. Grant tokens lease skip limit s.tables s'.tables tasks) s refused
      λ now ms later.
        let rows = ready_rows skip (min limit 100) now s.tables.deliveries in
        let offered = ready_rows-Offered skip (min limit 100) now s.tables.deliveries u in
        let distinct =
          selected-IsUnique (wanted skip now) by_attempt_time (min limit 100) s.tables.deliveries
            u in
        Holds-mono (λ tasks s'. ClaimedRows tokens now lease 0 rows s.tables s'.tables tasks)
          (λ tasks s'. Grant tokens lease skip limit s.tables s'.tables tasks) R R _
          (λ tasks s' h. record {
            source = rows;
            now = now;
            offered = offered;
            distinct = distinct;
            bounded = omega (
              arith,
              length-Claimed tokens now lease 0 rows tasks s'.tables.deliveries h.rows,
              length-selected (wanted skip now) by_attempt_time (min limit 100) s.tables.deliveries,
            );
            claimed = h;
          })
          (λ e r. r)
          (claim_rows-Holds R tokens now lease 0 rows _ refused (omega arith) u distinct (
            map-All (Offered skip now s.tables.deliveries) (Claimable now s.tables.deliveries)
              (λ k h. (h.0, ground arith)) rows offered))

abbrev pub ClaimError : Duration → Error → Type 0
ClaimError lease e =
    (e ≡ Error.driver) ⊎ ((lease ≡ 0) × (e ≡ Error.message Message.lease_not_positive))

pub claim-Outcome :
    (db : Database) (tokens : ℕ → Ident) (skip : Delivery → Bool) (limit : ℕ) (lease : Duration)
    (s : Session Tables)
    → IsValid s.tables.deliveries
    → Outcome
        (λ tasks t. Grant tokens lease skip limit s.tables t tasks)
        (ClaimError lease)
        s.tables
        (claim db tokens skip limit lease s)
unfolding claim
claim-Outcome db tokens skip limit lease s v = elim (Bool-cases (limit == 0)) [
  | inl none_wanted ↦ rw none_wanted (record {
    source = [];
    now = s.now;
    offered = tt;
    distinct = λ e c. omega arith;
    bounded = omega arith;
    claimed = record { rows = tt; untouched = λ e c p. refl; frame = refl; valid = λ w. w };
  })
  | inr wanted ↦ rw wanted (elim (Bool-cases (lease == 0)) [
    | inl no_lease ↦ rw no_lease (inr (ground arith, refl), inl refl)
    | inr leased ↦ rw leased (
        transact-Outcome db (λ tasks t. Grant tokens lease skip limit s.tables t tasks) _
          (claim_body tokens skip (min limit 100) lease) s (inl refl)
          (claim_body-Holds _ tokens skip limit lease s (inl refl) v.unique))
  ])
]
