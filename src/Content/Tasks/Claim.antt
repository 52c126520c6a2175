-- ===== src/Content/Tasks/Claim.antt =====
-- `Claim` (internal/respository/task.go) hands out ready rows: what the loop over them does.
use lets_go.Prelude.{
  ◌≤◌, ℕ, suc, ◌+◌, none, ◌≡◌, refl, ◌∙◌, ◌≢◌, ◌⊎◌, true, some, List, [], ◌∷◌, arith, All, map-All,
  both-All,
}
use lets_go.Sql.{Session, ◌>>=◌, pure}
use lets_go.Sql.Table.{find_row, affected}
use lets_go.Sql.Outcome.{Holds, bind-Holds}
use lets_go.Content.Errors.{Sentinel, Message, Error, errors_is}
use lets_go.Content.Tables.{Ident, Time, Delivery, Tables, delivery_key}
use lets_go.Content.Delivery.{Duration, is_ready, processing, mark_processing}
use lets_go.Content.Delivery.Valid.{IsUnique, IsValid}
use lets_go.Content.Delivery.Lookup.{
  Edited, Leased, apart_of_affected, affected_self, IsUnique-tail, mark_processing-Holds,
}
use lets_go.Content.Tasks.Rules.{replace_error-Holds}
use lets_go.Content.Tasks.{ClaimedTask, claim_row, claimed_task, claim_rows}

-- The claimed tasks, beside the rows they were made of: each row is now in processing, with one
-- attempt more, the task's own token and the lease that the task says.
abbrev pub Claimed :
    (ℕ → Ident) → Time → Duration → ℕ → List Delivery → List ClaimedTask → List Delivery → Type 0
Claimed tokens start lease i [] [] rows = Unit
Claimed tokens start lease i [] (t ∷ ts) rows = ⊥
Claimed tokens start lease i (k ∷ ks) [] rows = ⊥
Claimed tokens start lease i (k ∷ ks) (t ∷ ts) rows =
    ((t.event_id ≡ k.event_id)
      × (t.consumer_name ≡ k.consumer_name)
      × (t.claim_token ≡ tokens i)
      × Leased start lease t.locked_until
      × (find_row (delivery_key k.event_id k.consumer_name) rows
          ≡ some (record k {
            status = 2;
            attempt_count = k.attempt_count + 1;
            claim_token = some t.claim_token;
            locked_until = some t.locked_until;
            completed_at = none;
          })))
    × Claimed tokens start lease (suc i) ks ts rows

pub record ClaimedRows (tokens : ℕ → Ident) (start : Time) (lease : Duration) (i : ℕ)
    (ks : List Delivery) (before after : Tables) (tasks : List ClaimedTask) : Type 0 where
  pub rows : Claimed tokens start lease i ks tasks after.deliveries
  pub untouched :
      (e c : Ident)
      → affected (delivery_key e c) ks ≡ 0
      → find_row (delivery_key e c) after.deliveries ≡ find_row (delivery_key e c) before.deliveries
  pub frame : after ≡ record before { deliveries = after.deliveries }
  pub valid : IsValid before.deliveries → IsValid after.deliveries

-- A row of the table that may be claimed now.
abbrev pub Claimable : Time → List Delivery → Delivery → Type 0
Claimable now rows k =
    (find_row (delivery_key k.event_id k.consumer_name) rows ≡ some k) × (is_ready now k ≡ true)

-- Claiming one row leaves the other rows claimable.
still-Claimable :
    (k : Delivery) (row : Delivery) (ks : List Delivery) (s s' : Session Tables)
    → Edited k.event_id k.consumer_name row s s'
    → affected (delivery_key k.event_id k.consumer_name) ks ≡ 0
    → All (Claimable s.now s.tables.deliveries) ks
    → All (Claimable s'.now s'.tables.deliveries) ks
still-Claimable k row ks s s' h none_left rest =
    map-All _ _ (λ x p. (h.touches.others x.event_id x.consumer_name p.1 ∙ p.0.0, ready x p.0.1)) ks
      (both-All (Claimable s.now s.tables.deliveries)
        (λ x. (x.event_id ≢ k.event_id) ⊎ (x.consumer_name ≢ k.consumer_name)) ks rest
        (apart_of_affected k.event_id k.consumer_name ks none_left))
  where
    ready : (x : Delivery) → is_ready s.now x ≡ true → is_ready s'.now x ≡ true
    ready x p = ground (arith, h.later)

pub claim_rows-Holds :
    (R : Error → Type 0) (tokens : ℕ → Ident) (start : Time) (lease : Duration) (i : ℕ)
    (ks : List Delivery) (s : Session Tables)
    → R Error.driver
    → start ≤ s.now
    → IsUnique s.tables.deliveries
    → IsUnique ks
    → All (Claimable s.now s.tables.deliveries) ks
    → Holds
        (λ tasks s'. ClaimedRows tokens start lease i ks s.tables s'.tables tasks)
        R
        (claim_rows tokens lease i ks s)
unfolding claim_rows
claim_rows-Holds R tokens start lease i [] s refused begun u d h = record {
  rows = tt;
  untouched = λ e c p. refl;
  frame = refl;
  valid = λ v. v;
}
claim_rows-Holds R tokens start lease i (k ∷ ks) s refused begun u d h =
    bind-Holds R (claim_row (tokens i) lease k)
      (λ until. claim_rows tokens lease (suc i) ks >>= λ rest.
        pure (claimed_task k (tokens i) until ∷ rest))
      (λ until s'.
        Edited k.event_id k.consumer_name (processing (tokens i) until k) s s'
        × Leased s.now lease until)
      (λ tasks s'. ClaimedRows tokens start lease i (k ∷ ks) s.tables s'.tables tasks) s
      (replace_error-Holds Sentinel.not_found (Error.message Message.task_not_claimable)
        (mark_processing k.event_id k.consumer_name (tokens i) lease)
        (λ until s'.
          Edited k.event_id k.consumer_name (processing (tokens i) until k) s s'
          × Leased s.now lease until)
        (λ x. x ≡ Error.driver) R s (λ x e. rw e (unfold errors_is in refused))
        (mark_processing-Holds (λ x. x ≡ Error.driver) k.event_id k.consumer_name (tokens i) lease k
          s refl u h.0.0 h.0.1))
      λ until s' (edited, (at, late, ends)).
        bind-Holds R (claim_rows tokens lease (suc i) ks)
          (λ rest. pure (claimed_task k (tokens i) until ∷ rest))
          (λ tasks s''. ClaimedRows tokens start lease (suc i) ks s'.tables s''.tables tasks)
          (λ tasks s''. ClaimedRows tokens start lease i (k ∷ ks) s.tables s''.tables tasks) s'
          (claim_rows-Holds R tokens start lease (suc i) ks s' refused
            (omega (arith, begun, edited.later)) (λ e c. rw (edited.touches.same_keys e c) (u e c))
            (IsUnique-tail k ks d) (still-Claimable k _ ks s s' edited (affected_self k ks d) h.1))
          λ tasks s'' rest. record {
            rows = (
              (
                refl,
                refl,
                refl,
                (at, omega (arith, begun, late), ends),
                rest.untouched _ _ (affected_self k ks d) ∙ edited.found,
              ),
              rest.rows,
            );
            untouched = λ e c p.
                rest.untouched e c (ground arith) ∙ edited.touches.others e c (ground arith);
            frame = rest.frame ∙ rw edited.frame refl;
            valid = λ v. rest.valid (edited.valid v);
          }
