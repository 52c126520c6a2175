-- ===== src/Content/Tasks/Overdue.antt =====
-- The loop of `RecoverExpired` (internal/respository/task.go) over the expired rows.
use lets_go.Prelude.{
  ℕ, ◌+◌, none, leb, ◌≤◌, ◌≡◌, refl, ◌∙◌, ◌≢◌, ◌⊎◌, Bool, true, false, ◌&&◌, some, List, [], ◌∷◌,
  arith, ◌==◌, if◌then◌else◌, is_some, All, map-All, both-All, length,
}
use lets_go.Sql.{Moment, Session, ◌>>◌, pure, fail}
use lets_go.Sql.Table.{find_row, update_where, affected}
use lets_go.Sql.Outcome.{Holds, bind-Holds, call-Holds, Holds-mono}
use lets_go.Content.Errors.{Message, Error}
use lets_go.Content.Tables.{Ident, Time, Delivery, Tables, delivery_key}
use lets_go.Content.Delivery.{
  is_expired, has_expired, terminal, waiting, mark_expired_failed, mark_expired_pending,
}
use lets_go.Content.Delivery.Valid.{IsUnique, IsValid, Keeps, terminal-Keeps, waiting-Keeps}
use lets_go.Content.Delivery.Lookup.{
  Edited, update-Edited, affected-one, apart_of_affected, affected_self, IsUnique-tail,
}
use lets_go.Content.Tasks.{
  RecoveryResult, is_exhausted, count_recovery, token_of, expired_task_error, recover_row,
  recover_rows,
}

-- The row that replaces an expired one: failed without attempts left, else pending and due at once.
abbrev pub recovered_row : Time → Delivery → Delivery
recovered_row now r =
    if leb r.max_attempts r.attempt_count
    then record r {
      status = 5;
      claim_token = none;
      locked_until = none;
      last_error = expired_task_error;
      completed_at = some now;
    }
    else record r {
      status = 1;
      next_attempt_at = now;
      claim_token = none;
      locked_until = none;
      last_error = expired_task_error;
      completed_at = none;
    }

abbrev pub Recovered : List Delivery → List Delivery → Type 0
Recovered [] rows = Unit
Recovered (k ∷ ks) rows =
    ((now : Time) × (find_row (delivery_key k.event_id k.consumer_name) rows
        ≡ some (recovered_row now k)))
    × Recovered ks rows

pub record RecoveredRows (ks : List Delivery) (before after : Tables) : Type 0 where
  pub rows : Recovered ks after.deliveries
  pub untouched :
      (e c : Ident)
      → affected (delivery_key e c) ks ≡ 0
      → find_row (delivery_key e c) after.deliveries ≡ find_row (delivery_key e c) before.deliveries
  pub frame : after ≡ record before { deliveries = after.deliveries }
  pub valid : IsValid before.deliveries → IsValid after.deliveries

-- A row of the table whose lease is over.
abbrev pub Overdue : Time → List Delivery → Delivery → Type 0
Overdue now rows k =
    (find_row (delivery_key k.event_id k.consumer_name) rows ≡ some k)
    × (is_expired now k ≡ true)
    × (is_some k.claim_token ≡ true)

recover_row-Holds :
    (R : Error → Type 0) (k : Delivery) (s : Session Tables)
    → R Error.driver
    → IsUnique s.tables.deliveries
    → Overdue s.now s.tables.deliveries k
    → Holds
        (λ n s'.
          (n ≡ 1) × ((now : Time) × Edited k.event_id k.consumer_name (recovered_row now k) s s'))
        R
        (recover_row k s)
unfolding recover_row mark_expired_failed mark_expired_pending
recover_row-Holds R k s refused u (found, expired, token) = go (is_exhausted k) refl
  where
    Post : ℕ → Session Tables → Type 0
    Post n s' =
        (n ≡ 1) × ((now : Time) × Edited k.event_id k.consumer_name (recovered_row now k) s s')

    mine : Time → Delivery → Bool
    mine now r = delivery_key k.event_id k.consumer_name r && has_expired (token_of k) now r

    one :
        (now : Time) (ms : List Moment)
        → s.now ≤ now
        → (f : Delivery → Delivery) → Keeps (mine now) f
        → recovered_row now k ≡ f k
        → Post (affected (mine now) s.tables.deliveries) (record {
          tables = record s.tables { deliveries = update_where (mine now) f s.tables.deliveries };
          now = now;
          script = ms;
        })
    one now ms later f keep e =
        let late : has_expired (token_of k) now k ≡ true = ground arith in
        (
          affected-one k.event_id k.consumer_name (has_expired (token_of k) now) k
              s.tables.deliveries u found late,
          (
            now,
            rw e (
                update-Edited k.event_id k.consumer_name (has_expired (token_of k) now) f k s now ms
                  later found late keep),
          ),
        )

    go :
        (over : Bool)
        → is_exhausted k ≡ over
        → Holds Post R (
            (if over
                then mark_expired_failed k.event_id k.consumer_name (token_of k) expired_task_error
                else mark_expired_pending k.event_id k.consumer_name
                    (token_of k)
                    expired_task_error)
              s)
    go true over =
        call-Holds R Error.driver _ Post s
          (λ now ms later.
            one now ms later (terminal 5 expired_task_error now)
              (terminal-Keeps _ 5 _ now (omega arith) (omega arith)) (rw over refl))
          refused
    go false again =
        call-Holds R Error.driver _ Post s
          (λ now ms later.
            one now ms later (waiting expired_task_error now) (waiting-Keeps _ _ now)
              (rw again refl))
          refused

still-Overdue :
    (k row : Delivery) (ks : List Delivery) (s s' : Session Tables)
    → Edited k.event_id k.consumer_name row s s'
    → affected (delivery_key k.event_id k.consumer_name) ks ≡ 0
    → All (Overdue s.now s.tables.deliveries) ks
    → All (Overdue s'.now s'.tables.deliveries) ks
still-Overdue k row ks s s' h none_left rest =
    map-All _ _
      (λ x p. (h.touches.others x.event_id x.consumer_name p.1 ∙ p.0.0, late x p.0.1, p.0.2)) ks
      (both-All (Overdue s.now s.tables.deliveries)
        (λ x. (x.event_id ≢ k.event_id) ⊎ (x.consumer_name ≢ k.consumer_name)) ks rest
        (apart_of_affected k.event_id k.consumer_name ks none_left))
  where
    late : (x : Delivery) → is_expired s.now x ≡ true → is_expired s'.now x ≡ true
    late x p = ground (arith, h.later)

-- The counters after a loop over `ks`.
abbrev pub Counted : RecoveryResult → List Delivery → RecoveryResult → Type 0
Counted start ks result =
    (result.scanned ≡ start.scanned)
    × (result.failed ≡ start.failed + affected is_exhausted ks)
    × (result.recovered + affected is_exhausted ks ≡ start.recovered + length ks)

pub recover_rows-Holds :
    (R : Error → Type 0) (start : RecoveryResult) (ks : List Delivery) (s : Session Tables)
    → R Error.driver
    → IsUnique s.tables.deliveries
    → IsUnique ks
    → All (Overdue s.now s.tables.deliveries) ks
    → Holds
        (λ result s'. RecoveredRows ks s.tables s'.tables × Counted start ks result)
        R
        (recover_rows start ks s)
unfolding recover_rows
recover_rows-Holds R start [] s refused u d h =
    (record { rows = tt; untouched = λ e c p. refl; frame = refl; valid = λ v. v }, omega arith)
recover_rows-Holds R start (k ∷ ks) s refused u d h =
    bind-Holds R (recover_row k)
      (λ n.
        (if n == 1 then pure tt else fail (Error.message Message.recovery_lost_claim))
        >> recover_rows (count_recovery k start) ks)
      (λ n s'.
        (n ≡ 1) × ((now : Time) × Edited k.event_id k.consumer_name (recovered_row now k) s s'))
      (λ result s'. RecoveredRows (k ∷ ks) s.tables s'.tables × Counted start (k ∷ ks) result) s
      (recover_row-Holds R k s refused u h.0)
      λ n s' (one, (now, edited)). rw one (
        Holds-mono
          (λ result s''.
            RecoveredRows ks s'.tables s''.tables × Counted (count_recovery k start) ks result)
          (λ result s''. RecoveredRows (k ∷ ks) s.tables s''.tables × Counted start (k ∷ ks) result)
          R R (recover_rows (count_recovery k start) ks s')
          (λ result s'' (rest, counted). (
            record {
              rows = ((now, rest.untouched _ _ (affected_self k ks d) ∙ edited.found), rest.rows);
              untouched = λ e c p.
                  rest.untouched e c (ground arith) ∙ edited.touches.others e c (ground arith);
              frame = rest.frame ∙ rw edited.frame refl;
              valid = λ v. rest.valid (edited.valid v);
            },
            ground arith,
          ))
          (λ e r. r)
          (recover_rows-Holds R (count_recovery k start) ks s' refused
            (λ e c. rw (edited.touches.same_keys e c) (u e c)) (IsUnique-tail k ks d)
            (still-Overdue k _ ks s s' edited (affected_self k ks d) h.1)))
