-- ===== src/Content/Delivery/Lookup.antt =====
-- What a statement on one key does to the row that a search on that key or on another finds.
use lets_go.Prelude.{
  ◌*◌, ◌/◌, ◌+◌, [], ◌∷◌, inl, inr, Bool-cases, All, ℕ, ◌≤◌, ◌≡◌, refl, ◌∙◌, ◌≢◌, ◌⊎◌, Bool, true,
  ◌&&◌, some, List, arith, ◌==◌,
}
use native.Mathlib.Nat.{le_trans}
use lets_go.Sql.{Moment, Session}
use lets_go.Sql.Table.{
  find_row, update_where, affected, affected-key, find-update_same, find-update_other,
  affected-update,
}
use lets_go.Sql.Outcome.{Holds, call_then}
use lets_go.Content.Errors.{Error}
use lets_go.Content.Tables.{Ident, Time, Delivery, Tables, delivery_key}
use lets_go.Content.Delivery.{
  Duration, is_ready, processing, mark_processing, read_lease_end, lift_result, lease_end,
  timestamp_add, microseconds,
}
use lets_go.Content.Delivery.Valid.{IsUnique, IsValid, Keeps, update-IsValid, processing-Keeps}

-- A change that stays within the rows of one key.
pub record Touches (e c : Ident) (before after : List Delivery) : Type 0 where
  pub same_keys :
      (e' c' : Ident) → affected (delivery_key e' c') after ≡ affected (delivery_key e' c') before
  pub others :
      (e' c' : Ident)
      → (e' ≢ e) ⊎ (c' ≢ c)
      → find_row (delivery_key e' c') after ≡ find_row (delivery_key e' c') before

pub update-Touches :
    (e c : Ident) (p : Delivery → Bool) (f : Delivery → Delivery) (rows : List Delivery)
    → ((e' c' : Ident) (r : Delivery) → delivery_key e' c' (f r) ≡ delivery_key e' c' r)
    → Touches e c rows (update_where (λ r. delivery_key e c r && p r) f rows)
update-Touches e c p f rows keep = record {
  same_keys = λ e' c'.
      affected-update (delivery_key e' c') (λ r. delivery_key e c r && p r) f (keep e' c') rows;
  others = λ e' c' apart.
      find-update_other (delivery_key e' c') (λ r. delivery_key e c r && p r) f (keep e' c')
        (λ r h. ground arith) rows;
}

-- After the statements on one key: the row now found under it, and the frame.
pub record Edited (e c : Ident) (row : Delivery) (s s' : Session Tables) : Type 0 where
  pub later : s.now ≤ s'.now
  pub found : find_row (delivery_key e c) s'.tables.deliveries ≡ some row
  pub touches : Touches e c s.tables.deliveries s'.tables.deliveries
  pub frame : s'.tables ≡ record s.tables { deliveries = s'.tables.deliveries }
  pub valid : IsValid s.tables.deliveries → IsValid s'.tables.deliveries

-- The same of the tables alone.
pub record Changed (e c : Ident) (row : Delivery) (before after : Tables) : Type 0 where
  pub found : find_row (delivery_key e c) after.deliveries ≡ some row
  pub touches : Touches e c before.deliveries after.deliveries
  pub frame : after ≡ record before { deliveries = after.deliveries }
  pub valid : IsValid before.deliveries → IsValid after.deliveries

pub Edited-Changed :
    (e c : Ident) (row : Delivery) (s s' : Session Tables)
    → Edited e c row s s'
    → Changed e c row s.tables s'.tables
Edited-Changed e c row s s' h = record {
  found = h.found;
  touches = h.touches;
  frame = h.frame;
  valid = h.valid;
}

pub update-Edited :
    (e c : Ident) (p : Delivery → Bool) (f : Delivery → Delivery) (r : Delivery)
    (s : Session Tables) (now : Time) (ms : List Moment)
    → s.now ≤ now
    → find_row (delivery_key e c) s.tables.deliveries ≡ some r
    → p r ≡ true
    → Keeps (λ r. delivery_key e c r && p r) f
    → Edited e c (f r) s (record {
      tables = record s.tables {
        deliveries = update_where (λ r. delivery_key e c r && p r) f s.tables.deliveries;
      };
      now = now;
      script = ms;
    })
update-Edited e c p f r s now ms later h hp keep = record {
  later = later;
  found =
      find-update_same (delivery_key e c) p f (keep.key e c) s.tables.deliveries
      ∙ rw h (rw hp refl);
  touches = update-Touches e c p f s.tables.deliveries keep.key;
  frame = refl;
  valid = update-IsValid s.tables.deliveries keep;
}

pub Edited-later :
    {e c : Ident} {row : Delivery} {s : Session Tables} (s' : Session Tables) (now : Time)
    (ms : List Moment)
    → Edited e c row s s'
    → s'.now ≤ now
    → Edited e c row s (record s' { now = now; script = ms })
Edited-later s' now ms h later = record {
  later = le_trans h.later later;
  found = h.found;
  touches = h.touches;
  frame = h.frame;
  valid = h.valid;
}

-- Under a unique key that fits, an update counts one row.
pub affected-one :
    (e c : Ident) (p : Delivery → Bool) (r : Delivery) (rows : List Delivery)
    → IsUnique rows
    → find_row (delivery_key e c) rows ≡ some r
    → p r ≡ true
    → affected (λ r. delivery_key e c r && p r) rows ≡ 1
affected-one e c p r rows u h hp =
    affected-key (delivery_key e c) p rows (u e c) ∙ rw h (rw hp refl)

read_lease_end-Holds :
    (R : Error → Type 0) (Q : Time → Session Tables → Type 0) (e c : Ident) (r : Delivery)
    (until : Time) (s : Session Tables)
    → R Error.driver
    → find_row (delivery_key e c) s.tables.deliveries ≡ some r
    → r.locked_until ≡ some until
    → ((now : ℕ) (ms : List Moment) → s.now ≤ now → Q until (record s { now = now; script = ms }))
    → Holds Q R (read_lease_end e c 1 s)
unfolding read_lease_end
read_lease_end-Holds R Q e c r until s refused h lock next =
    call_then R Error.driver _ (λ row. lift_result (lease_end row)) Q s refused
      λ now ms later. rw (h, lock) (next now ms later)

-- A lease ends a duration of nanoseconds after a time not before `start`, rounded to milliseconds.
abbrev pub Leased : Time → Duration → Time → Type 0
Leased start lease until =
    (at : Time) × (start ≤ at) × (until ≡ (at * 1000 + lease / 1000 + 500) / 1000)

-- A ready row is claimed: `MarkProcessing` finds it ready still, though the clock has moved on.
pub mark_processing-Holds :
    (R : Error → Type 0) (e c token : Ident) (lease : Duration) (r : Delivery) (s : Session Tables)
    → R Error.driver
    → IsUnique s.tables.deliveries
    → find_row (delivery_key e c) s.tables.deliveries ≡ some r
    → is_ready s.now r ≡ true
    → Holds
        (λ until s'. Edited e c (processing token until r) s s' × Leased s.now lease until)
        R
        (mark_processing e c token lease s)
unfolding mark_processing
mark_processing-Holds R e c token lease r s refused u h ready =
    call_then R Error.driver _ (read_lease_end e c) _ s refused λ now ms later.
      let until = timestamp_add (microseconds lease) now in
      let still : is_ready now r ≡ true = ground arith in
      let edited =
        update-Edited e c (is_ready now) (processing token until) r s now ms later h still
          (processing-Keeps (delivery_key e c) token until now) in
      rw (affected-one e c (is_ready now) r s.tables.deliveries u h still) (
        read_lease_end-Holds R
          (λ until s'. Edited e c (processing token until r) s s' × Leased s.now lease until) e c
          (processing token until r) until _ refused edited.found refl
          λ now' ms' later'. (Edited-later _ now' ms' edited later', (now, later, refl)))

-- Rows of distinct keys.
pub apart_of_affected :
    (e c : Ident) (ks : List Delivery)
    → affected (delivery_key e c) ks ≡ 0
    → All (λ k. (k.event_id ≢ e) ⊎ (k.consumer_name ≢ c)) ks
apart_of_affected e c [] h = tt
apart_of_affected e c (k ∷ ks) h = elim (Bool-cases (k.event_id == e)) [
  | inl same ↦ (inr (ground arith), apart_of_affected e c ks (ground arith))
  | inr other ↦ (inl (ground arith), apart_of_affected e c ks (ground arith))
]

pub affected_self :
    (k : Delivery) (ks : List Delivery)
    → IsUnique (k ∷ ks)
    → affected (delivery_key k.event_id k.consumer_name) ks ≡ 0
affected_self k ks u = ground (arith, u k.event_id k.consumer_name)

pub IsUnique-tail : (k : Delivery) (ks : List Delivery) → IsUnique (k ∷ ks) → IsUnique ks
IsUnique-tail k ks u e c = ground (arith, u e c)
