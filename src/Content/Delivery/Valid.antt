-- ===== src/Content/Delivery/Valid.antt =====
-- The CHECK constraints and the primary key of event_delivery, and how statements keep them.
use lets_go.Prelude.{
  ℕ, ◌+◌, ◌≤◌, ◌<◌, ◌≡◌, refl, ◌≢◌, ◌⊎◌, inl, inr, Bool, true, ◌&&◌, none, List, [], ◌∷◌, ◌++◌,
  arith, ◌==◌, Bool-cases, is_some, All, append-All,
}
use lets_go.Sql.Table.{update_where, affected, update-All, affected-update}
use lets_go.Content.Errors.{Text}
use lets_go.Content.Tables.{Ident, Time, Delivery, delivery_key}
use lets_go.Content.Delivery.{is_ready, processing, terminal, waiting, new_delivery, insert_row}

-- chk_delivery_status, chk_delivery_claim, chk_delivery_completion, chk_delivery_attempts; and that
-- no delivery is attempted more often than it may be.
pub record IsValidRow (r : Delivery) : Type 0 where
  pub known : (1 ≤ r.status) × (r.status ≤ 5)
  pub claimed :
      ((r.status ≡ 2) × (is_some r.claim_token ≡ true) × (is_some r.locked_until ≡ true))
      ⊎ ((r.status ≢ 2) × (r.claim_token ≡ none) × (r.locked_until ≡ none))
  pub completed :
      ((3 ≤ r.status) × (is_some r.completed_at ≡ true))
      ⊎ ((r.status ≤ 2) × (r.completed_at ≡ none))
  pub attempts : r.attempt_count ≤ r.max_attempts
  pub positive : 0 < r.max_attempts

abbrev pub IsUnique : List Delivery → Type 0
IsUnique rows = (e c : Ident) → affected (delivery_key e c) rows ≤ 1

pub record IsValid (rows : List Delivery) : Type 0 where
  pub checked : All IsValidRow rows
  pub unique : IsUnique rows

-- A change of one row that keeps its key and what the constraints ask.
pub record Keeps (p : Delivery → Bool) (f : Delivery → Delivery) : Type 0 where
  pub valid : (r : Delivery) → IsValidRow r → p r ≡ true → IsValidRow (f r)
  pub key : (e c : Ident) (r : Delivery) → delivery_key e c (f r) ≡ delivery_key e c r

pub update-IsValid :
    {p : Delivery → Bool} {f : Delivery → Delivery} (rows : List Delivery)
    → Keeps p f
    → IsValid rows
    → IsValid (update_where p f rows)
update-IsValid {p} {f} rows keep v = record {
  checked = update-All IsValidRow p f keep.valid rows v.checked;
  unique = λ e c.
      omega (arith, affected-update (delivery_key e c) p f (keep.key e c) rows, v.unique e c);
}

pub processing-Keeps :
    (k : Delivery → Bool) (token : Ident) (until now : Time)
    → Keeps (λ r. k r && is_ready now r) (processing token until)
processing-Keeps k token until now = record { valid = λ r v h. ground arith; key = λ e c r. refl }

pub terminal-Keeps :
    (p : Delivery → Bool) (status : ℕ) (cause : Text) (now : Time)
    → 3 ≤ status
    → status ≤ 5
    → Keeps p (terminal status cause now)
terminal-Keeps p status cause now low high = record {
  valid = λ r v h. ground arith;
  key = λ e c r. refl;
}

pub waiting-Keeps :
    (p : Delivery → Bool) (cause : Text) (next : Time) → Keeps p (waiting cause next)
waiting-Keeps p cause next = record { valid = λ r v h. ground arith; key = λ e c r. refl }

affected-append :
    (p : Delivery → Bool) (rows : List Delivery) (r : Delivery)
    → affected p (rows ++ r ∷ []) ≡ affected p rows + affected p (r ∷ [])
affected-append p [] r = omega arith
affected-append p (x ∷ rows) r = ground (arith, affected-append p rows r)

new_delivery-IsValidRow : (e c : Ident) (now : Time) → IsValidRow (new_delivery e c now)
new_delivery-IsValidRow e c now = ground arith

pub insert-IsValid :
    (e c : Ident) (now : Time) (rows : List Delivery)
    → IsValid rows
    → IsValid (insert_row e c now rows).1
insert-IsValid e c now rows v = elim (Bool-cases (affected (delivery_key e c) rows == 0)) [
  | inl fresh ↦ rw fresh (record {
    checked =
        append-All IsValidRow rows (new_delivery e c now ∷ []) v.checked
          (new_delivery-IsValidRow e c now, tt);
    unique = λ e' c'. unique e' c' (ground arith);
  })
  | inr present ↦ rw present v
]
  where
    same :
        (e' c' : Ident)
        → e ≡ e'
        → c ≡ c'
        → affected (delivery_key e c) rows ≡ affected (delivery_key e' c') rows
    same e' c' p q = rw (p, q)

    unique :
        (e' c' : Ident)
        → affected (delivery_key e c) rows ≡ 0
        → affected (delivery_key e' c') (rows ++ new_delivery e c now ∷ []) ≤ 1
    unique e' c' h = ground (
      arith,
      affected-append (delivery_key e' c') rows (new_delivery e c now),
      v.unique e' c',
      same e' c',
    )
