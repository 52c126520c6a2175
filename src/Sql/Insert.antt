-- ===== src/Sql/Insert.antt =====
-- INSERT of one row: a second row of a unique key is a duplicate entry, which the driver refuses.
use lets_go.Prelude.{
  ℕ, ◌≡◌, refl, Bool, List, [], ◌∷◌, ◌++◌, ◌==◌, none, some, true, false, arith, inl, inr,
  Bool-cases, if◌then◌else◌,
}
use lets_go.Sql.{Session, Tx, ◌>>=◌, pure, fail, call}
use lets_go.Sql.Table.{find_row, affected}
use lets_go.Sql.Outcome.{Holds, call_then}

module _ {T E R : Type 0} (driver : E) (rows : T → List R) (put : List R → T → T) where
  -- `clash` finds the rows that share a key with the new one, which may bear the time.
  unfoldable pub insert_unique : (R → Bool) → (ℕ → R) → Tx T E (Unit {0})
  insert_unique clash r = do
    n ← call driver λ now t.
        let n = affected clash (rows t) in (n, if n == 0 then put (rows t ++ r now ∷ []) t else t)
    if n == 0 then pure tt else fail driver

  pub insert_unique-Holds :
      (P : E → Type 0) (clash : R → Bool) (r : ℕ → R) (s : Session T)
      → P driver
      → Holds
          (λ _ s'.
            (affected clash (rows s.tables) ≡ 0)
            × ((now : ℕ) × (s'.tables ≡ put (rows s.tables ++ r now ∷ []) s.tables)))
          P
          (insert_unique clash r s)
  unfolding insert_unique
  insert_unique-Holds P clash r s refused =
      elim (Bool-cases (affected clash (rows s.tables) == 0)) [
        | inl free ↦
            call_then P driver _ (λ n. if n == 0 then pure tt else fail driver) _ s refused
              λ now ms later. rw free (ground arith, (now, refl))
        | inr taken ↦
            call_then P driver _ (λ n. if n == 0 then pure tt else fail driver) _ s refused
              λ now ms later. rw taken refused
      ]

-- A new row is found by a key that no row before it has, and by no other.
module _ {R : Type 0} where
  pub find-snoc :
      (k : R → Bool) (rows : List R) (r : R)
      → find_row k rows ≡ none
      → k r ≡ true
      → find_row k (rows ++ r ∷ []) ≡ some r
  find-snoc k [] r h e = rw e refl
  find-snoc k (x ∷ rows) r h e = ground (arith, find-snoc k rows r)

  pub find-snoc_other :
      (k : R → Bool) (rows : List R) (r : R)
      → k r ≡ false
      → find_row k (rows ++ r ∷ []) ≡ find_row k rows
  find-snoc_other k [] r e = rw e refl
  find-snoc_other k (x ∷ rows) r e = ground (arith, find-snoc_other k rows r)

  pub find-append :
      (k : R → Bool) (rows more : List R) (r : R)
      → find_row k rows ≡ some r
      → find_row k (rows ++ more) ≡ some r
  find-append k [] more r h = cc
  find-append k (x ∷ rows) more r h = ground (arith, find-append k rows more r)

  pub find-none_wider :
      (k p : R → Bool)
      → ((r : R) → k r ≡ true → p r ≡ true)
      → (rows : List R) → affected p rows ≡ 0
      → find_row k rows ≡ none
  find-none_wider k p wider [] h = refl
  find-none_wider k p wider (x ∷ rows) h = ground (arith, wider x, find-none_wider k p wider rows)
