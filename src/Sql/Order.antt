-- ===== src/Sql/Order.antt =====
-- ORDER BY: insertion sort by a test, and what it keeps of a table.
use lets_go.Prelude.{
  ◌≡◌, refl, Bool, List, [], ◌∷◌, arith, inl, inr, Bool-cases, if◌then◌else◌, All,
}
use lets_go.Sql.Table.{affected}

module _ {R : Type 0} where
  abbrev pub insert_by : (R → R → Bool) → R → List R → List R
  insert_by le r [] = r ∷ []
  insert_by le r (x ∷ rows) = if le r x then r ∷ x ∷ rows else x ∷ insert_by le r rows

  abbrev pub order_by : (R → R → Bool) → List R → List R
  order_by le [] = []
  order_by le (r ∷ rows) = insert_by le r (order_by le rows)

  affected-insert :
      (k : R → Bool) (le : R → R → Bool) (r : R) (rows : List R)
      → affected k (insert_by le r rows) ≡ affected k (r ∷ rows)
  affected-insert k le r [] = refl
  affected-insert k le r (x ∷ rows) = ground (arith, affected-insert k le r rows)

  pub affected-order :
      (k : R → Bool) (le : R → R → Bool) (rows : List R)
      → affected k (order_by le rows) ≡ affected k rows
  affected-order k le [] = refl
  affected-order k le (r ∷ rows) =
      ground (arith, affected-insert k le r (order_by le rows), affected-order k le rows)

module _ {R : Type 0} (P : R → Type 0) where
  pub insert-All :
      (le : R → R → Bool) (r : R) (rows : List R) → P r → All P rows → All P (insert_by le r rows)
  insert-All le r [] h hs = (h, tt)
  insert-All le r (x ∷ rows) h hs = elim (Bool-cases (le r x)) [
    | inl e ↦ rw e (h, hs)
    | inr e ↦ rw e (hs.0, insert-All le r rows h hs.1)
  ]

  pub order-All : (le : R → R → Bool) (rows : List R) → All P rows → All P (order_by le rows)
  order-All le [] h = tt
  order-All le (r ∷ rows) h = insert-All le r (order_by le rows) h.0 (order-All le rows h.1)

  All-insert :
      (le : R → R → Bool) (r : R) (rows : List R) → All P (insert_by le r rows) → P r × All P rows
  All-insert le r [] h = (h.0, tt)
  All-insert le r (x ∷ rows) h = elim (Bool-cases (le r x)) [
    | inl e ↦ let h' = rw e at h in (h'.0, h'.1)
    | inr e ↦
        let h' = rw e at h in let (one, rest) = All-insert le r rows h'.1 in (one, (h'.0, rest))
  ]

  pub All-order : (le : R → R → Bool) (rows : List R) → All P (order_by le rows) → All P rows
  All-order le [] h = tt
  All-order le (r ∷ rows) h =
      let (one, rest) = All-insert le r (order_by le rows) h in (one, All-order le rows rest)
