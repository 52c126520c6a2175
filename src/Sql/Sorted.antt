-- ===== src/Sql/Sorted.antt =====
-- What ORDER BY and LIMIT select: the first rows in an order.
use lets_go.Prelude.{
  ℕ, zero, suc, ◌≡◌, refl, ap, ◌⊎◌, inl, inr, Bool, true, false, List, [], ◌∷◌, Bool-cases, All,
  map-All, take, take-All, select, length,
}
use lets_go.Sql.Order.{insert_by, order_by, insert-All}

module _ {R : Type 0} where
  -- A row is in a table.
  abbrev pub In : R → List R → Type 0
  In r [] = ⊥
  In r (x ∷ rows) = (r ≡ x) ⊎ In r rows

  insert-In :
      (le : R → R → Bool) (r x : R) (rows : List R) → In r (x ∷ rows) → In r (insert_by le x rows)
  insert-In le r x [] h = h
  insert-In le r x (y ∷ rows) h = elim (Bool-cases (le x y)) [
    | inl e ↦ rw e h
    | inr e ↦ rw e (elim h [
      | inl same ↦ inr (insert-In le r x rows (inl same))
      | inr later ↦ elim later [
        | inl same ↦ inl same
        | inr last ↦ inr (insert-In le r x rows (inr last))
      ]
    ])
  ]

  pub order-In : (le : R → R → Bool) (r : R) (rows : List R) → In r rows → In r (order_by le rows)
  order-In le r [] h = h
  order-In le r (x ∷ rows) h =
      insert-In le r x (order_by le rows)
        (elim h [ inl same ↦ inl same | inr later ↦ inr (order-In le r rows later) ])

  pub select-In :
      (p : R → Bool) (r : R) (rows : List R) → In r rows → p r ≡ true → In r (select p rows)
  select-In p r [] h k = h
  select-In p r (x ∷ rows) (inl same) k = let hit : p x ≡ true = rw (← same) k in rw hit (inl same)
  select-In p r (x ∷ rows) (inr later) k = elim (Bool-cases (p x)) [
    | inl e ↦ rw e (inr (select-In p r rows later k))
    | inr e ↦ rw e (select-In p r rows later k)
  ]

  All-In : (P : R → Type 0) (r : R) (rows : List R) → All P rows → In r rows → P r
  All-In P r [] h k = elim k [ ]
  All-In P r (x ∷ rows) h (inl same) = rw same h.0
  All-In P r (x ∷ rows) h (inr later) = All-In P r rows h.1 later

-- Rows in the order of a relation.
module _ {R : Type 0} (B : R → R → Type 0) where
  abbrev pub Sorted : List R → Type 0
  Sorted [] = Unit
  Sorted (x ∷ rows) = All (B x) rows × Sorted rows

  insert-Sorted :
      (le : R → R → Bool)
      → ((a b : R) → le a b ≡ true → B a b)
      → ((a b : R) → le a b ≡ false → B b a)
      → ((a b c : R) → B a b → B b c → B a c)
      → (r : R) (rows : List R) → Sorted rows
      → Sorted (insert_by le r rows)
  insert-Sorted le hit miss trans r [] h = (tt, tt)
  insert-Sorted le hit miss trans r (x ∷ rows) (above, h) = elim (Bool-cases (le r x)) [
    | inl e ↦
        rw e
          (((hit r x e, map-All _ (B r) (λ b q. trans r x b (hit r x e) q) rows above), (above, h)))
    | inr e ↦
        rw e
          (insert-All (B x) le r rows (miss r x e) above, insert-Sorted le hit miss trans r rows h)
  ]

  pub order-Sorted :
      (le : R → R → Bool)
      → ((a b : R) → le a b ≡ true → B a b)
      → ((a b : R) → le a b ≡ false → B b a)
      → ((a b c : R) → B a b → B b c → B a c)
      → (rows : List R) → Sorted (order_by le rows)
  order-Sorted le hit miss trans [] = tt
  order-Sorted le hit miss trans (r ∷ rows) =
      insert-Sorted le hit miss trans r (order_by le rows) (order-Sorted le hit miss trans rows)

  pub take-Sorted : (n : ℕ) (rows : List R) → Sorted rows → Sorted (take n rows)
  take-Sorted zero rows h = tt
  take-Sorted (suc n) [] h = tt
  take-Sorted (suc n) (x ∷ rows) h = (take-All (B x) n rows h.0, take-Sorted n rows h.1)

  -- A row is among the first ones, or all of these are before it.
  pub take-In :
      (n : ℕ) (r : R) (rows : List R)
      → Sorted rows
      → In r rows
      → In r (take n rows) ⊎ (length (take n rows) ≡ n) × All (λ a. B a r) (take n rows)
  take-In zero r rows h k = inr (refl, tt)
  take-In (suc n) r [] h k = elim k [ ]
  take-In (suc n) r (x ∷ rows) h (inl same) = inl (inl same)
  take-In (suc n) r (x ∷ rows) h (inr later) = elim (take-In n r rows h.1 later) [
    | inl found ↦ inl (inr found)
    | inr (full, before) ↦ inr (ap suc full, (All-In (B x) r rows h.0 later, before))
  ]
