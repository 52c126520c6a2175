-- ===== src/Sql/Table.antt =====
-- The shapes of SQL that the models of both servers use: a table is the list of its rows, and a
-- statement picks rows by a Boolean WHERE clause.
use lets_go.Prelude.{
  ℕ, zero, suc, ◌≤◌, ◌≡◌, refl, Bool, true, false, ◌&&◌, Option, none, some, List, [], ◌∷◌, arith,
  inl, inr, Bool-cases, if◌then◌else◌, All, select, take,
}

module _ {R : Type 0} where
  -- SELECT … LIMIT 1: the first row that fits.
  abbrev pub find_row : (R → Bool) → List R → Option R
  find_row p [] = none
  find_row p (r ∷ rows) = if p r then some r else find_row p rows

  -- UPDATE … WHERE
  abbrev pub update_where : (R → Bool) → (R → R) → List R → List R
  update_where p f [] = []
  update_where p f (r ∷ rows) = (if p r then f r else r) ∷ update_where p f rows

  -- DELETE … WHERE
  abbrev pub delete_where : (R → Bool) → List R → List R
  delete_where p [] = []
  delete_where p (r ∷ rows) = if p r then delete_where p rows else r ∷ delete_where p rows

  -- The number of rows that a WHERE clause picks, which is what `RowsAffected` returns.
  abbrev pub affected : (R → Bool) → List R → ℕ
  affected p [] = 0
  affected p (r ∷ rows) = if p r then suc (affected p rows) else affected p rows

  abbrev pub picked : (R → Bool) → Option R → ℕ
  picked p none = 0
  picked p (some r) = if p r then 1 else 0

  abbrev pub updated : (R → Bool) → (R → R) → Option R → Option R
  updated p f none = none
  updated p f (some r) = some (if p r then f r else r)

  pub affected-and-le :
      (k p : R → Bool) (rows : List R) → affected (λ r. k r && p r) rows ≤ affected k rows
  affected-and-le k p [] = omega arith
  affected-and-le k p (r ∷ rows) = ground (arith, affected-and-le k p rows)

  pub affected_of_find :
      (k : R → Bool) (rows : List R) (r : R) → find_row k rows ≡ some r → 1 ≤ affected k rows
  affected_of_find k [] r h = ground arith
  affected_of_find k (x ∷ rows) r h = ground (arith, affected_of_find k rows r)

  pub find_none_of_affected :
      (k : R → Bool) (rows : List R) → affected k rows ≡ 0 → find_row k rows ≡ none
  find_none_of_affected k [] h = refl
  find_none_of_affected k (x ∷ rows) h = ground (arith, find_none_of_affected k rows)

  pub affected-none_of_find :
      (k : R → Bool) (rows : List R) → find_row k rows ≡ none → affected k rows ≡ 0
  affected-none_of_find k [] h = refl
  affected-none_of_find k (x ∷ rows) h = ground (arith, affected-none_of_find k rows)

  -- Where a key fits at most one row, a statement on that key touches the row that a search finds.
  pub affected-key :
      (k p : R → Bool) (rows : List R)
      → affected k rows ≤ 1
      → affected (λ r. k r && p r) rows ≡ picked p (find_row k rows)
  affected-key k p [] h = refl
  affected-key k p (x ∷ rows) h = ground (arith, affected-key k p rows, affected-and-le k p rows)

  -- Under such a key, a search that asks for more finds the row of the key or nothing.
  pub find-key_and :
      (k p : R → Bool) (rows : List R) (r : R)
      → affected k rows ≤ 1
      → find_row (λ x. k x && p x) rows ≡ some r
      → (find_row k rows ≡ some r) × (p r ≡ true)
  find-key_and k p [] r u h = cc
  find-key_and k p (x ∷ rows) r u h =
      ground (arith, find-key_and k p rows r, affected_of_find k rows r)

  pub find-fits : (k : R → Bool) (rows : List R) (r : R) → find_row k rows ≡ some r → k r ≡ true
  find-fits k [] r h = cc
  find-fits k (x ∷ rows) r h = elim (Bool-cases (k x)) [
    | inl hit ↦ let same : x ≡ r = ground arith in rw (← same) hit
    | inr miss ↦ find-fits k rows r (ground arith)
  ]

  -- An update that keeps a key acts on the row that a search for the key finds.
  pub find-update :
      (j p : R → Bool) (f : R → R)
      → ((r : R) → j (f r) ≡ j r)
      → (rows : List R) → find_row j (update_where p f rows) ≡ updated p f (find_row j rows)
  find-update j p f keep [] = refl
  find-update j p f keep (x ∷ rows) = ground (arith, keep x, find-update j p f keep rows)

  pub find-delete : (p : R → Bool) (rows : List R) → find_row p (delete_where p rows) ≡ none
  find-delete p [] = refl
  find-delete p (x ∷ rows) = ground (arith, find-delete p rows)

  pub find-delete_other :
      (j p : R → Bool)
      → ((r : R) → j r ≡ true → p r ≡ false)
      → (rows : List R) → find_row j (delete_where p rows) ≡ find_row j rows
  find-delete_other j p apart [] = refl
  find-delete_other j p apart (x ∷ rows) = ground (arith, apart x, find-delete_other j p apart rows)

  pub find-update_same :
      (k p : R → Bool) (f : R → R)
      → ((r : R) → k (f r) ≡ k r)
      → (rows : List R)
      → find_row k (update_where (λ r. k r && p r) f rows) ≡ updated p f (find_row k rows)
  find-update_same k p f keep [] = refl
  find-update_same k p f keep (x ∷ rows) = ground (arith, keep x, find-update_same k p f keep rows)

  pub find-update_other :
      (j p : R → Bool) (f : R → R)
      → ((r : R) → j (f r) ≡ j r)
      → ((r : R) → j r ≡ true → p r ≡ false)
      → (rows : List R) → find_row j (update_where p f rows) ≡ find_row j rows
  find-update_other j p f keep apart [] = refl
  find-update_other j p f keep apart (x ∷ rows) =
      ground (arith, keep x, apart x, find-update_other j p f keep apart rows)

  pub affected-update :
      (j p : R → Bool) (f : R → R)
      → ((r : R) → j (f r) ≡ j r)
      → (rows : List R) → affected j (update_where p f rows) ≡ affected j rows
  affected-update j p f keep [] = refl
  affected-update j p f keep (x ∷ rows) = ground (arith, keep x, affected-update j p f keep rows)

  pub affected-select :
      (j p : R → Bool) (rows : List R) → affected j (select p rows) ≤ affected j rows
  affected-select j p [] = omega arith
  affected-select j p (x ∷ rows) = ground (arith, affected-select j p rows)

  pub affected-take :
      (j : R → Bool) (n : ℕ) (rows : List R) → affected j (take n rows) ≤ affected j rows
  affected-take j zero rows = omega arith
  affected-take j (suc n) [] = omega arith
  affected-take j (suc n) (x ∷ rows) = ground (arith, affected-take j n rows)

module _ {R : Type 0} (P : R → Type 0) where
  pub update-All :
      (p : R → Bool) (f : R → R)
      → ((r : R) → P r → p r ≡ true → P (f r))
      → (rows : List R) → All P rows
      → All P (update_where p f rows)
  update-All p f step [] h = tt
  update-All p f step (x ∷ rows) h = (one (p x) refl, update-All p f step rows h.1)
    where
      one : (b : Bool) → p x ≡ b → P (if b then f x else x)
      one true e = step x h.0 e
      one false e = h.0

  pub find-All :
      (k : R → Bool) (rows : List R) (r : R)
      → All P rows
      → find_row k rows ≡ some r
      → P r × (k r ≡ true)
  find-All k [] r h e = cc
  find-All k (x ∷ rows) r h e = elim (Bool-cases (k x)) [
    | inl hit ↦ ground (arith, h.0)
    | inr miss ↦ find-All k rows r h.1 (ground arith)
  ]

  pub select-All :
      (p : R → Bool) (rows : List R) → All P rows → All (λ r. P r × (p r ≡ true)) (select p rows)
  select-All p [] h = tt
  select-All p (x ∷ rows) h = elim (Bool-cases (p x)) [
    | inl hit ↦ rw hit ((h.0, hit), select-All p rows h.1)
    | inr miss ↦ rw miss (select-All p rows h.1)
  ]
