-- ===== src/Content/History/Safe.antt =====
-- What every transaction on the deliveries keeps: the constraints, and each row that is final.
use lets_go.Prelude.{
  ◌≤◌, ◌≡◌, refl, sym, ◌∙◌, ◌≢◌, ◌⊎◌, inl, inr, Bool, true, false, ◌&&◌, some, List, [], ◌∷◌, ◌++◌,
  arith, ◌==◌, Bool-cases, All,
}
use lets_go.Sql.Table.{find_row, update_where, affected}
use lets_go.Content.Tables.{Ident, Delivery, Tables, delivery_key}
use lets_go.Content.Delivery.{has_claim}
use lets_go.Content.Delivery.Valid.{IsValid, Keeps, update-IsValid}
use lets_go.Content.Delivery.Lookup.{Changed}

-- Succeeded, superseded or failed.
abbrev pub IsFinal : Delivery → Type 0
IsFinal r = 3 ≤ r.status

-- From one state of the deliveries to another, no constraint is broken and no final row changes.
pub record Safe (before after : List Delivery) : Type 0 where
  pub valid : IsValid before → IsValid after
  pub final :
      (e c : Ident) (r : Delivery)
      → find_row (delivery_key e c) before ≡ some r
      → IsFinal r
      → find_row (delivery_key e c) after ≡ some r

pub Safe-refl : (rows : List Delivery) → Safe rows rows
Safe-refl rows = record { valid = λ v. v; final = λ e c r h f. h }

pub Safe-trans : (xs ys zs : List Delivery) → Safe xs ys → Safe ys zs → Safe xs zs
Safe-trans xs ys zs h k = record {
  valid = λ v. k.valid (h.valid v);
  final = λ e c r found f. k.final e c r (h.final e c r found f) f;
}

-- Where every row of `ks` stands in the table and is not final, a final row's key is not in `ks`.
pub final_apart :
    (rows ks : List Delivery) (e c : Ident) (r : Delivery)
    → All
        (λ k. (find_row (delivery_key k.event_id k.consumer_name) rows ≡ some k) × (k.status ≤ 2))
        ks
    → find_row (delivery_key e c) rows ≡ some r
    → IsFinal r
    → affected (delivery_key e c) ks ≡ 0
final_apart rows [] e c r h found f = refl
final_apart rows (k ∷ ks) e c r h found f = elim (Bool-cases (delivery_key e c k)) [
  | inl hit ↦ elim (clash (ground arith) (ground arith)) [ ]
  | inr miss ↦ rw miss (final_apart rows ks e c r h.1 found f)
]
  where
    clash : k.event_id ≡ e → k.consumer_name ≡ c → ⊥
    clash p q =
        let same : some r ≡ some k = sym (rw (← p, ← q) at found) ∙ h.0.0 in
        let eq : r ≡ k = cc in omega (arith, rw eq at f, h.0.1)

-- The rows outside `ks` stand as they did.
pub Safe-rows :
    (before after ks : List Delivery)
    → (IsValid before → IsValid after)
    → All
        (λ k. (find_row (delivery_key k.event_id k.consumer_name) before ≡ some k) × (k.status ≤ 2))
        ks
    → ((e c : Ident)
        → affected (delivery_key e c) ks ≡ 0
        → find_row (delivery_key e c) after ≡ find_row (delivery_key e c) before)
    → Safe before after
Safe-rows before after ks valid unfinished untouched = record {
  valid = valid;
  final = λ e c r found f. untouched e c (final_apart before ks e c r unfinished found f) ∙ found;
}

-- One row that was under a claim is replaced.
pub Safe-Changed :
    (e c token : Ident) (row row' : Delivery) (before after : Tables)
    → Changed e c row' before after
    → find_row (delivery_key e c) before.deliveries ≡ some row
    → has_claim token row ≡ true
    → Safe before.deliveries after.deliveries
Safe-Changed e c token row row' before after h held claimed = record {
  valid = h.valid;
  final = λ e' c' r found f. elim (Bool-cases (e' == e && c' == c)) [
    | inl same ↦ elim (clash e' c' r found f (ground arith) (ground arith)) [ ]
    | inr other ↦ h.touches.others e' c' (apart e' c' other) ∙ found
  ];
}
  where
    clash :
        (e' c' : Ident) (r : Delivery)
        → find_row (delivery_key e' c') before.deliveries ≡ some r
        → IsFinal r
        → e' ≡ e
        → c' ≡ c
        → ⊥
    clash e' c' r found f p q =
        let same : some r ≡ some row = sym found ∙ rw (p, q) held in
        let eq : r ≡ row = cc in ground (arith, rw eq at f)

    apart : (e' c' : Ident) → (e' == e && c' == c) ≡ false → (e' ≢ e) ⊎ (c' ≢ c)
    apart e' c' other = elim (Bool-cases (e' == e)) [
      | inl p ↦ inr (ground arith)
      | inr p ↦ inl (ground arith)
    ]

-- The final status is stored under the claim.
pub Safe-update :
    {f : Delivery → Delivery} (e c token : Ident) (rows : List Delivery)
    → Keeps (λ r. delivery_key e c r && has_claim token r) f
    → Safe rows (update_where (λ r. delivery_key e c r && has_claim token r) f rows)
Safe-update {f} e c token rows keep = record {
  valid = update-IsValid rows keep;
  final = λ e' c' r found final. kept e' c' r rows found final;
}
  where
    kept :
        (e' c' : Ident) (r : Delivery) (rows : List Delivery)
        → find_row (delivery_key e' c') rows ≡ some r
        → IsFinal r
        → find_row
            (delivery_key e' c')
            (update_where (λ r. delivery_key e c r && has_claim token r) f rows)
          ≡ some r
    kept e' c' r [] h final = cc
    kept e' c' r (x ∷ rows) h final = elim (Bool-cases (delivery_key e' c' x)) [
      | inl hit ↦
          let eq : x ≡ r = ground arith in
          let kind : has_claim token x ≡ false = ground (arith, rw (← eq) at final) in
          rw kind (ground arith)
      | inr miss ↦ ground (arith, keep.key e' c' x, kept e' c' r rows)
    ]

-- Rows are added behind the others.
pub find-append :
    (p : Delivery → Bool) (rows more : List Delivery) (r : Delivery)
    → find_row p rows ≡ some r
    → find_row p (rows ++ more) ≡ some r
find-append p [] more r h = cc
find-append p (x ∷ rows) more r h = ground (arith, find-append p rows more r)
