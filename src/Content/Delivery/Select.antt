-- ===== src/Content/Delivery/Select.antt =====
-- What SELECT … WHERE … ORDER BY … LIMIT returns of the table of deliveries.
use lets_go.Prelude.{
  ℕ, ◌≤◌, ◌≡◌, Bool, true, some, List, [], ◌∷◌, arith, All, map-All, take, select, length, take-All,
  length-take,
}
use lets_go.Sql.Table.{find_row, affected_of_find, affected-select, affected-take, select-All}
use lets_go.Sql.Order.{order_by, affected-order, order-All}
use lets_go.Content.Tables.{Delivery, delivery_key}
use lets_go.Content.Delivery.Valid.{IsUnique}

abbrev pub selected :
    (Delivery → Bool) → (Delivery → Delivery → Bool) → ℕ → List Delivery → List Delivery
selected p le limit rows = take limit (order_by le (select p rows))

pub find_self :
    (rows : List Delivery)
    → IsUnique rows
    → All (λ r. find_row (delivery_key r.event_id r.consumer_name) rows ≡ some r) rows
find_self [] u = tt
find_self (x ∷ rows) u =
    (ground arith, map-All _ _ later rows (find_self rows (λ e c. ground (arith, u e c))))
  where
    later :
        (r : Delivery)
        → find_row (delivery_key r.event_id r.consumer_name) rows ≡ some r
        → find_row (delivery_key r.event_id r.consumer_name) (x ∷ rows) ≡ some r
    later r h = ground (
      arith,
      u r.event_id r.consumer_name,
      affected_of_find (delivery_key r.event_id r.consumer_name) rows r,
    )

module _ (p : Delivery → Bool) (le : Delivery → Delivery → Bool) (limit : ℕ)
    (rows : List Delivery) where
  pub selected-All :
      (P : Delivery → Type 0)
      → All P rows
      → All (λ r. P r × (p r ≡ true)) (selected p le limit rows)
  selected-All P h = take-All _ limit _ (order-All _ le _ (select-All P p rows h))

  pub selected-IsUnique : IsUnique rows → IsUnique (selected p le limit rows)
  selected-IsUnique u e c = omega (
    arith,
    u e c,
    affected-take (delivery_key e c) limit (order_by le (select p rows)),
    affected-order (delivery_key e c) le (select p rows),
    affected-select (delivery_key e c) p rows,
  )

  pub length-selected : length (selected p le limit rows) ≤ limit
  length-selected = length-take limit (order_by le (select p rows))
