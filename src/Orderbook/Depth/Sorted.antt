-- ===== src/Orderbook/Depth/Sorted.antt =====
-- order_sorter.go: `sort.Sort` by price and the depth of the orders.
use blockchain_relay_layer.Base.{
  ℕ, ◌≤◌, ◌<◌, ◌≡◌, refl, List, [], ◌∷◌, arith, Bool, true, false, All, Bool-cases, inl, inr, ◌∙◌,
}
use blockchain_relay_layer.Orders.Types.{Order}
use blockchain_relay_layer.Orderbook.Sorter.{
  less_price_asc_id_desc, less_price_asc_id_asc, insert_sorted, sort,
}
use blockchain_relay_layer.Orderbook.Depth.{supply_at, demand_at, Ascending}

-- The orders have a positive quantity, as `Matcher.AddOrder` requires.
abbrev pub Positive : List Order → Type 0
Positive = All λ o. 0 < o.quantity

-- Orders that are less by price and ID are less or equal by price.
abbrev pub ByPrice : (Order → Order → Bool) → Type 0
ByPrice less =
    ((a b : Order) → less a b ≡ true → a.price ≤ b.price)
    × ((a b : Order) → less a b ≡ false → b.price ≤ a.price)

pub less_price_asc_id_desc-ByPrice : ByPrice less_price_asc_id_desc
unfolding less_price_asc_id_desc
less_price_asc_id_desc-ByPrice = (λ a b e. ground (arith, e), λ a b e. ground (arith, e))

pub less_price_asc_id_asc-ByPrice : ByPrice less_price_asc_id_asc
unfolding less_price_asc_id_asc
less_price_asc_id_asc-ByPrice = (λ a b e. ground (arith, e), λ a b e. ground (arith, e))

module _ (less : Order → Order → Bool) where
  insert_sorted-Ascending :
      ByPrice less
      → (low : ℕ) (a : Order) (l : List Order) → Ascending low l
      → low ≤ a.price
      → 0 < a.quantity
      → Ascending low (insert_sorted less a l)
  unfolding insert_sorted
  insert_sorted-Ascending by low a [] h l q = (l, q, tt)
  insert_sorted-Ascending by low a (b ∷ bs) h l q = elim (Bool-cases (less b a)) [
    | inl e ↦ rw (e) (h.0, h.1, insert_sorted-Ascending by b.price a bs h.2 (by.0 b a e) q)
    | inr e ↦ rw (e) (l, q, (by.1 b a e, h.1, h.2))
  ]

  pub sort-Ascending : ByPrice less → (l : List Order) → Positive l → Ascending 0 (sort less l)
  unfolding sort
  sort-Ascending by [] h = tt
  sort-Ascending by (a ∷ l) h =
      insert_sorted-Ascending by 0 a (sort less l) (sort-Ascending by l h.1) (omega arith) h.0

  supply_at-insert_sorted :
      (p : ℕ) (a : Order) (l : List Order)
      → supply_at (insert_sorted less a l) p ≡ supply_at (a ∷ l) p
  unfolding insert_sorted
  supply_at-insert_sorted p a [] = refl
  supply_at-insert_sorted p a (b ∷ bs) = elim (Bool-cases (less b a)) [
    | inl e ↦ rw (e) (omega (arith, supply_at-insert_sorted p a bs))
    | inr e ↦ rw (e) refl
  ]

  pub supply_at-sort : (p : ℕ) (l : List Order) → supply_at (sort less l) p ≡ supply_at l p
  unfolding sort
  supply_at-sort p [] = refl
  supply_at-sort p (a ∷ l) =
      supply_at-insert_sorted p a (sort less l) ∙ omega (arith, supply_at-sort p l)

  demand_at-insert_sorted :
      (p : ℕ) (a : Order) (l : List Order)
      → demand_at (insert_sorted less a l) p ≡ demand_at (a ∷ l) p
  unfolding insert_sorted
  demand_at-insert_sorted p a [] = refl
  demand_at-insert_sorted p a (b ∷ bs) = elim (Bool-cases (less b a)) [
    | inl e ↦ rw (e) (omega (arith, demand_at-insert_sorted p a bs))
    | inr e ↦ rw (e) refl
  ]

  pub demand_at-sort : (p : ℕ) (l : List Order) → demand_at (sort less l) p ≡ demand_at l p
  unfolding sort
  demand_at-sort p [] = refl
  demand_at-sort p (a ∷ l) =
      demand_at-insert_sorted p a (sort less l) ∙ omega (arith, demand_at-sort p l)
