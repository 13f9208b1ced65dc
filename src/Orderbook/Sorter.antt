-- ===== src/Orderbook/Sorter.antt =====
-- x/orderbook/internal/keeper/order_sorter.go: the two orders in which a market's orders are
-- sorted. `sort.Sort` of Go's library is modelled by an insertion sort: the IDs are different, so
-- that only one sorted order exists.
use blockchain_relay_layer.Base.{Bool, List, [], ◌∷◌, ltb, ◌==◌, if◌then◌else◌}
use blockchain_relay_layer.Orders.Types.{Order}

-- `ByPriceAscIDDesc.Less`
unfoldable pub less_price_asc_id_desc : Order → Order → Bool
less_price_asc_id_desc a b = if a.price == b.price then ltb b.id a.id else ltb a.price b.price

-- `ByPriceAscIDAsc.Less`
unfoldable pub less_price_asc_id_asc : Order → Order → Bool
less_price_asc_id_asc a b = if a.price == b.price then ltb a.id b.id else ltb a.price b.price

module _ {A : Type 0} (less : A → A → Bool) where
  unfoldable pub insert_sorted : A → List A → List A
  insert_sorted a [] = a ∷ []
  insert_sorted a (b ∷ bs) = if less b a then b ∷ insert_sorted a bs else a ∷ b ∷ bs

  -- `sort.Sort`
  unfoldable pub sort : List A → List A
  unfolding insert_sorted
  sort [] = []
  sort (a ∷ as_) = insert_sorted a (sort as_)
