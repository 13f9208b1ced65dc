-- ===== src/Orders/Genesis.antt =====
-- x/orders/internal/keeper/genesis.go, and the validation of x/orders/internal/types/genesis.go and
-- order.go.
use blockchain_relay_layer.Base.{
  ℕ, ◌≡◌, ◌≤◌, refl, Bool, true, false, Option, none, some, List, [], ◌∷◌, map, ◌==◌, ltb, leb,
  ◌&&◌, ◌||◌, not, if◌then◌else◌, elem, arith, inl, inr, ◌⊎◌, Bool-cases, Option-cases,
}
use blockchain_relay_layer.Base.Map.{has}
use blockchain_relay_layer.Base.Action.{ok, err, panic, Action}
use blockchain_relay_layer.Ccstorage.Types.{Name}
use blockchain_relay_layer.Markets.Keeper as Markets
use blockchain_relay_layer.Orders.Types.{Error, Address, Order, bid, ask, unknown}
use blockchain_relay_layer.Orders.Keeper.{State, get_list, set}

pub record GenesisState : Type 0 where
  pub orders : List Order
  pub last_order_id : Option ℕ

-- The checks of a denom's characters and of an address, and the clock of the machine; the zero time
-- and the empty address are 0.
pub record Checks : Type 0 where
  pub denom_filter : Name → Bool
  pub address_format : Address → Bool
  pub now : ℕ

abbrev pub direction_is_valid : Order → Bool
direction_is_valid o = elim o.direction [ bid ↦ true | ask ↦ true | unknown ↦ false ]

-- `Order.Valid`
abbrev pub order_is_valid : Checks → Order → Bool
order_is_valid c o =
    not (o.owner == 0)
    && c.address_format o.owner
    && c.denom_filter o.market.base_currency.denom
    && c.denom_filter o.market.quote_currency.denom
    && direction_is_valid o
    && not (o.price == 0)
    && not (o.quantity == 0)
    && leb o.created_at o.updated_at
    && not (o.created_at == 0)
    && leb o.created_at c.now
    && not (o.updated_at == 0)
    && leb o.updated_at c.now

-- An order is not later than the block, where that has a time.
abbrev pub not_after_block : ℕ → Order → Bool
not_after_block block_time o =
    block_time == 0 || (leb o.created_at block_time && leb o.updated_at block_time)

-- The loop of `GenesisState.Validate`: the ids met so far, and the greatest of them.
unfoldable pub validate_orders : Checks → ℕ → List ℕ → ℕ → List Order → Option ℕ
validate_orders c block_time seen max_id [] = some max_id
validate_orders c block_time seen max_id (o ∷ os) =
    let rest =
      validate_orders c block_time (o.id ∷ seen) (if ltb max_id o.id then o.id else max_id) os in
    if order_is_valid c o && not_after_block block_time o
    then if elem o.id seen then none else rest
    else none

abbrev pub last_id_matches : Option ℕ → List Order → ℕ → Bool
last_id_matches none [] max_id = true
last_id_matches none (o ∷ os) max_id = false
last_id_matches (some last) [] max_id = false
last_id_matches (some last) (o ∷ os) max_id = last == max_id

-- `GenesisState.Validate`
unfoldable pub validate : Checks → ℕ → GenesisState → Bool
unfolding validate_orders
validate c block_time g = elim (validate_orders c block_time [] 0 g.orders) [
  | none ↦ false
  | some max_id ↦ last_id_matches g.last_order_id g.orders max_id
]

module _ {B : Type 0} where
  -- The loop of `InitGenesis`: the market of each order must exist.
  unfoldable pub set_orders : Markets.State → List Order → Action (State B) Error (Unit {0})
  set_orders ms [] s = (ok tt, s)
  set_orders ms (o ∷ os) s =
      let rest = set_orders ms os (set o s) in
      if has o.market.id ms.markets then rest else (panic, s)

  abbrev pub set_id : Option ℕ → State B → State B
  set_id none s = s
  set_id (some last) s = record s { last_order_id = some last }

  -- `InitGenesis`
  unfoldable pub init_genesis :
      Checks → Markets.State → ℕ → GenesisState → Action (State B) Error (Unit {0})
  unfolding validate set_orders
  init_genesis c ms block_time g s =
      let (r, s') = set_orders ms g.orders s in
      if validate c block_time g
      then elim r [
        | ok _ ↦ (ok tt, set_id g.last_order_id s')
        | err e ↦ (err e, s')
        | panic ↦ (panic, s')
      ]
      else (panic, s)

  -- `ExportGenesis`
  unfoldable pub export_genesis : State B → GenesisState
  export_genesis s = record { orders = get_list s; last_order_id = s.last_order_id }

abbrev pub order_ids : List Order → List ℕ
order_ids = map λ o. o.id

abbrev pub markets_exist : Markets.State → List Order → Bool
markets_exist ms [] = true
markets_exist ms (o ∷ os) = has o.market.id ms.markets && markets_exist ms os

module _ (c : Checks) (block_time : ℕ) where
  first_valid :
      (seen : List ℕ) (max_id top : ℕ) (o : Order) (os : List Order)
      → validate_orders c block_time seen max_id (o ∷ os) ≡ some top
      → (elem o.id seen ≡ false)
        × (validate_orders c block_time (o.id ∷ seen) (if ltb max_id o.id then o.id else max_id) os
            ≡ some top)
  unfolding validate_orders
  first_valid seen max_id top o os h =
      elim (Bool-cases (order_is_valid c o && not_after_block block_time o)) [
        | inr e ↦ absurd (ground (arith, let g = rw (e) at h in g))
        | inl e ↦ let g = rw (e) at h in ground (arith, g)
      ]

  -- The greatest id is that of an order, or the one at the start; and none is greater.
  top_id :
      (seen : List ℕ) (max_id top : ℕ) (os : List Order)
      → validate_orders c block_time seen max_id os ≡ some top
      → (max_id ≤ top) × ((top ≡ max_id) ⊎ (elem top (order_ids os) ≡ true))
  unfolding validate_orders
  top_id seen max_id top [] h = ground arith
  top_id seen max_id top (o ∷ os) h =
      let (unseen, rest) = first_valid seen max_id top o os h in
      let (above, found) =
        top_id (o.id ∷ seen) (if ltb max_id o.id then o.id else max_id) top os rest in
      ground (arith, above, found)

  invalid :
      (last : ℕ) (os : List Order) (o : Option ℕ)
      → o ≡ some last
      → elem last (order_ids os) ≡ false
      → validate c block_time (record { orders = os; last_order_id = o }) ≡ false
  unfolding validate
  invalid last [] o e h = rw (e) (ground arith)
  invalid last (x ∷ os) o e h = elim (Option-cases (validate_orders c block_time [] 0 (x ∷ os))) [
    | inl f ↦ rw (validate, f) refl
    | inr (top, f) ↦
        let (above, found) = top_id [] 0 top (x ∷ os) f in
        let (first, rest) = first_valid [] 0 top x os f in
        let (over, _) = top_id (x.id ∷ []) (if ltb 0 x.id then x.id else 0) top os rest in
        rw (validate, f, e) (ground (arith, found, over, h))
  ]

  -- The export of a store that has given out ids, but no longer has the order with the last one, is
  -- no valid genesis state, and a chain that starts from it panics.
  pub export_without_last :
      {B : Type 0} (ms : Markets.State) (last : ℕ) (s t : State B)
      → s.last_order_id ≡ some last
      → elem last (order_ids (get_list s)) ≡ false
      → init_genesis c ms block_time (export_genesis s) t ≡ (panic, t)
  unfolding init_genesis export_genesis
  export_without_last ms last s t e h =
      let bad : validate c block_time (export_genesis s) ≡ false =
        invalid last (get_list s) s.last_order_id e h in
      rw (bad) refl
