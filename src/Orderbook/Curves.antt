-- ===== src/Orderbook/Curves.antt =====
-- x/orderbook/internal/keeper/pq_curves.go: the supply and demand curves.
use blockchain_relay_layer.Base.{
  ℕ, Bool, true, not, ◌&&◌, List, [], ◌∷◌, map, ltb, leb, ◌==◌, if◌then◌else◌,
}
use blockchain_relay_layer.Base.Action.{Result, ok, err}
use blockchain_relay_layer.Orderbook.Aggregates.{OrderAggregate}

pub record SdItem : Type 0 where
  pub price : ℕ
  pub supply : ℕ
  pub demand : ℕ

-- `ErrInternal` and the plain errors of this file; only the first makes the pool panic.
pub data Error : Type 0 where
  internal no_orders no_crossing empty_curves : Error

pub data Balance : Type 0 where
  more_supply balanced more_demand : Balance

-- `SupplyDemandBalance`
unfoldable pub supply_demand_balance : SdItem → Balance
supply_demand_balance i =
    if ltb i.demand i.supply
    then more_supply
    else if i.supply == i.demand
    then balanced
    else more_demand

-- `sort.SliceIsSorted`: no element is less than the one before it.
unfoldable pub slice_is_sorted : {A : Type 0} → (A → A → Bool) → List A → Bool
slice_is_sorted less [] = true
slice_is_sorted less (a ∷ []) = true
slice_is_sorted less (a ∷ b ∷ l) = not (less b a) && slice_is_sorted less (b ∷ l)

abbrev pub ask_less : OrderAggregate → OrderAggregate → Bool
ask_less a b = ltb a.price b.price && leb a.quantity b.quantity

abbrev pub bid_less : OrderAggregate → OrderAggregate → Bool
bid_less a b = ltb a.price b.price && leb b.quantity a.quantity

abbrev pub last_price : OrderAggregate → List OrderAggregate → ℕ
last_price a [] = a.price
last_price a (b ∷ l) = last_price b l

-- `addAskOrders` on the empty curves
unfoldable pub add_ask_orders : List OrderAggregate → List SdItem
add_ask_orders = map λ a. record { price = a.price; supply = a.quantity; demand = 0 }

-- One turn of `addBidOrders`. The curve is sorted by price, so that `sort.Search` finds the first
-- point whose price is not below.
unfoldable pub add_bid_order : OrderAggregate → List SdItem → List SdItem
add_bid_order a [] = record { price = a.price; supply = 0; demand = a.quantity } ∷ []
add_bid_order a (i ∷ c) =
    if leb a.price i.price
    then if i.price == a.price
      then record i { demand = a.quantity } ∷ c
      else record { price = a.price; supply = 0; demand = a.quantity } ∷ i ∷ c
    else i ∷ add_bid_order a c

unfoldable pub add_bid_orders : List OrderAggregate → List SdItem → List SdItem
unfolding add_bid_order
add_bid_orders [] c = c
add_bid_orders (a ∷ aggs) c = add_bid_orders aggs (add_bid_order a c)

-- The pass of `fixZeroSupplyDemand` from the left: `fill` is the supply of `askFillItem`.
unfoldable pub fix_supply : ℕ → List SdItem → List SdItem
fix_supply fill [] = []
fix_supply fill (i ∷ c) =
    let s = if i.supply == 0 then fill else i.supply in record i { supply = s } ∷ fix_supply s c

-- The pass from the right; the number is the demand of `bidFillItem` for the points on the left.
unfoldable pub fix_demand : List SdItem → ℕ × List SdItem
fix_demand [] = (0, [])
fix_demand (i ∷ c) =
    let (fill, rest) = fix_demand c in
    let d = if i.demand == 0 then fill else i.demand in (d, record i { demand = d } ∷ rest)

-- `fixZeroSupplyDemand`: the passes write different fields.
unfoldable pub fix_zero_supply_demand : List SdItem → List SdItem
unfolding fix_supply fix_demand
fix_zero_supply_demand c = (fix_demand (fix_supply 0 c)).1

unfoldable pub merge_curves : List OrderAggregate → List OrderAggregate → List SdItem
unfolding add_ask_orders add_bid_orders fix_zero_supply_demand
merge_curves ask_aggs bid_aggs =
    fix_zero_supply_demand (add_bid_orders bid_aggs (add_ask_orders ask_aggs))

-- `NewSDCurves`
unfoldable pub new_sd_curves :
    List OrderAggregate → List OrderAggregate → Result Error (List SdItem)
unfolding slice_is_sorted
new_sd_curves [] bid_aggs = err no_orders
new_sd_curves (a ∷ ask_aggs) [] = err no_orders
new_sd_curves (a ∷ ask_aggs) (b ∷ bid_aggs) =
    if not (slice_is_sorted ask_less (a ∷ ask_aggs))
    then err internal
    else if not (slice_is_sorted bid_less (b ∷ bid_aggs))
    then err internal
    else if ltb (last_price b bid_aggs) a.price
    then err no_crossing
    else ok (merge_curves (a ∷ ask_aggs) (b ∷ bid_aggs))
