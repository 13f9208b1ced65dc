-- ===== src/Orderbook/Fills.antt =====
-- x/orderbook/internal/keeper/matcher.go: how much of each order is filled.
use blockchain_relay_layer.Base.{
  ℕ, ◌+◌, ◌-◌, Bool, not, ◌||◌, List, [], ◌∷◌, ltb, ◌==◌, if◌then◌else◌,
}
use mathlib.Core.List.{reverse}
use blockchain_relay_layer.Sdk.{DecOps, one_dec, dec_of}
use blockchain_relay_layer.Orders.Types.{Order, OrderFill}
use blockchain_relay_layer.Orderbook.Clearance.{ClearanceState}

-- The matched volume is a decimal, and a whole number.
abbrev pub order_fill : Order → ℕ → ℕ → OrderFill
order_fill o price quantity = record {
  order = o;
  clearance_price = price;
  quantity_filled = quantity;
  quantity_unfilled = o.quantity - quantity;
}

module _ (d : DecOps) where
  -- The quantity of the order that is filled: `adjust` says that its side is the larger one, and
  -- `ratio` is the part of it that is filled. `matched` is at most `max` here.
  unfoldable pub fill_quantity : Bool → ℕ → ℕ → ℕ → ℕ → ℕ
  fill_quantity adjust ratio max matched quantity =
      let wanted = d.ceil (d.mul (dec_of quantity) ratio) in
      let adjusted = d.round_int (if ltb max (matched + wanted) then max - matched else wanted) in
      if adjust then adjusted else quantity

  -- The loop of `getBidOrderFills`, over the bids from the highest price down.
  unfoldable pub bid_fills : ClearanceState → List Order → ℕ → List OrderFill × ℕ
  unfolding fill_quantity
  bid_fills cs [] matched = ([], matched)
  bid_fills cs (o ∷ os) matched =
      let q =
        fill_quantity (not (ltb one_dec cs.pro_rata)) cs.pro_rata cs.max_bid_volume matched
          o.quantity in
      let (fills, total) = bid_fills cs os (matched + dec_of q) in
      if ltb o.price cs.price || (matched == cs.max_bid_volume)
      then ([], matched)
      else if q == 0
      then (fills, total)
      else (order_fill o cs.price q ∷ fills, total)

  -- `getBidOrderFills`
  unfoldable pub get_bid_order_fills : ClearanceState → List Order → List OrderFill × ℕ
  unfolding bid_fills
  get_bid_order_fills cs bids = bid_fills cs (reverse bids) 0

  -- The loop of `getAskOrderFills`, over the asks from the lowest price up.
  unfoldable pub ask_fills : ClearanceState → List Order → ℕ → List OrderFill × ℕ
  unfolding fill_quantity
  ask_fills cs [] matched = ([], matched)
  ask_fills cs (o ∷ os) matched =
      let q =
        fill_quantity (ltb one_dec cs.pro_rata) cs.pro_rata_invert cs.max_ask_volume matched
          o.quantity in
      let (fills, total) = ask_fills cs os (matched + dec_of q) in
      if ltb cs.price o.price || (matched == cs.max_ask_volume)
      then ([], matched)
      else if q == 0
      then (fills, total)
      else (order_fill o cs.price q ∷ fills, total)

  -- `getAskOrderFills`
  unfoldable pub get_ask_order_fills : ClearanceState → List Order → List OrderFill × ℕ
  unfolding ask_fills
  get_ask_order_fills cs asks = ask_fills cs asks 0
