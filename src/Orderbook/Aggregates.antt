-- ===== src/Orderbook/Aggregates.antt =====
-- x/orderbook/internal/keeper/order_aggs.go: the quantity asked for, or offered, at each price.
use blockchain_relay_layer.Base.{ℕ, ◌+◌, List, [], ◌∷◌, ◌==◌, if◌then◌else◌}
use mathlib.Core.List.{reverse}
use blockchain_relay_layer.Orders.Types.{Order}

pub record OrderAggregate : Type 0 where
  pub price : ℕ
  pub quantity : ℕ

-- The aggregate of one order, with the quantity `before` already summed.
abbrev pub aggregate : Order → ℕ → OrderAggregate
aggregate o before = record { price = o.price; quantity = before + o.quantity }

-- The loop over the bids from the highest price down: `first` and `rest` are `aggs`.
unfoldable pub bid_loop : OrderAggregate → List OrderAggregate → List Order → List OrderAggregate
bid_loop first rest [] = first ∷ rest
bid_loop first rest (o ∷ os) =
    let same = bid_loop (record first { quantity = first.quantity + o.quantity }) rest os in
    let prepended = bid_loop (aggregate o first.quantity) (first ∷ rest) os in
    if first.price == o.price then same else prepended

unfoldable pub bid_from_last : List Order → List OrderAggregate
unfolding bid_loop
bid_from_last [] = []
bid_from_last (o ∷ os) = bid_loop (aggregate o 0) [] os

-- `NewBidOrderAggregates`
unfoldable pub new_bid_order_aggregates : List Order → List OrderAggregate
unfolding bid_from_last
new_bid_order_aggregates orders = bid_from_last (reverse orders)

-- The loop over the asks from the lowest price up: `last` is the last of `aggs`, and the ones
-- before it stand in front of the result.
unfoldable pub ask_loop : OrderAggregate → List Order → List OrderAggregate
ask_loop last [] = last ∷ []
ask_loop last (o ∷ os) =
    let same = ask_loop (record last { quantity = last.quantity + o.quantity }) os in
    let appended = last ∷ ask_loop (aggregate o last.quantity) os in
    if last.price == o.price then same else appended

-- `NewAskOrderAggregates`
unfoldable pub new_ask_order_aggregates : List Order → List OrderAggregate
unfolding ask_loop
new_ask_order_aggregates [] = []
new_ask_order_aggregates (o ∷ os) = ask_loop (aggregate o 0) os
