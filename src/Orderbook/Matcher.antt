-- ===== src/Orderbook/Matcher.antt =====
-- x/orderbook/internal/keeper/matcher.go and matcher_pool.go: one matcher for each market.
use blockchain_relay_layer.Base.{ℕ, not, List, [], ◌∷◌, ◌++◌, ◌==◌, if◌then◌else◌, length}
use blockchain_relay_layer.Base.Action.{Result, ok, err, panic}
use blockchain_relay_layer.Sdk.{DecOps}
use blockchain_relay_layer.Orders.Types.{Order, OrderFill, bid, ask, unknown}
use blockchain_relay_layer.Orderbook.Sorter.{sort, less_price_asc_id_desc, less_price_asc_id_asc}
use blockchain_relay_layer.Orderbook.Aggregates.{new_bid_order_aggregates, new_ask_order_aggregates}
use blockchain_relay_layer.Orderbook.Curves.{Error, internal, new_sd_curves}
use blockchain_relay_layer.Orderbook.Clearance.{SortSlice, ClearanceState, get_clearance_state}
use blockchain_relay_layer.Orderbook.Fills.{get_bid_order_fills, get_ask_order_fills}

-- `Matcher`: the aggregates and the curves are computed anew by each `Match`.
pub record Matcher : Type 0 where
  pub market_id : ℕ
  pub bids : List Order
  pub asks : List Order

-- `NewMatcher`
abbrev pub new_matcher : ℕ → Matcher
new_matcher market_id = record { market_id = market_id; bids = []; asks = [] }

pub data AddError : Type 0 where
  market_mismatch zero_price zero_quantity unknown_direction : AddError

-- `Matcher.AddOrder`; the limit on the number of orders is that of the machine's memory.
unfoldable pub add_order : Order → Matcher → Result AddError Matcher
add_order o m =
    if not (o.market.id == m.market_id)
    then err market_mismatch
    else if o.price == 0
    then err zero_price
    else if o.quantity == 0
    then err zero_quantity
    else elim o.direction [
      | bid ↦ ok (record m { bids = m.bids ++ o ∷ [] })
      | ask ↦ ok (record m { asks = m.asks ++ o ∷ [] })
      | unknown ↦ err unknown_direction
    ]

-- x/orderbook/internal/types/matcher_result.go
pub record MatcherResult : Type 0 where
  pub result_market_id : ℕ
  pub bid_orders_count : ℕ
  pub ask_orders_count : ℕ
  pub clearance_state : ClearanceState
  pub matched_bid_volume : ℕ
  pub matched_ask_volume : ℕ
  pub order_fills : List OrderFill

module _ (sort_slice : SortSlice) (d : DecOps) where
  -- The orders are sorted already.
  abbrev pub fill_orders : ℕ → List Order → List Order → ClearanceState → MatcherResult
  fill_orders market_id bids asks cs =
      let (bid_list, bid_volume) = get_bid_order_fills d cs bids in
      let (ask_list, ask_volume) = get_ask_order_fills d cs asks in
      record {
        result_market_id = market_id;
        bid_orders_count = length bids;
        ask_orders_count = length asks;
        clearance_state = cs;
        matched_bid_volume = bid_volume;
        matched_ask_volume = ask_volume;
        order_fills = bid_list ++ ask_list;
      }

  unfoldable pub match_sorted : ℕ → List Order → List Order → Result Error MatcherResult
  match_sorted market_id bids asks =
      elim (new_sd_curves (new_ask_order_aggregates asks) (new_bid_order_aggregates bids)) [
        | err e ↦ err e
        | panic ↦ panic
        | ok c ↦ elim (get_clearance_state sort_slice d c) [
          | err e ↦ err e
          | panic ↦ panic
          | ok cs ↦ ok (fill_orders market_id bids asks cs)
        ]
      ]

  -- `Match`
  unfoldable pub match_orders : Matcher → Result Error MatcherResult
  unfolding match_sorted
  match_orders m =
      match_sorted m.market_id (sort less_price_asc_id_desc m.bids)
        (sort less_price_asc_id_asc m.asks)

-- `MatcherPool.AddOrder`: the matchers stand in the order in which their markets were met.
abbrev pub in_front : Matcher → Result AddError (List Matcher) → Result AddError (List Matcher)
in_front m (ok ms) = ok (m ∷ ms)
in_front m (err e) = err e
in_front m panic = panic

abbrev pub replaced : Result AddError Matcher → List Matcher → Result AddError (List Matcher)
replaced (ok m) ms = ok (m ∷ ms)
replaced (err e) ms = err e
replaced panic ms = panic

unfoldable pub pool_add_order : Order → List Matcher → Result AddError (List Matcher)
unfolding add_order
pool_add_order o [] = replaced (add_order o (new_matcher o.market.id)) []
pool_add_order o (m ∷ ms) =
    let there = in_front m (pool_add_order o ms) in
    if m.market_id == o.market.id then replaced (add_order o m) ms else there

module _ (sort_slice : SortSlice) (d : DecOps) where
  -- `Process`: an internal error is a panic, any other skips the market. The code visits the
  -- markets in no fixed order.
  unfoldable pub process : List Matcher → Result Error (List MatcherResult)
  unfolding match_orders
  process [] = ok []
  process (m ∷ ms) = elim (match_orders sort_slice d m) [
    | panic ↦ panic
    | err internal ↦ panic
    | err _ ↦ process ms
    | ok r ↦ elim (process ms) [ ok rs ↦ ok (r ∷ rs) | err e ↦ err e | panic ↦ panic ]
  ]
