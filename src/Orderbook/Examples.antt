-- ===== src/Orderbook/Examples.antt =====
-- A small curve and small markets.
use blockchain_relay_layer.Base.{
  suc, ◌+◌, true, none, inl, inr, Bool-cases, ℕ, ◌*◌, ◌≤◌, ◌<◌, ◌≡◌, refl, List, [], ◌∷◌, arith,
  not, ltb, ◌⊎◌,
}
use blockchain_relay_layer.Base.Action.{err, ok, panic}
use blockchain_relay_layer.Sdk.{one_dec, dec_of}
use blockchain_relay_layer.Sdk.Examples.{half_up, half_up_laws}
use blockchain_relay_layer.Base.Int.{pos}
use blockchain_relay_layer.Ccstorage.Types.{Currency}
use blockchain_relay_layer.Markets.Types.{MarketExtended}
use blockchain_relay_layer.Orders.Types.{bid, ask, Order, new_order}
use blockchain_relay_layer.Orderbook.Curves.{no_orders, no_crossing, SdItem, supply_demand_balance}
use blockchain_relay_layer.Orderbook.Clearance.{
  ClearanceState, SortSlice, find_crossing, corridor, get_cross_point, clearance_of,
  get_clearance_state, closest, first_with_volumes,
}
use blockchain_relay_layer.Orderbook.Fills.{get_bid_order_fills, get_ask_order_fills}
use blockchain_relay_layer.Orderbook.History.{
  HistoryItem, get_history_item, prepare_for_zero_height,
}
use blockchain_relay_layer.Orderbook.Squash.{at_zero, latest, none_later, squash_keeps_latest}
use blockchain_relay_layer.Orderbook.Pool.{
  pool_of, pool_bids, pool_asks, bids_for, asks_for, pool_of-eq-filters,
}
use blockchain_relay_layer.Orderbook.Matcher.{Matcher, MatcherResult, match_orders, process}
use blockchain_relay_layer.Orderbook.Depth.Found.{IsFound, same}
use blockchain_relay_layer.Orderbook.Depth.Matched.{match_orders_cases}
use blockchain_relay_layer.Orderbook.Depth.Sorted.{Positive}
use blockchain_relay_layer.Orderbook.Depth.Crossed.{Crosses, NeverCrosses, Outcomes}
use blockchain_relay_layer.Orderbook.Depth.Market.{
  market_curves, market_curves-Outcomes, process_no_trade,
}
use blockchain_relay_layer.Orderbook.Volumes.Sides.{Settled, filled}
use blockchain_relay_layer.Orderbook.Volumes.Loops.{IsBidFill, IsAskFill}
use blockchain_relay_layer.Orderbook.Volumes.Cleared.{
  get_clearance_state-Settled, bids_within_supply, get_clearance_state_cases,
}
use mathlib.Core.List.{reverse}

abbrev unsorted : SortSlice
unsorted less l = l

abbrev low : SdItem
low = record { price = 10; supply = 5; demand = 8 }

abbrev high : List SdItem
high = record { price = 12; supply = 8; demand = 8 } ∷ []

abbrev cleared : ClearanceState
cleared = clearance_of half_up (record { price = 12; supply = 8; demand = 8 })

abbrev some_currency : Currency
some_currency = record { denom = 1; decimals = 0; supply = pos 100; contract_address = 0 }

abbrev some_market : MarketExtended
some_market = record { id = 0; base_currency = some_currency; quote_currency = some_currency }

abbrev some_bids : List Order
some_bids = new_order 0 0 1 some_market bid 12 5 60 ∷ new_order 0 1 2 some_market bid 13 3 60 ∷ []

abbrev some_asks : List Order
some_asks = new_order 0 2 3 some_market ask 10 5 60 ∷ new_order 0 3 4 some_market ask 12 3 60 ∷ []

cross_point : get_cross_point unsorted low high ≡ record { price = 12; supply = 8; demand = 8 }
unfolding get_cross_point find_crossing corridor supply_demand_balance
cross_point = refl

cleared_run : get_clearance_state unsorted half_up (low ∷ high) ≡ ok cleared
unfolding get_clearance_state get_cross_point find_crossing corridor supply_demand_balance
cleared_run = refl

get_clearance_state-Settled_example :
    Settled
      (IsBidFill 12)
      (not (ltb one_dec cleared.pro_rata))
      cleared.max_bid_volume
      (reverse some_bids)
      (get_bid_order_fills half_up cleared some_bids)
    × Settled
        (IsAskFill 12)
        (ltb one_dec cleared.pro_rata)
        cleared.max_ask_volume
        some_asks
        (get_ask_order_fills half_up cleared some_asks)
get_clearance_state-Settled_example =
    get_clearance_state-Settled half_up half_up_laws unsorted low high cleared some_bids some_asks
      cleared_run

demand_small : (get_cross_point unsorted low high).demand < one_dec
demand_small = rw (cross_point) (omega arith)

bids_within_supply_example :
    filled (get_bid_order_fills half_up cleared some_bids).0
    ≤ (get_cross_point unsorted low high).supply
bids_within_supply_example =
    bids_within_supply half_up half_up_laws unsorted low high cleared some_bids cleared_run
      demand_small (omega arith)

-- One point whose demand is 3 * 10^18 times its supply.
abbrev steep : SdItem
steep = record { price = 10; supply = 1; demand = 3 * one_dec }

steep_point : get_cross_point unsorted steep [] ≡ steep
unfolding get_cross_point find_crossing closest first_with_volumes
steep_point = refl

get_clearance_state_cases_example :
    let p = get_cross_point unsorted steep [] in
    (((one_dec + 2) * p.demand < 2 * dec_of p.supply * one_dec)
      × (get_clearance_state unsorted half_up (steep ∷ []) ≡ ok (clearance_of half_up p)))
    ⊎ (((2 * dec_of p.supply < p.demand)
          × (get_clearance_state unsorted half_up (steep ∷ []) ≡ panic))
        ⊎ ((p.demand ≤ 2 * dec_of p.supply)
            × (2 * dec_of p.supply * one_dec ≤ (one_dec + 2) * p.demand)))
get_clearance_state_cases_example =
    get_clearance_state_cases half_up half_up_laws unsorted steep []
      (rw (steep_point) (omega arith)) (rw (steep_point) (omega arith))
      (rw (steep_point) (omega arith))

some_asks-Positive : Positive some_asks
some_asks-Positive = (omega arith, (omega arith, tt))

some_bids-Positive : Positive some_bids
some_bids-Positive = (omega arith, (omega arith, tt))

market_curves-Outcomes_example : Outcomes some_asks some_bids (market_curves some_asks some_bids)
market_curves-Outcomes_example =
    market_curves-Outcomes some_asks some_bids some_asks-Positive some_bids-Positive

abbrev apart : Matcher
apart = record {
  market_id = 0;
  bids = new_order 0 0 1 some_market bid 9 5 60 ∷ [];
  asks = new_order 0 1 2 some_market ask 10 5 60 ∷ [];
}

never_crosses : NeverCrosses apart.asks apart.bids
never_crosses p = elim (Bool-cases (ltb p 10)) [
  | inl e ↦ inl (ground (arith, e))
  | inr e ↦ inr (ground (arith, e))
]

process_no_trade_example : process unsorted half_up (apart ∷ []) ≡ process unsorted half_up []
process_no_trade_example =
    process_no_trade unsorted half_up apart [] (omega arith, tt) (omega arith, tt) never_crosses

abbrev crossing_market : Matcher
crossing_market = record { market_id = 0; bids = some_bids; asks = some_asks }

match_orders_cases_example :
    (Crosses some_asks some_bids
      × (((r : MatcherResult) × (match_orders unsorted half_up crossing_market ≡ ok r))
          ⊎ ((i : SdItem) × (c : List SdItem) × (market_curves some_asks some_bids ≡ ok (i ∷ c))
              × IsFound (get_cross_point unsorted i c)
              × (half_up.quo
                    (dec_of (get_cross_point unsorted i c).supply)
                    (dec_of (get_cross_point unsorted i c).demand)
                  ≡ 0)
              × (match_orders unsorted half_up crossing_market ≡ panic))))
    ⊎ (NeverCrosses some_asks some_bids
        × ((match_orders unsorted half_up crossing_market ≡ err no_orders)
            ⊎ (match_orders unsorted half_up crossing_market ≡ err no_crossing)))
match_orders_cases_example =
    match_orders_cases unsorted (λ less c. same) half_up crossing_market some_asks-Positive
      some_bids-Positive (omega arith, (omega arith, tt))

pool_of-eq-filters_example :
    (pool : List Matcher) × (pool_of some_bids [] ≡ ok pool)
    × ((id : ℕ) → pool_bids id pool ≡ bids_for id some_bids)
    × ((id : ℕ) → pool_asks id pool ≡ asks_for id some_bids)
pool_of-eq-filters_example =
    pool_of-eq-filters some_bids
      ((omega arith, omega arith, inl refl), ((omega arith, omega arith, inl refl), tt))

abbrev item_at : ℕ → HistoryItem
item_at height = record {
  market_id = 0;
  clearance_price = height;
  bid_orders_count = 1;
  ask_orders_count = 1;
  bid_volume = 1;
  ask_volume = 1;
  matched_bid_volume = 1;
  matched_ask_volume = 1;
  timestamp = 1;
  block_height = height;
}

abbrev some_history : List HistoryItem
some_history = item_at 4 ∷ item_at 7 ∷ item_at 5 ∷ []

squash_keeps_latest_example :
    (get_history_item 0 0 (prepare_for_zero_height some_history)
      ≡ at_zero (latest 0 none some_history))
    × ((height : ℕ) → get_history_item 0 (suc height) (prepare_for_zero_height some_history) ≡ none)
    × (none_later 0 (latest 0 none some_history) some_history ≡ true)
squash_keeps_latest_example = squash_keeps_latest 0 some_history
