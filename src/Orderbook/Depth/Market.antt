-- ===== src/Orderbook/Depth/Market.antt =====
-- The curves that `Match` builds from the orders of a market, and markets without a trade.
use blockchain_relay_layer.Base.{ℕ, ◌≡◌, refl, List, ◌∷◌, arith, ◌∙◌, All-map, inl, inr}
use blockchain_relay_layer.Base.Action.{Result}
use blockchain_relay_layer.Sdk.{DecOps}
use blockchain_relay_layer.Orders.Types.{Order}
use blockchain_relay_layer.Orderbook.Sorter.{sort, less_price_asc_id_desc, less_price_asc_id_asc}
use blockchain_relay_layer.Orderbook.Aggregates.{new_ask_order_aggregates, new_bid_order_aggregates}
use blockchain_relay_layer.Orderbook.Curves.{SdItem, Error, new_sd_curves}
use blockchain_relay_layer.Orderbook.Clearance.{SortSlice}
use blockchain_relay_layer.Orderbook.Matcher.{Matcher, match_sorted, match_orders, process}
use blockchain_relay_layer.Orderbook.Depth.Sorted.{
  Positive, less_price_asc_id_desc-ByPrice, less_price_asc_id_asc-ByPrice, sort-Ascending,
  supply_at-sort, demand_at-sort,
}
use blockchain_relay_layer.Orderbook.Depth.Crossed.{NeverCrosses, Outcomes, new_sd_curves-Outcomes}

-- The curves of the sorted orders, as `Match` builds them.
abbrev pub market_curves : List Order → List Order → Result Error (List SdItem)
market_curves asks bids =
    new_sd_curves (new_ask_order_aggregates (sort less_price_asc_id_asc asks))
      (new_bid_order_aggregates (sort less_price_asc_id_desc bids))

-- The curves of a market whose orders have positive quantities hold, at the price of each point,
-- the quantity asked at most at that price and the quantity bid at least at it; some price has
-- both, and some point does. Otherwise no price has both, and `NewSDCurves` says that there are no
-- orders or no crossing. It never finds its inputs unsorted.
pub market_curves-Outcomes :
    (asks bids : List Order)
    → Positive asks
    → Positive bids
    → Outcomes asks bids (market_curves asks bids)
market_curves-Outcomes asks bids pa pb =
    let a = sort less_price_asc_id_asc asks in
    let b = sort less_price_asc_id_desc bids in
    let s = λ (p : ℕ). supply_at-sort less_price_asc_id_asc p asks in
    let d = λ (p : ℕ). demand_at-sort less_price_asc_id_desc p bids in
    elim (new_sd_curves-Outcomes a b
      (sort-Ascending less_price_asc_id_asc less_price_asc_id_asc-ByPrice asks pa)
      (sort-Ascending less_price_asc_id_desc less_price_asc_id_desc-ByPrice bids pb)) [
        | inl (c, e, depth, v, (p, x, y)) ↦ inl (
          c,
          e,
          All-map (λ j (f, g). (f ∙ s j.price, g ∙ d j.price)) c depth,
          v,
          (p, omega (arith, x, s p), omega (arith, y, d p)),
        )
        | inr (e, n) ↦ inr (
          e,
          λ p. elim (n p) [
            | inl z ↦ inl (omega (arith, z, s p))
            | inr z ↦ inr (omega (arith, z, d p))
          ],
        )
      ]

-- A market whose orders have positive quantities, in which no price has both an ask at most and a
-- bid at least at it, is passed over: the matches of the pool are those of the other markets.
pub process_no_trade :
    (sort_slice : SortSlice) (d : DecOps) (m : Matcher) (ms : List Matcher)
    → Positive m.asks
    → Positive m.bids
    → NeverCrosses m.asks m.bids
    → process sort_slice d (m ∷ ms) ≡ process sort_slice d ms
unfolding process match_orders match_sorted
process_no_trade sort_slice d m ms pa pb never = elim (market_curves-Outcomes m.asks m.bids pa pb) [
  | inl (c, e, depth, v, (p, x, y)) ↦
      absurd (elim (never p) [ inl z ↦ omega (arith, z, x) | inr z ↦ omega (arith, z, y) ])
  | inr (inl e, n) ↦ rw (e, process, match_orders, match_sorted) refl
  | inr (inr e, n) ↦ rw (e, process, match_orders, match_sorted) refl
]
