-- ===== src/Orderbook/Depth/Matched.antt =====
-- matcher.go: the outcomes of `Match`.
use blockchain_relay_layer.Base.{
  ==→eq, ◌<◌, ◌≡◌, ◌⊎◌, refl, List, [], ◌∷◌, arith, All, inl, inr, ◌==◌, true, Bool-cases,
}
use blockchain_relay_layer.Base.Action.{Result, ok, err, panic}
use blockchain_relay_layer.Sdk.{DecOps, dec_of}
use blockchain_relay_layer.Orders.Types.{Order}
use blockchain_relay_layer.Orderbook.Curves.{SdItem, Error, no_orders, no_crossing}
use blockchain_relay_layer.Orderbook.Clearance.{
  SortSlice, ClearanceState, check_cross_point, clearance_of, get_clearance_state, get_cross_point,
}
use blockchain_relay_layer.Orderbook.Matcher.{
  Matcher, MatcherResult, fill_orders, match_sorted, match_orders,
}
use blockchain_relay_layer.Orderbook.Sorter.{sort, less_price_asc_id_desc, less_price_asc_id_asc}
use blockchain_relay_layer.Orderbook.Depth.Points.{
  any_volumes, all_priced, supply_at_zero, all_priced_lem,
}
use blockchain_relay_layer.Orderbook.Depth.Found.{Rearranges, IsFound, get_cross_point-IsFound}
use blockchain_relay_layer.Orderbook.Depth.Sorted.{Positive}
use blockchain_relay_layer.Orderbook.Depth.Crossed.{Crosses, NeverCrosses}
use blockchain_relay_layer.Orderbook.Depth.Market.{market_curves, market_curves-Outcomes}

-- The orders have a price, as `Matcher.AddOrder` requires.
abbrev pub Priced : List Order → Type 0
Priced = All λ o. 0 < o.price

-- What `GetClearanceState` returns at a crossing point with a price and both volumes.
abbrev pub Cleared : DecOps → SdItem → Result Error ClearanceState → Type 0
Cleared d p r =
    ((cs : ClearanceState) × (r ≡ ok cs))
    ⊎ (IsFound p × (d.quo (dec_of p.supply) (dec_of p.demand) ≡ 0) × (r ≡ panic))

module _ (sort_slice : SortSlice) (lawful : Rearranges sort_slice) (d : DecOps) where
  check_cross_point-Cleared : (p : SdItem) → IsFound p → Cleared d p (check_cross_point d p)
  check_cross_point-Cleared p f =
      elim (Bool-cases (d.quo (dec_of p.supply) (dec_of p.demand) == 0)) [
        | inl e ↦
            inr (f, ==→eq (d.quo (dec_of p.supply) (dec_of p.demand)) 0 e, ground (arith, f, e))
        | inr e ↦ inl (clearance_of d p, ground (arith, f, e))
      ]

  get_clearance_state-Cleared :
      (i : SdItem) (c : List SdItem)
      → any_volumes (i ∷ c) ≡ true
      → all_priced (i ∷ c) ≡ true
      → Cleared d (get_cross_point sort_slice i c) (get_clearance_state sort_slice d (i ∷ c))
  unfolding get_clearance_state
  get_clearance_state-Cleared i c v p =
      check_cross_point-Cleared (get_cross_point sort_slice i c)
        (get_cross_point-IsFound sort_slice lawful i c v p)

  -- If `sort.Slice` rearranges its slice, the match of a market whose orders have positive
  -- quantities, and its asks positive prices, never ends in an internal error. Where some price has
  -- both an ask at most and a bid at least at it there is a result, or a panic at the crossing point
  -- of the market's curves, which has a price and both volumes, and whose ratio is rounded to zero;
  -- where no price has both, the match says that there are no orders or no crossing.
  pub match_orders_cases :
      (m : Matcher)
      → Positive m.asks
      → Positive m.bids
      → Priced m.asks
      → (Crosses m.asks m.bids
          × (((r : MatcherResult) × (match_orders sort_slice d m ≡ ok r))
              ⊎ ((i : SdItem) × (c : List SdItem) × (market_curves m.asks m.bids ≡ ok (i ∷ c))
                  × IsFound (get_cross_point sort_slice i c)
                  × (d.quo
                        (dec_of (get_cross_point sort_slice i c).supply)
                        (dec_of (get_cross_point sort_slice i c).demand)
                      ≡ 0)
                  × (match_orders sort_slice d m ≡ panic))))
        ⊎ (NeverCrosses m.asks m.bids
            × ((match_orders sort_slice d m ≡ err no_orders)
                ⊎ (match_orders sort_slice d m ≡ err no_crossing)))
  unfolding match_orders match_sorted
  match_orders_cases m pa pb prices = elim (market_curves-Outcomes m.asks m.bids pa pb) [
    | inl ([], e, depth, v, x) ↦ absurd (ground (arith, v))
    | inl (i ∷ c, e, depth, v, x) ↦
        let priced = all_priced_lem m.asks m.bids (i ∷ c) (supply_at_zero m.asks prices) depth in
        elim (get_clearance_state-Cleared i c v priced) [
          | inl (cs, f) ↦ inl (
            x,
            inl (
              fill_orders sort_slice d m.market_id (sort less_price_asc_id_desc m.bids)
                  (sort less_price_asc_id_asc m.asks) cs,
              rw (e, match_orders, match_sorted, f) refl,
            ),
          )
          | inr (found, z, f) ↦
              inl (x, inr (i, c, e, found, z, rw (e, match_orders, match_sorted, f) refl))
        ]
    | inr (inl e, n) ↦ inr (n, inl (rw (e, match_orders, match_sorted) refl))
    | inr (inr e, n) ↦ inr (n, inr (rw (e, match_orders, match_sorted) refl))
  ]
