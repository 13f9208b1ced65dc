-- ===== src/Orderbook/Depth/Fixed.antt =====
-- pq_curves.go: the points after `fixZeroSupplyDemand`.
use blockchain_relay_layer.Base.{
  ℕ, ◌+◌, ◌≤◌, ◌<◌, ◌≡◌, refl, List, [], ◌∷◌, ◌==◌, if◌then◌else◌, arith, ◌∙◌, All, All-map,
}
use blockchain_relay_layer.Orders.Types.{Order}
use blockchain_relay_layer.Orderbook.Aggregates.{
  OrderAggregate, new_ask_order_aggregates, new_bid_order_aggregates,
}
use blockchain_relay_layer.Orderbook.Curves.{
  SdItem, add_ask_orders, add_bid_order, add_bid_orders, fix_supply, fix_demand,
  fix_zero_supply_demand, merge_curves,
}
use blockchain_relay_layer.Orderbook.Depth.{Ascending, Rising, step_down, supply_at, demand_at}
use blockchain_relay_layer.Orderbook.Depth.Summed.{
  step_up-new_ask_order_aggregates, new_ask_order_aggregates-Rising,
  step_down-new_bid_order_aggregates, new_bid_order_aggregates-Rising,
}
use blockchain_relay_layer.Orderbook.Depth.Merged.{
  up, down, RisingCurve, Below, up-add_ask_orders, add_ask_orders-RisingCurve, add_ask_orders-Below,
  down-add_ask_orders, up-add_bid_order, add_bid_order-RisingCurve, add_bid_order-Below,
  down-add_bid_order,
}

Below-mono : (p q : ℕ) (c : List SdItem) → p ≤ q → Below p c → Below q c
Below-mono p q [] l h = tt
Below-mono p q (i ∷ c) l h = ground (arith, h, Below-mono p q c l h.1)

-- What the curve is after all bid aggregates.
Merges : List OrderAggregate → List SdItem → List SdItem → Type 0
Merges l c c' =
    RisingCurve 0 c'
    × ((fill p : ℕ) → up fill c' p ≡ up fill c p)
    × ((fill p : ℕ) → down fill c' p ≡ down (step_down fill l p) c p)

add_bid_orders-Merges :
    (low : ℕ) (l : List OrderAggregate) (c : List SdItem)
    → Rising low l
    → RisingCurve 0 c
    → Below low c
    → Merges l c (add_bid_orders l c)
unfolding add_bid_orders Merges
add_bid_orders-Merges low [] c r h b = (h, λ fill p. refl, λ fill p. refl)
add_bid_orders-Merges low (a ∷ l) c r h b =
    let b' = Below-mono low a.price c r.0 b in
    let m =
      add_bid_orders-Merges (1 + a.price) l (add_bid_order a c) r.2
        (add_bid_order-RisingCurve 0 a c h (omega arith))
        (add_bid_order-Below (1 + a.price) a c (Below-mono a.price (1 + a.price) c (omega arith) b')
          (omega arith)) in
    (
      m.0,
      λ fill p. m.1 fill p ∙ up-add_bid_order fill p a c,
      λ fill p. m.2 fill p ∙ down-add_bid_order 0 (step_down fill l p) p a c h r.1 b',
    )

up_low : (low fill p : ℕ) (c : List SdItem) → RisingCurve low c → p < low → up fill c p ≡ fill
up_low low fill p [] h l = refl
up_low low fill p (i ∷ c) h l = ground (arith, h)

fix_supply-All :
    (low fill : ℕ) (c : List SdItem)
    → RisingCurve low c
    → All (λ j. (low ≤ j.price) × (j.supply ≡ up fill c j.price)) (fix_supply fill c)
unfolding fix_supply
fix_supply-All low fill [] h = tt
fix_supply-All low fill (i ∷ c) h =
    let s = if i.supply == 0 then fill else i.supply in
    (
      (h.0, ground (arith, up_low (1 + i.price) s i.price c h.1)),
      All-map (λ j (l, e). (omega (arith, h.0), e ∙ ground (arith, l))) (fix_supply s c)
          (fix_supply-All (1 + i.price) s c h.1),
    )

fix_supply-RisingCurve :
    (low fill : ℕ) (c : List SdItem) → RisingCurve low c → RisingCurve low (fix_supply fill c)
unfolding fix_supply
fix_supply-RisingCurve low fill [] h = tt
fix_supply-RisingCurve low fill (i ∷ c) h =
    (h.0, fix_supply-RisingCurve (1 + i.price) (if i.supply == 0 then fill else i.supply) c h.1)

down-fix_supply : (fill d p : ℕ) (c : List SdItem) → down d (fix_supply fill c) p ≡ down d c p
unfolding fix_supply
down-fix_supply fill d p [] = refl
down-fix_supply fill d p (i ∷ c) =
    ground (arith, down-fix_supply (if i.supply == 0 then fill else i.supply) d p c)

down_low :
    (low p q : ℕ) (c : List SdItem)
    → RisingCurve low c
    → p ≤ low
    → q ≤ low
    → down 0 c p ≡ down 0 c q
down_low low p q [] h l m = refl
down_low low p q (i ∷ c) h l m = ground (arith, h, down_low (1 + i.price) p q c h.1)

fix_demand_lem :
    (P : ℕ → ℕ → Type 0) (low : ℕ) (c : List SdItem)
    → RisingCurve low c
    → All (λ j. P j.price j.supply) c
    → ((fix_demand c).0 ≡ down 0 c 0)
      × All
          (λ j. (low ≤ j.price) × P j.price j.supply × (j.demand ≡ down 0 c j.price))
          (fix_demand c).1
unfolding fix_demand
fix_demand_lem P low [] h a = (refl, tt)
fix_demand_lem P low (i ∷ c) h a =
    let r = fix_demand_lem P (1 + i.price) c h.1 a.1 in
    (
      ground (arith, r.0),
      (
        (h.0, a.0, ground (arith, r.0, down_low (1 + i.price) 0 i.price c h.1)),
        All-map (λ j (l, p, e). (omega (arith, h.0), p, e ∙ ground (arith, l))) (fix_demand c).1
            r.1,
      ),
    )

-- The curve point of a price holds the depth of both sides there.
abbrev pub IsDepth : List Order → List Order → SdItem → Type 0
IsDepth asks bids j = (j.supply ≡ supply_at asks j.price) × (j.demand ≡ demand_at bids j.price)

pub merge_curves-IsDepth :
    (asks bids : List Order)
    → Ascending 0 asks
    → Ascending 0 bids
    → All
        (IsDepth asks bids)
        (merge_curves (new_ask_order_aggregates asks) (new_bid_order_aggregates bids))
unfolding merge_curves fix_zero_supply_demand Merges
merge_curves-IsDepth asks bids ha hb =
    let l = new_ask_order_aggregates asks in
    let k = new_bid_order_aggregates bids in
    let ra = new_ask_order_aggregates-Rising asks ha in
    let rb = new_bid_order_aggregates-Rising bids hb in
    let c = add_bid_orders k (add_ask_orders l) in
    let m =
      add_bid_orders-Merges 0 k (add_ask_orders l) rb (add_ask_orders-RisingCurve 0 l ra)
        (add_ask_orders-Below 0 l) in
    All-map
      (λ j (low, s, d). (
        s
            ∙ m.1 0 j.price
            ∙ up-add_ask_orders 0 0 j.price l ra
            ∙ step_up-new_ask_order_aggregates j.price asks ha,
        d
            ∙ down-fix_supply 0 0 j.price c
            ∙ m.2 0 j.price
            ∙ down-add_ask_orders (step_down 0 k j.price) j.price l
            ∙ step_down-new_bid_order_aggregates j.price bids hb,
      ))
      (fix_demand (fix_supply 0 c)).1
      (fix_demand_lem (λ price supply. supply ≡ up 0 c price) 0 (fix_supply 0 c)
        (fix_supply-RisingCurve 0 0 c m.0)
        (All-map (λ j (low, e). e) (fix_supply 0 c) (fix_supply-All 0 0 c m.0))).1
