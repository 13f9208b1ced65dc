-- ===== src/Orderbook/Depth/Summed.antt =====
-- order_aggs.go: the aggregates of one side and the depth of its orders.
use blockchain_relay_layer.Base.{
  ℕ, ◌+◌, ◌≤◌, ◌<◌, ◌≡◌, refl, List, [], ◌∷◌, ◌++◌, leb, if◌then◌else◌, arith, ap, sym, subst, ◌∙◌,
  All, All-map, All-append,
}
use mathlib.Core.List.{reverse, reverse-cons}
use blockchain_relay_layer.Orders.Types.{Order}
use blockchain_relay_layer.Orderbook.Aggregates.{
  OrderAggregate, aggregate, ask_loop, new_ask_order_aggregates, bid_loop, bid_from_last,
  new_bid_order_aggregates,
}
use blockchain_relay_layer.Orderbook.Depth.{
  supply_at, demand_at, Ascending, Descending, Rising, step_up, step_down,
}

supply_at_none : (low p : ℕ) (os : List Order) → Ascending low os → p < low → supply_at os p ≡ 0
supply_at_none low p [] h below = refl
supply_at_none low p (o ∷ os) h below = ground (arith, supply_at_none o.price p os h.2)

step_up-ask_loop :
    (fill p : ℕ) (last : OrderAggregate) (os : List Order)
    → Ascending last.price os
    → step_up fill (ask_loop last os) p
      ≡ (if leb last.price p then last.quantity + supply_at os p else fill)
unfolding ask_loop
step_up-ask_loop fill p last [] h = ground arith
step_up-ask_loop fill p last (o ∷ os) h = ground (
  arith,
  step_up-ask_loop fill p (record last { quantity = last.quantity + o.quantity }) os,
  step_up-ask_loop last.quantity p (aggregate o last.quantity) os h.2,
  supply_at_none o.price p os h.2,
)

demand_at_none : (high p : ℕ) (os : List Order) → Descending high os → high < p → demand_at os p ≡ 0
demand_at_none high p [] h above = refl
demand_at_none high p (o ∷ os) h above = ground (arith, demand_at_none o.price p os h.2)

step_down-bid_loop :
    (p : ℕ) (first : OrderAggregate) (rest : List OrderAggregate) (os : List Order)
    → Descending first.price os
    → step_down 0 (bid_loop first rest os) p
      ≡ (if leb p first.price then first.quantity + demand_at os p else step_down 0 rest p)
unfolding bid_loop
step_down-bid_loop p first rest [] h = ground arith
step_down-bid_loop p first rest (o ∷ os) h = ground (
  arith,
  step_down-bid_loop p (record first { quantity = first.quantity + o.quantity }) rest os,
  step_down-bid_loop p (aggregate o first.quantity) (first ∷ rest) os h.2,
  demand_at_none o.price p os h.2,
)

ask_loop-Rising :
    (low : ℕ) (last : OrderAggregate) (os : List Order)
    → low ≤ last.price
    → 0 < last.quantity
    → Ascending last.price os
    → Rising low (ask_loop last os)
unfolding ask_loop
ask_loop-Rising low last [] l q h = (l, q, tt)
ask_loop-Rising low last (o ∷ os) l q h = ground (
  arith,
  ask_loop-Rising low (record last { quantity = last.quantity + o.quantity }) os,
  ask_loop-Rising (1 + last.price) (aggregate o last.quantity) os,
  h,
)

bid_loop-Rising :
    (first : OrderAggregate) (rest : List OrderAggregate) (os : List Order)
    → Rising (1 + first.price) rest
    → 0 < first.quantity
    → Descending first.price os
    → Rising 0 (bid_loop first rest os)
unfolding bid_loop
bid_loop-Rising first rest [] r q h = (omega arith, q, r)
bid_loop-Rising first rest (o ∷ os) r q h = ground (
  arith,
  bid_loop-Rising (record first { quantity = first.quantity + o.quantity }) rest os r,
  bid_loop-Rising (aggregate o first.quantity) (first ∷ rest) os,
  rising_cons,
  h,
)
  where
    rising_cons : o.price < first.price → Rising (1 + o.price) (first ∷ rest)
    rising_cons l = (omega arith, q, r)

pub step_up-new_ask_order_aggregates :
    (p : ℕ) (asks : List Order)
    → Ascending 0 asks
    → step_up 0 (new_ask_order_aggregates asks) p ≡ supply_at asks p
unfolding new_ask_order_aggregates
step_up-new_ask_order_aggregates p [] h = refl
step_up-new_ask_order_aggregates p (o ∷ os) h =
    ground (arith, step_up-ask_loop 0 p (aggregate o 0) os h.2, supply_at_none o.price p os h.2)

pub new_ask_order_aggregates-Rising :
    (asks : List Order) → Ascending 0 asks → Rising 0 (new_ask_order_aggregates asks)
unfolding new_ask_order_aggregates
new_ask_order_aggregates-Rising [] h = tt
new_ask_order_aggregates-Rising (o ∷ os) h =
    ask_loop-Rising 0 (aggregate o 0) os h.0 (omega (arith, h.1)) h.2

-- The bids from the highest price down.
prices : List Order → ℕ
prices [] = 0
prices (o ∷ os) = o.price + prices os

within_prices : (os : List Order) → All (λ o. o.price ≤ prices os) os
unfolding prices
within_prices [] = tt
within_prices (o ∷ os) = (omega arith, All-map (λ x h. omega arith) os (within_prices os))

Ascending-All : (low : ℕ) (os : List Order) → Ascending low os → All (λ o. low ≤ o.price) os
Ascending-All low [] h = tt
Ascending-All low (o ∷ os) h =
    (h.0, All-map (λ x l. omega (arith, h.0)) os (Ascending-All o.price os h.2))

All-reverse : (P : Order → Type 0) (os : List Order) → All P os → All P (reverse os)
All-reverse P [] h = tt
All-reverse P (o ∷ os) h =
    subst (All P) (sym (reverse-cons o os))
      (All-append P (reverse os) (o ∷ []) (All-reverse P os h.1) (h.0, tt))

Descending-snoc :
    (high : ℕ) (o : Order) (os : List Order)
    → Descending high os
    → All (λ x. o.price ≤ x.price) os
    → o.price ≤ high
    → 0 < o.quantity
    → Descending high (os ++ o ∷ [])
Descending-snoc high o [] d a l q = (l, q, tt)
Descending-snoc high o (x ∷ os) d a l q = (d.0, d.1, Descending-snoc x.price o os d.2 a.1 a.0 q)

reverse-Descending :
    (low high : ℕ) (os : List Order)
    → Ascending low os
    → All (λ o. o.price ≤ high) os
    → Descending high (reverse os)
reverse-Descending low high [] h a = tt
reverse-Descending low high (o ∷ os) h a = subst (Descending high) (sym (reverse-cons o os)) (
    Descending-snoc high o (reverse os) (reverse-Descending o.price high os h.2 a.1)
      (All-reverse (λ x. o.price ≤ x.price) os (Ascending-All o.price os h.2)) a.0 h.1)

demand_at-append :
    (p : ℕ) (os qs : List Order) → demand_at (os ++ qs) p ≡ demand_at os p + demand_at qs p
demand_at-append p [] qs = omega arith
demand_at-append p (o ∷ os) qs = omega (arith, demand_at-append p os qs)

demand_at-reverse : (p : ℕ) (os : List Order) → demand_at (reverse os) p ≡ demand_at os p
demand_at-reverse p [] = refl
demand_at-reverse p (o ∷ os) =
    ap (λ l. demand_at l p) (reverse-cons o os)
    ∙ omega (arith, demand_at-append p (reverse os) (o ∷ []), demand_at-reverse p os)

step_down-bid_from_last :
    (p high : ℕ) (os : List Order)
    → Descending high os
    → step_down 0 (bid_from_last os) p ≡ demand_at os p
unfolding bid_from_last
step_down-bid_from_last p high [] h = refl
step_down-bid_from_last p high (o ∷ os) h =
    ground (arith, step_down-bid_loop p (aggregate o 0) [] os h.2, demand_at_none o.price p os h.2)

bid_from_last-Rising :
    (high : ℕ) (os : List Order) → Descending high os → Rising 0 (bid_from_last os)
unfolding bid_from_last
bid_from_last-Rising high [] h = tt
bid_from_last-Rising high (o ∷ os) h =
    bid_loop-Rising (aggregate o 0) [] os tt (omega (arith, h.1)) h.2

reversed : (os : List Order) → Ascending 0 os → Descending (prices os) (reverse os)
reversed os h = reverse-Descending 0 (prices os) os h (within_prices os)

pub step_down-new_bid_order_aggregates :
    (p : ℕ) (bids : List Order)
    → Ascending 0 bids
    → step_down 0 (new_bid_order_aggregates bids) p ≡ demand_at bids p
unfolding new_bid_order_aggregates
step_down-new_bid_order_aggregates p bids h =
    step_down-bid_from_last p (prices bids) (reverse bids) (reversed bids h)
    ∙ demand_at-reverse p bids

pub new_bid_order_aggregates-Rising :
    (bids : List Order) → Ascending 0 bids → Rising 0 (new_bid_order_aggregates bids)
unfolding new_bid_order_aggregates
new_bid_order_aggregates-Rising bids h =
    bid_from_last-Rising (prices bids) (reverse bids) (reversed bids h)
