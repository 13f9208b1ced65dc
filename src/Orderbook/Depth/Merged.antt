-- ===== src/Orderbook/Depth/Merged.antt =====
-- The points of the merged curves: `addAskOrders`, `addBidOrders` and `fixZeroSupplyDemand`.
use blockchain_relay_layer.Base.{
  inr, inl, ℕ, ◌+◌, ◌≤◌, ◌<◌, ◌≡◌, ◌⊎◌, refl, List, [], ◌∷◌, leb, ◌==◌, if◌then◌else◌, arith, not,
  ◌&&◌,
}
use blockchain_relay_layer.Orderbook.Aggregates.{OrderAggregate}
use blockchain_relay_layer.Orderbook.Curves.{SdItem, add_ask_orders, add_bid_order}
use blockchain_relay_layer.Orderbook.Depth.{Rising, step_up}

-- The supply of the last point up to a price that has one, and the demand of the first point from
-- a price on that has one.
abbrev pub up : ℕ → List SdItem → ℕ → ℕ
up fill [] p = fill
up fill (i ∷ c) p =
    let next = up (if i.supply == 0 then fill else i.supply) c p in
    if leb i.price p then next else fill

abbrev pub down : ℕ → List SdItem → ℕ → ℕ
down fill [] p = fill
down fill (i ∷ c) p =
    let next = down fill c p in if leb p i.price && not (i.demand == 0) then i.demand else next

abbrev pub RisingCurve : ℕ → List SdItem → Type 0
RisingCurve low [] = Unit
RisingCurve low (i ∷ c) = (low ≤ i.price) × RisingCurve (1 + i.price) c

-- The points that have a demand lie below a price.
abbrev pub Below : ℕ → List SdItem → Type 0
Below p [] = Unit
Below p (i ∷ c) = ((i.demand ≡ 0) ⊎ (i.price < p)) × Below p c

pub up-add_ask_orders :
    (low fill p : ℕ) (l : List OrderAggregate)
    → Rising low l
    → up fill (add_ask_orders l) p ≡ step_up fill l p
unfolding add_ask_orders
up-add_ask_orders low fill p [] h = refl
up-add_ask_orders low fill p (a ∷ l) h =
    ground (arith, up-add_ask_orders (1 + a.price) a.quantity p l h.2)

pub add_ask_orders-RisingCurve :
    (low : ℕ) (l : List OrderAggregate) → Rising low l → RisingCurve low (add_ask_orders l)
unfolding add_ask_orders
add_ask_orders-RisingCurve low [] h = tt
add_ask_orders-RisingCurve low (a ∷ l) h = (h.0, add_ask_orders-RisingCurve (1 + a.price) l h.2)

pub add_ask_orders-Below : (p : ℕ) (l : List OrderAggregate) → Below p (add_ask_orders l)
unfolding add_ask_orders
add_ask_orders-Below p [] = tt
add_ask_orders-Below p (a ∷ l) = (inl refl, add_ask_orders-Below p l)

pub down-add_ask_orders :
    (fill p : ℕ) (l : List OrderAggregate) → down fill (add_ask_orders l) p ≡ fill
unfolding add_ask_orders
down-add_ask_orders fill p [] = refl
down-add_ask_orders fill p (a ∷ l) = ground (arith, down-add_ask_orders fill p l)

pub up-add_bid_order :
    (fill p : ℕ) (a : OrderAggregate) (c : List SdItem)
    → up fill (add_bid_order a c) p ≡ up fill c p
unfolding add_bid_order
up-add_bid_order fill p a [] = ground arith
up-add_bid_order fill p a (i ∷ c) =
    ground (arith, up-add_bid_order (if i.supply == 0 then fill else i.supply) p a c)

pub add_bid_order-RisingCurve :
    (low : ℕ) (a : OrderAggregate) (c : List SdItem)
    → RisingCurve low c
    → low ≤ a.price
    → RisingCurve low (add_bid_order a c)
unfolding add_bid_order
add_bid_order-RisingCurve low a [] h l = (l, tt)
add_bid_order-RisingCurve low a (i ∷ c) h l =
    ground (arith, h, add_bid_order-RisingCurve (1 + i.price) a c h.1)

pub add_bid_order-Below :
    (p : ℕ) (a : OrderAggregate) (c : List SdItem)
    → Below p c
    → a.price < p
    → Below p (add_bid_order a c)
unfolding add_bid_order
add_bid_order-Below p a [] h l = (inr l, tt)
add_bid_order-Below p a (i ∷ c) h l = ground (arith, h, add_bid_order-Below p a c h.1 l)

-- No point above `q` has a demand, where all that have one lie below `q`.
down_none :
    (low fill p q : ℕ) (c : List SdItem)
    → RisingCurve low c
    → q ≤ low
    → Below q c
    → down fill c p ≡ fill
down_none low fill p q [] h l b = refl
down_none low fill p q (i ∷ c) h l b = ground (arith, h, b, down_none (1 + i.price) fill p q c h.1)

pub down-add_bid_order :
    (low fill p : ℕ) (a : OrderAggregate) (c : List SdItem)
    → RisingCurve low c
    → 0 < a.quantity
    → Below a.price c
    → down fill (add_bid_order a c) p ≡ down (if leb p a.price then a.quantity else fill) c p
unfolding add_bid_order
down-add_bid_order low fill p a [] h q b = ground arith
down-add_bid_order low fill p a (i ∷ c) h q b = ground (
  arith,
  h,
  b,
  down-add_bid_order (1 + i.price) fill p a c h.1 q b.1,
  down_none (1 + i.price) (if leb p a.price then a.quantity else fill) p a.price c h.1,
  down_none (1 + i.price) fill p a.price c h.1,
)
