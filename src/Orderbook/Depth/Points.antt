-- ===== src/Orderbook/Depth/Points.antt =====
-- pq_curves.go: the prices and volumes of the points of the merged curves.
use blockchain_relay_layer.Base.{
  ℕ, ◌<◌, ◌≡◌, refl, List, [], ◌∷◌, ◌==◌, if◌then◌else◌, arith, Bool, true, false, All, not, ◌||◌,
  ◌&&◌, ◌∙◌, ==→eq, Bool-cases, inl, inr, ap,
}
use blockchain_relay_layer.Orders.Types.{Order}
use blockchain_relay_layer.Orderbook.Aggregates.{OrderAggregate}
use blockchain_relay_layer.Orderbook.Curves.{
  SdItem, add_ask_orders, add_bid_order, add_bid_orders, fix_supply, fix_demand,
  fix_zero_supply_demand, merge_curves,
}
use blockchain_relay_layer.Orderbook.Clearance.{has_volumes}
use blockchain_relay_layer.Orderbook.Depth.{supply_at, demand_at}
use blockchain_relay_layer.Orderbook.Depth.Fixed.{IsDepth}

abbrev pub has_price : ℕ → List SdItem → Bool
has_price q [] = false
has_price q (i ∷ c) = if i.price == q then true else has_price q c

-- Some point has both volumes.
abbrev pub any_volumes : List SdItem → Bool
any_volumes [] = false
any_volumes (i ∷ c) = if has_volumes i then true else any_volumes c

-- Every point with a supply has a price.
abbrev pub is_priced : SdItem → Bool
is_priced i = (i.supply == 0) || not (i.price == 0)

abbrev pub all_priced : List SdItem → Bool
all_priced [] = true
all_priced (i ∷ c) = is_priced i && all_priced c

has_price-add_bid_order :
    (q : ℕ) (a : OrderAggregate) (c : List SdItem)
    → has_price q c ≡ true
    → has_price q (add_bid_order a c) ≡ true
unfolding add_bid_order
has_price-add_bid_order q a [] h = ground arith
has_price-add_bid_order q a (i ∷ c) h = ground (arith, has_price-add_bid_order q a c)

has_price-add_bid_orders :
    (q : ℕ) (l : List OrderAggregate) (c : List SdItem)
    → has_price q c ≡ true
    → has_price q (add_bid_orders l c) ≡ true
unfolding add_bid_orders
has_price-add_bid_orders q [] c h = h
has_price-add_bid_orders q (a ∷ l) c h =
    has_price-add_bid_orders q l (add_bid_order a c) (has_price-add_bid_order q a c h)

has_price-fix_supply :
    (q fill : ℕ) (c : List SdItem) → has_price q (fix_supply fill c) ≡ has_price q c
unfolding fix_supply
has_price-fix_supply q fill [] = refl
has_price-fix_supply q fill (i ∷ c) =
    ground (arith, has_price-fix_supply q (if i.supply == 0 then fill else i.supply) c)

has_price-fix_demand : (q : ℕ) (c : List SdItem) → has_price q (fix_demand c).1 ≡ has_price q c
unfolding fix_demand
has_price-fix_demand q [] = refl
has_price-fix_demand q (i ∷ c) = ground (arith, has_price-fix_demand q c)

-- The lowest ask price has a point.
pub has_price-merge_curves :
    (a : OrderAggregate) (l k : List OrderAggregate)
    → has_price a.price (merge_curves (a ∷ l) k) ≡ true
unfolding merge_curves fix_zero_supply_demand add_ask_orders
has_price-merge_curves a l k =
    let c = add_bid_orders k (add_ask_orders (a ∷ l)) in
    has_price-fix_demand a.price (fix_supply 0 c)
    ∙ has_price-fix_supply a.price 0 c
    ∙ has_price-add_bid_orders a.price k (add_ask_orders (a ∷ l)) (ground arith)

volumes_there :
    (asks bids : List Order) (q : ℕ) (i : SdItem)
    → IsDepth asks bids i
    → i.price ≡ q
    → 0 < supply_at asks q
    → 0 < demand_at bids q
    → has_volumes i ≡ true
volumes_there asks bids q i (s, d) e x y =
    let s' = ap (supply_at asks) e in
    let d' = ap (demand_at bids) e in both (omega (arith, s, s', x)) (omega (arith, d, d', y))
  where
    both : 0 < i.supply → 0 < i.demand → has_volumes i ≡ true
    both x y = ground arith

pub any_volumes_lem :
    (asks bids : List Order) (q : ℕ) (c : List SdItem)
    → All (IsDepth asks bids) c
    → has_price q c ≡ true
    → 0 < supply_at asks q
    → 0 < demand_at bids q
    → any_volumes c ≡ true
any_volumes_lem asks bids q [] h e x y = absurd (ground arith)
any_volumes_lem asks bids q (i ∷ c) h e x y = elim (Bool-cases (i.price == q)) [
  | inl f ↦ let v = volumes_there asks bids q i h.0 (==→eq i.price q f) x y in ground (arith, v)
  | inr f ↦
      let r = any_volumes_lem asks bids q c h.1 (ground (arith, e, f)) x y in ground (arith, r)
]

-- Asks have a price, so that nothing is asked at most at the price zero.
pub supply_at_zero : (asks : List Order) → All (λ o. 0 < o.price) asks → supply_at asks 0 ≡ 0
supply_at_zero [] h = refl
supply_at_zero (o ∷ os) h = ground (arith, h, supply_at_zero os h.1)

depth_priced :
    (asks bids : List Order) (i : SdItem)
    → supply_at asks 0 ≡ 0
    → IsDepth asks bids i
    → is_priced i ≡ true
depth_priced asks bids i z (s, d) = elim (Bool-cases (i.price == 0)) [
  | inl e ↦ let s' = ap (supply_at asks) (==→eq i.price 0 e) in none_there (omega (arith, s, s', z))
  | inr e ↦ ground (arith, e)
]
  where
    none_there : i.supply ≡ 0 → is_priced i ≡ true
    none_there h = ground arith

pub all_priced_lem :
    (asks bids : List Order) (c : List SdItem)
    → supply_at asks 0 ≡ 0
    → All (IsDepth asks bids) c
    → all_priced c ≡ true
all_priced_lem asks bids [] z h = refl
all_priced_lem asks bids (i ∷ c) z h =
    ground (arith, depth_priced asks bids i z h.0, all_priced_lem asks bids c z h.1)
