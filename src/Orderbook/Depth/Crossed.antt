-- ===== src/Orderbook/Depth/Crossed.antt =====
-- `NewSDCurves` on the aggregates of sorted orders.
use blockchain_relay_layer.Base.{
  ℕ, ◌+◌, ◌≤◌, ◌<◌, ◌≡◌, ◌⊎◌, refl, List, [], ◌∷◌, ltb, arith, All, Bool, true, false, inl, inr,
  Bool-cases, ltb→lt, not_ltb→le,
}
use blockchain_relay_layer.Base.Action.{Result, ok, err}
use blockchain_relay_layer.Orders.Types.{Order}
use blockchain_relay_layer.Orderbook.Aggregates.{
  OrderAggregate, new_ask_order_aggregates, new_bid_order_aggregates,
}
use blockchain_relay_layer.Orderbook.Curves.{
  SdItem, Error, no_orders, no_crossing, slice_is_sorted, ask_less, bid_less, last_price,
  new_sd_curves, merge_curves,
}
use blockchain_relay_layer.Orderbook.Depth.{
  Ascending, Rising, step_up, step_down, supply_at, demand_at,
}
use blockchain_relay_layer.Orderbook.Depth.Summed.{
  step_up-new_ask_order_aggregates, new_ask_order_aggregates-Rising,
  step_down-new_bid_order_aggregates, new_bid_order_aggregates-Rising,
}
use blockchain_relay_layer.Orderbook.Depth.Fixed.{IsDepth, merge_curves-IsDepth}
use blockchain_relay_layer.Orderbook.Depth.Points.{
  has_price, any_volumes, has_price-merge_curves, any_volumes_lem,
}

slice_is_sorted-Rising :
    (less : OrderAggregate → OrderAggregate → Bool)
    → ((a b : OrderAggregate) → a.price < b.price → less b a ≡ false)
    → (low : ℕ) (l : List OrderAggregate) → Rising low l
    → slice_is_sorted less l ≡ true
unfolding slice_is_sorted
slice_is_sorted-Rising less up low [] r = refl
slice_is_sorted-Rising less up low (a ∷ []) r = refl
slice_is_sorted-Rising less up low (a ∷ b ∷ l) r =
    ground (
      arith,
      up a b (omega (arith, r.2.0)),
      slice_is_sorted-Rising less up (1 + a.price) (b ∷ l) r.2,
    )

asks_sorted : (low : ℕ) (l : List OrderAggregate) → Rising low l → slice_is_sorted ask_less l ≡ true
asks_sorted low l r = slice_is_sorted-Rising ask_less (λ a b h. ground arith) low l r

bids_sorted : (low : ℕ) (l : List OrderAggregate) → Rising low l → slice_is_sorted bid_less l ≡ true
bids_sorted low l r = slice_is_sorted-Rising bid_less (λ a b h. ground arith) low l r

step_up_positive :
    (low fill p : ℕ) (l : List OrderAggregate) → Rising low l → 0 < fill → 0 < step_up fill l p
step_up_positive low fill p [] r h = h
step_up_positive low fill p (a ∷ l) r h =
    ground (arith, step_up_positive (1 + a.price) a.quantity p l r.2 r.1)

last_price_above :
    (low : ℕ) (a : OrderAggregate) (l : List OrderAggregate)
    → Rising low (a ∷ l)
    → low ≤ last_price a l
last_price_above low a [] r = r.0
last_price_above low a (b ∷ l) r = omega (arith, r.0, last_price_above (1 + a.price) b l r.2)

step_down_none :
    (low p : ℕ) (a : OrderAggregate) (l : List OrderAggregate)
    → Rising low (a ∷ l)
    → last_price a l < p
    → step_down 0 (a ∷ l) p ≡ 0
step_down_none low p a [] r h = ground arith
step_down_none low p a (b ∷ l) r h =
    ground (arith, step_down_none (1 + a.price) p b l r.2 h, last_price_above (1 + a.price) b l r.2)

step_down_positive :
    (low p : ℕ) (a : OrderAggregate) (l : List OrderAggregate)
    → Rising low (a ∷ l)
    → p ≤ last_price a l
    → 0 < step_down 0 (a ∷ l) p
step_down_positive low p a [] r h = ground (arith, r)
step_down_positive low p a (b ∷ l) r h =
    ground (arith, r, step_down_positive (1 + a.price) p b l r.2 h)

-- A price at which both sides have some quantity.
abbrev pub Crosses : List Order → List Order → Type 0
Crosses asks bids = (p : ℕ) × (0 < supply_at asks p) × (0 < demand_at bids p)

abbrev pub NeverCrosses : List Order → List Order → Type 0
NeverCrosses asks bids = (p : ℕ) → (supply_at asks p ≡ 0) ⊎ (demand_at bids p ≡ 0)

-- The two outcomes: curves that hold the depth of both sides, with a point that has both volumes,
-- or no price for a trade.
abbrev pub Outcomes : List Order → List Order → Result Error (List SdItem) → Type 0
Outcomes asks bids r =
    ((c : List SdItem) × (r ≡ ok c)
      × All (IsDepth asks bids) c
      × (any_volumes c ≡ true)
      × Crosses asks bids)
    ⊎ (((r ≡ err no_orders) ⊎ (r ≡ err no_crossing)) × NeverCrosses asks bids)

-- Of any two lists of aggregates.
StepOutcomes : List OrderAggregate → List OrderAggregate → Result Error (List SdItem) → Type 0
StepOutcomes l k r =
    ((r ≡ ok (merge_curves l k))
      × ((p : ℕ) × (0 < step_up 0 l p)
          × (0 < step_down 0 k p)
          × (has_price p (merge_curves l k) ≡ true)))
    ⊎ (((r ≡ err no_orders) ⊎ (r ≡ err no_crossing))
        × ((p : ℕ) → (step_up 0 l p ≡ 0) ⊎ (step_down 0 k p ≡ 0)))

new_sd_curves-StepOutcomes :
    (l k : List OrderAggregate) → Rising 0 l → Rising 0 k → StepOutcomes l k (new_sd_curves l k)
unfolding new_sd_curves StepOutcomes
new_sd_curves-StepOutcomes [] k r s = inr (inl refl, λ p. inl refl)
new_sd_curves-StepOutcomes (a ∷ l) [] r s = inr (inl refl, λ p. inr refl)
new_sd_curves-StepOutcomes (a ∷ l) (b ∷ k) r s = elim (Bool-cases (ltb (last_price b k) a.price)) [
  | inl e ↦ inr (
    inr (rw (asks_sorted 0 (a ∷ l) r, bids_sorted 0 (b ∷ k) s, e) refl),
    λ p. elim (Bool-cases (ltb p a.price)) [
      | inl f ↦ inl (ground (arith, f))
      | inr f ↦ inr (
          step_down_none 0 p b k s
            (omega (arith, ltb→lt (last_price b k) a.price e, not_ltb→le p a.price f)))
    ],
  )
  | inr e ↦ inl (
    rw (asks_sorted 0 (a ∷ l) r, bids_sorted 0 (b ∷ k) s, e) refl,
    (
      a.price,
      ground (arith, step_up_positive (1 + a.price) a.quantity a.price l r.2 r.1),
      step_down_positive 0 a.price b k s (not_ltb→le (last_price b k) a.price e),
      has_price-merge_curves a l (b ∷ k),
    ),
  )
]

-- For orders sorted by price, with positive quantities, `NewSDCurves` on their aggregates has
-- one of two outcomes.
pub new_sd_curves-Outcomes :
    (asks bids : List Order)
    → Ascending 0 asks
    → Ascending 0 bids
    → Outcomes asks bids
        (new_sd_curves (new_ask_order_aggregates asks) (new_bid_order_aggregates bids))
unfolding StepOutcomes
new_sd_curves-Outcomes asks bids ha hb =
    let l = new_ask_order_aggregates asks in
    let k = new_bid_order_aggregates bids in
    let up = λ (p : ℕ). step_up-new_ask_order_aggregates p asks ha in
    let down = λ (p : ℕ). step_down-new_bid_order_aggregates p bids hb in
    elim (new_sd_curves-StepOutcomes l k (new_ask_order_aggregates-Rising asks ha)
      (new_bid_order_aggregates-Rising bids hb)) [
        | inl (e, (p, s, d, h)) ↦ inl (
          merge_curves l k,
          e,
          merge_curves-IsDepth asks bids ha hb,
          any_volumes_lem asks bids p (merge_curves l k) (merge_curves-IsDepth asks bids ha hb) h
              (omega (arith, s, up p)) (omega (arith, d, down p)),
          (p, omega (arith, s, up p), omega (arith, d, down p)),
        )
        | inr (e, n) ↦ inr (
          e,
          λ p. elim (n p) [
            | inl z ↦ inl (omega (arith, z, up p))
            | inr z ↦ inr (omega (arith, z, down p))
          ],
        )
      ]
