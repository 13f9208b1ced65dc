-- ===== src/Orderbook/Pool.antt =====
-- x/orderbook/internal/keeper/matcher_pool.go: the pool of the matchers, for the orders of the store.
use mathlib.Core.List.{append_assoc, append-nil}
use blockchain_relay_layer.Base.{
  ℕ, ◌<◌, ◌≡◌, refl, sym, ap, ◌∙◌, Bool, true, false, List, [], ◌∷◌, ◌++◌, ◌==◌, ◌&&◌,
  if◌then◌else◌, arith, inl, inr, Bool-cases, All, ◌⊎◌,
}
use blockchain_relay_layer.Base.Action.{Result, ok, err, panic}
use blockchain_relay_layer.Orders.Types.{Order, Direction, bid, ask, unknown}
use blockchain_relay_layer.Orderbook.Matcher.{
  Matcher, AddError, add_order, new_matcher, pool_add_order,
}

-- The first loop of the end of a block: the orders are put into the pool, one after the other.
unfoldable pub pool_of : List Order → List Matcher → Result AddError (List Matcher)
unfolding pool_add_order
pool_of [] ms = ok ms
pool_of (o ∷ os) ms = elim (pool_add_order o ms) [
  | ok ms' ↦ pool_of os ms'
  | err e ↦ err e
  | panic ↦ panic
]

abbrev pub is_bid : Direction → Bool
is_bid bid = true
is_bid ask = false
is_bid unknown = false

abbrev pub is_ask : Direction → Bool
is_ask bid = false
is_ask ask = true
is_ask unknown = false

-- What the validation of an order ensures.
abbrev pub Tradable : Order → Type 0
Tradable o = (0 < o.price) × (0 < o.quantity) × ((o.direction ≡ bid) ⊎ (o.direction ≡ ask))

-- The bids and the asks of a market among the orders, in their order.
abbrev pub bids_for : ℕ → List Order → List Order
bids_for id [] = []
bids_for id (o ∷ os) =
    if (o.market.id == id) && is_bid o.direction then o ∷ bids_for id os else bids_for id os

abbrev pub asks_for : ℕ → List Order → List Order
asks_for id [] = []
asks_for id (o ∷ os) =
    if (o.market.id == id) && is_ask o.direction then o ∷ asks_for id os else asks_for id os

-- What the pool holds for a market.
abbrev pub pool_bids : ℕ → List Matcher → List Order
pool_bids id [] = []
pool_bids id (m ∷ ms) = if m.market_id == id then m.bids else pool_bids id ms

abbrev pub pool_asks : ℕ → List Matcher → List Order
pool_asks id [] = []
pool_asks id (m ∷ ms) = if m.market_id == id then m.asks else pool_asks id ms

-- A matcher takes a tradable order of its market.
add_order_lem :
    (o : Order) (m : Matcher)
    → Tradable o
    → m.market_id ≡ o.market.id
    → (m' : Matcher) × (add_order o m ≡ ok m')
      × (m'.market_id ≡ m.market_id)
      × (m'.bids ≡ m.bids ++ (if is_bid o.direction then o ∷ [] else []))
      × (m'.asks ≡ m.asks ++ (if is_ask o.direction then o ∷ [] else []))
unfolding add_order
add_order_lem o m (p, q, side) h = elim side [
  | inl e ↦ (
    record m { bids = m.bids ++ o ∷ [] },
    ground (arith, e),
    refl,
    rw (e) refl,
    rw (e) (sym (append-nil m.asks)),
  )
  | inr e ↦ (
    record m { asks = m.asks ++ o ∷ [] },
    ground (arith, e),
    refl,
    rw (e) (sym (append-nil m.bids)),
    rw (e) refl,
  )
]

-- The pool after one more order.
abbrev Added : Order → List Matcher → List Matcher → Type 0
Added o ms ms' =
    ((id : ℕ) → pool_bids id ms' ≡ pool_bids id ms ++ bids_for id (o ∷ []))
    × ((id : ℕ) → pool_asks id ms' ≡ pool_asks id ms ++ asks_for id (o ∷ []))

pool_add_order_lem :
    (o : Order) (ms : List Matcher)
    → Tradable o
    → (ms' : List Matcher) × (pool_add_order o ms ≡ ok ms') × Added o ms ms'
unfolding pool_add_order
pool_add_order_lem o [] t =
    let (m, e, i, b, a) = add_order_lem o (new_matcher o.market.id) t refl in
    (m ∷ [], rw (e) refl, (λ id. ground (arith, i, b), λ id. ground (arith, i, a)))
pool_add_order_lem o (m ∷ ms) t = elim (Bool-cases (m.market_id == o.market.id)) [
  | inl h ↦
      let (m', e, i, b, a) = add_order_lem o m t (ground (arith, h)) in
      (
        m' ∷ ms,
        rw (h, e) refl,
        (
          λ id. ground (arith, i, b, h, append-nil (pool_bids id ms)),
          λ id. ground (arith, i, a, h, append-nil (pool_asks id ms)),
        ),
      )
  | inr h ↦
      let (ms', e, (b, a)) = pool_add_order_lem o ms t in
      (
        m ∷ ms',
        rw (h, e) refl,
        (
          λ id. ground (arith, h, b id, append-nil m.bids),
          λ id. ground (arith, h, a id, append-nil m.asks),
        ),
      )
]

bids_for-cons :
    (id : ℕ) (o : Order) (os : List Order)
    → bids_for id (o ∷ []) ++ bids_for id os ≡ bids_for id (o ∷ os)
bids_for-cons id o os = elim (Bool-cases ((o.market.id == id) && is_bid o.direction)) [
  | inl e ↦ rw (e) refl
  | inr e ↦ rw (e) refl
]

asks_for-cons :
    (id : ℕ) (o : Order) (os : List Order)
    → asks_for id (o ∷ []) ++ asks_for id os ≡ asks_for id (o ∷ os)
asks_for-cons id o os = elim (Bool-cases ((o.market.id == id) && is_ask o.direction)) [
  | inl e ↦ rw (e) refl
  | inr e ↦ rw (e) refl
]

pool_of_lem :
    (os : List Order) (ms : List Matcher)
    → All Tradable os
    → (pool : List Matcher) × (pool_of os ms ≡ ok pool)
      × ((id : ℕ) → pool_bids id pool ≡ pool_bids id ms ++ bids_for id os)
      × ((id : ℕ) → pool_asks id pool ≡ pool_asks id ms ++ asks_for id os)
unfolding pool_of
pool_of_lem [] ms t =
    (ms, refl, λ id. sym (append-nil (pool_bids id ms)), λ id. sym (append-nil (pool_asks id ms)))
pool_of_lem (o ∷ os) ms t =
    let (ms', e, (b, a)) = pool_add_order_lem o ms t.0 in
    let (pool, f, c, d) = pool_of_lem os ms' t.1 in
    (
      pool,
      rw (pool_of, e) f,
      λ id.
          c id
          ∙ ap (λ l. l ++ bids_for id os) (b id)
          ∙ append_assoc (pool_bids id ms) (bids_for id (o ∷ [])) (bids_for id os)
          ∙ ap (λ l. pool_bids id ms ++ l) (bids_for-cons id o os),
      λ id.
          d id
          ∙ ap (λ l. l ++ asks_for id os) (a id)
          ∙ append_assoc (pool_asks id ms) (asks_for id (o ∷ [])) (asks_for id os)
          ∙ ap (λ l. pool_asks id ms ++ l) (asks_for-cons id o os),
    )

-- Orders with a price, a quantity and a direction are all taken into the pool, with no error, and
-- then every market's matcher holds exactly the bids and the asks of that market, in the order of
-- the store.
pub pool_of-eq-filters :
    (os : List Order)
    → All Tradable os
    → (pool : List Matcher) × (pool_of os [] ≡ ok pool)
      × ((id : ℕ) → pool_bids id pool ≡ bids_for id os)
      × ((id : ℕ) → pool_asks id pool ≡ asks_for id os)
pool_of-eq-filters os t = pool_of_lem os [] t
