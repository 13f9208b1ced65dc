-- ===== src/Orderbook/Volumes/Loops.antt =====
-- The loops of `getBidOrderFills` and `getAskOrderFills`, for the state of `GetClearanceState`.
use blockchain_relay_layer.Base.{
  ltb→lt, subst, not_ltb→le, ℕ, ◌+◌, ◌≤◌, ◌<◌, ◌≡◌, refl, Bool, true, false, ltb, arith, List, [],
  ◌∷◌, not, ◌||◌, ◌==◌,
}
use blockchain_relay_layer.Sdk.{DecOps, DecLaws, one_dec, dec_of}
use blockchain_relay_layer.Orders.Types.{Order, OrderFill}
use blockchain_relay_layer.Orderbook.Clearance.{ClearanceState}
use blockchain_relay_layer.Orderbook.Fills.{order_fill, fill_quantity, bid_fills, ask_fills}
use blockchain_relay_layer.Orderbook.Volumes.Quantity.{fill_quantity_bounds, invert_le}
use blockchain_relay_layer.Orderbook.Volumes.Sides.{IsFill, IsSide, done, round}

-- A bid is filled at a price that it offers at least, an ask at one that it asks at most.
abbrev pub IsBidFill : ℕ → OrderFill → Type 0
IsBidFill price f = IsFill price f × (price ≤ f.order.price)

abbrev pub IsAskFill : ℕ → OrderFill → Type 0
IsAskFill price f = IsFill price f × (f.order.price ≤ price)

order_fill-IsFill :
    (o : Order) (price q : ℕ) → q ≤ o.quantity → 0 < q → IsFill price (order_fill o price q)
order_fill-IsFill o price q h pos = (refl, pos, omega arith)

or_left : (a b : Bool) → (a || b) ≡ false → a ≡ false
or_left true b h = h
or_left false b h = refl

dec_of_add : (m q : ℕ) → dec_of (m + q) ≡ dec_of m + dec_of q
dec_of_add m q = omega arith

module _ (d : DecOps) (laws : DecLaws d) (cs : ClearanceState) (max : ℕ) where
  pub bid_fills-IsSide :
      cs.max_bid_volume ≡ dec_of max
      → (os : List Order) (m : ℕ) → (not (ltb one_dec cs.pro_rata) ≡ true → m ≤ max)
      → IsSide
          (IsBidFill cs.price)
          (not (ltb one_dec cs.pro_rata))
          max
          m
          os
          (bid_fills d cs os (dec_of m))
  unfolding bid_fills
  bid_fills-IsSide limit [] m room = (done, omega arith, λ e. omega (arith, room e))
  bid_fills-IsSide limit (o ∷ os) m room =
      let adjust = not (ltb one_dec cs.pro_rata) in
      let q = fill_quantity d adjust cs.pro_rata cs.max_bid_volume (dec_of m) o.quantity in
      let bounds =
        fill_quantity_bounds d laws adjust cs.pro_rata max cs.max_bid_volume m o.quantity limit
          small room in
      round (IsBidFill cs.price) adjust max cs.price
        (ltb o.price cs.price || (dec_of m == cs.max_bid_volume)) o os m q
        (bid_fills d cs os (dec_of m + dec_of q))
        (λ go pos. (
          order_fill-IsFill o cs.price q bounds.0 pos,
          not_ltb→le o.price cs.price
              (or_left (ltb o.price cs.price) (dec_of m == cs.max_bid_volume) go),
        ))
        room
        (subst (λ x. IsSide (IsBidFill cs.price) adjust max (m + q) os (bid_fills d cs os x))
          (dec_of_add m q) (bid_fills-IsSide limit os (m + q) bounds.1))
    where
      small : not (ltb one_dec cs.pro_rata) ≡ true → cs.pro_rata ≤ one_dec
      small e = ground arith

  pub ask_fills-IsSide :
      cs.max_ask_volume ≡ dec_of max
      → cs.pro_rata_invert ≡ d.quo one_dec cs.pro_rata
      → (os : List Order) (m : ℕ) → (ltb one_dec cs.pro_rata ≡ true → m ≤ max)
      → IsSide
          (IsAskFill cs.price)
          (ltb one_dec cs.pro_rata)
          max
          m
          os
          (ask_fills d cs os (dec_of m))
  unfolding ask_fills
  ask_fills-IsSide limit inv [] m room = (done, omega arith, λ e. omega (arith, room e))
  ask_fills-IsSide limit inv (o ∷ os) m room =
      let adjust = ltb one_dec cs.pro_rata in
      let q = fill_quantity d adjust cs.pro_rata_invert cs.max_ask_volume (dec_of m) o.quantity in
      let bounds =
        fill_quantity_bounds d laws adjust cs.pro_rata_invert max cs.max_ask_volume m o.quantity
          limit small room in
      round (IsAskFill cs.price) adjust max cs.price
        (ltb cs.price o.price || (dec_of m == cs.max_ask_volume)) o os m q
        (ask_fills d cs os (dec_of m + dec_of q))
        (λ go pos. (
          order_fill-IsFill o cs.price q bounds.0 pos,
          not_ltb→le cs.price o.price
              (or_left (ltb cs.price o.price) (dec_of m == cs.max_ask_volume) go),
        ))
        room
        (subst (λ x. IsSide (IsAskFill cs.price) adjust max (m + q) os (ask_fills d cs os x))
          (dec_of_add m q) (ask_fills-IsSide limit inv os (m + q) bounds.1))
    where
      small : ltb one_dec cs.pro_rata ≡ true → cs.pro_rata_invert ≤ one_dec
      small e = rw (inv) (invert_le d laws cs.pro_rata (ltb→lt one_dec cs.pro_rata e))
