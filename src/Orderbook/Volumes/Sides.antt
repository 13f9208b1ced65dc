-- ===== src/Orderbook/Volumes/Sides.antt =====
-- The fills of one side: what `getBidOrderFills` and `getAskOrderFills` return.
use blockchain_relay_layer.Base.{
  ◌⊎◌, ==→eq, ◌==◌, ℕ, ◌+◌, ◌≤◌, ◌<◌, ◌≡◌, refl, Bool, true, false, if◌then◌else◌, arith, inl, inr,
  List, [], ◌∷◌,
}
use blockchain_relay_layer.Sdk.{dec_of}
use blockchain_relay_layer.Orders.Types.{Order, OrderFill}
use blockchain_relay_layer.Orderbook.Fills.{order_fill}

-- The fills take some of the orders, in their order and each at most once, and satisfy `P`.
pub data FillsOf {ℓ} (P : OrderFill → Type ℓ) : List Order → List OrderFill → Type ℓ where
  done : {os : List Order} → FillsOf P os []
  skip :
      {o : Order} {os : List Order} {fs : List OrderFill} → FillsOf P os fs → FillsOf P (o ∷ os) fs
  take :
      {o : Order} {os : List Order} {f : OrderFill} {fs : List OrderFill}
      → f.order ≡ o
      → P f
      → FillsOf P os fs
      → FillsOf P (o ∷ os) (f ∷ fs)

-- The whole quantity that the fills move.
abbrev pub filled : List OrderFill → ℕ
filled [] = 0
filled (f ∷ fs) = f.quantity_filled + filled fs

-- A fill is of some quantity within its order and at the clearance price.
abbrev pub IsFill : ℕ → OrderFill → Type 0
IsFill price f =
    (f.clearance_price ≡ price)
    × (0 < f.quantity_filled)
    × (f.quantity_filled + f.quantity_unfilled ≡ f.order.quantity)

-- What one side's loop returns from the matched quantity `m` on: proper fills of the orders, the
-- matched quantity as a decimal, and for the side that is adjusted a total within the limit.
abbrev pub IsSide {ℓ} :
    (OrderFill → Type ℓ) → Bool → ℕ → ℕ → List Order → List OrderFill × ℕ → Type ℓ
IsSide P adjust max m os (fills, total) =
    FillsOf P os fills
    × (total ≡ dec_of (m + filled fills))
    × (adjust ≡ true → m + filled fills ≤ max)

module _ {ℓ} (P : OrderFill → Type ℓ) (adjust : Bool) (max price : ℕ) where
  pass :
      (zero : Bool) (o : Order) (os : List Order) (m q : ℕ) (rest : List OrderFill × ℕ)
      → (zero ≡ true → q ≡ 0)
      → (zero ≡ false → P (order_fill o price q))
      → IsSide P adjust max (m + q) os rest
      → IsSide P adjust max m
          (o ∷ os)
          (if zero then rest else (order_fill o price q ∷ rest.0, rest.1))
  pass true o os m q rest z p (fs, total, limit) =
      let e = z refl in (skip fs, rw (total) (omega (arith, e)), λ a. omega (arith, e, limit a))
  pass false o os m q rest z p (fs, total, limit) =
      (take refl (p refl) fs, rw (total) (omega arith), λ a. omega (arith, limit a))

  -- One round of a loop: it stops, passes the order by, or fills a part of it.
  pub round :
      (stop : Bool) (o : Order) (os : List Order) (m q : ℕ) (rest : List OrderFill × ℕ)
      → (stop ≡ false → 0 < q → P (order_fill o price q))
      → (adjust ≡ true → m ≤ max)
      → IsSide P adjust max (m + q) os rest
      → IsSide P adjust max m (o ∷ os) (
          if stop
          then ([], dec_of m)
          else if q == 0
          then rest
          else (order_fill o price q ∷ rest.0, rest.1))
  round true o os m q rest p room h = (done, omega arith, λ e. omega (arith, room e))
  round false o os m q rest p room h =
      pass (q == 0) o os m q rest (==→eq q 0) (λ n. p refl (positive n)) h
    where
      positive : q == 0 ≡ false → 0 < q
      positive n = ground arith

-- The same of a whole side, in decimals: the total is what the fills move, and the side that is
-- adjusted stays within `limit`.
abbrev pub Settled {ℓ} : (OrderFill → Type ℓ) → Bool → ℕ → List Order → List OrderFill × ℕ → Type ℓ
Settled P adjust limit os (fills, total) =
    FillsOf P os fills × (total ≡ dec_of (filled fills)) × ((adjust ≡ false) ⊎ (total ≤ limit))

pub IsSide-Settled {ℓ} :
    (P : OrderFill → Type ℓ) (adjust : Bool) (max limit : ℕ) (os : List Order)
    (r : List OrderFill × ℕ)
    → limit ≡ dec_of max
    → IsSide P adjust max 0 os r
    → Settled P adjust limit os r
IsSide-Settled P true max limit os (fs, t) e (h, total, room) =
    (h, omega (arith, total), inr (omega (arith, e, total, room refl)))
IsSide-Settled P false max limit os (fs, t) e (h, total, room) = (h, omega (arith, total), inl refl)
