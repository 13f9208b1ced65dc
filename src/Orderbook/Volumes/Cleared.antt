-- ===== src/Orderbook/Volumes/Cleared.antt =====
-- `GetClearanceState`: when there is a state, and what it allows the fills of both sides.
use blockchain_relay_layer.Base.{
  ◌+◌, not_ltb→le, ltb→lt, ◌⊎◌, ap, subst, le→not_ltb, ==→eq, ℕ, ◌*◌, ◌≤◌, ◌<◌, ◌≡◌, refl, Bool,
  true, false, ltb, arith, Bool-cases, inl, inr, List, [], ◌∷◌, not, ◌==◌,
}
use blockchain_relay_layer.Base.Action.{ok, panic}
use blockchain_relay_layer.Sdk.{DecOps, DecLaws, one_dec, dec_of}
use blockchain_relay_layer.Orders.Types.{Order}
use blockchain_relay_layer.Orderbook.Curves.{SdItem}
use blockchain_relay_layer.Orderbook.Clearance.{
  ClearanceState, SortSlice, get_cross_point, clearance_of, check_cross_point, get_clearance_state,
}
use blockchain_relay_layer.Orderbook.Fills.{get_bid_order_fills, get_ask_order_fills}
use blockchain_relay_layer.Orderbook.Volumes.Sides.{IsSide-Settled, Settled, filled}
use blockchain_relay_layer.Orderbook.Volumes.Loops.{
  IsBidFill, IsAskFill, bid_fills-IsSide, ask_fills-IsSide,
}
use mathlib.Core.List.{reverse}

module _ (d : DecOps) (laws : DecLaws d) where
  at_least : (r x : ℕ) → 0 < r → x ≤ r * x
  at_least r x h = grind arith

  ratio_zero : (s t : ℕ) → 0 < t → 2 * dec_of s < t → d.quo (dec_of s) (dec_of t) == 0 ≡ true
  ratio_zero s t pos h = elim (Bool-cases (d.quo (dec_of s) (dec_of t) == 0)) [
    | inl e ↦ e
    | inr n ↦ absurd (
        omega (
          arith,
          laws.quo_above (dec_of s) (dec_of t) (omega arith),
          at_least (d.quo (dec_of s) (dec_of t)) (dec_of t) (positive n),
        ))
  ]
    where
      positive : {n : ℕ} → n == 0 ≡ false → 0 < n
      positive h = ground arith

  ratio_positive :
      (s t : ℕ)
      → 0 < t
      → (one_dec + 2) * t < 2 * dec_of s * one_dec
      → d.quo (dec_of s) (dec_of t) == 0 ≡ false
  ratio_positive s t pos h = elim (Bool-cases (d.quo (dec_of s) (dec_of t) == 0)) [
    | inr n ↦ n
    | inl e ↦ absurd (
        omega (
          arith,
          laws.quo_below (dec_of s) (dec_of t) (omega arith),
          zero_times (d.quo (dec_of s) (dec_of t)) (dec_of t)
              (==→eq (d.quo (dec_of s) (dec_of t)) 0 e),
        ))
  ]
    where
      zero_times : (r x : ℕ) → r ≡ 0 → r * x ≡ 0
      zero_times r x e = rw (e) (omega arith)

  check_cross_point-ok :
      (p : SdItem) (cs : ClearanceState)
      → check_cross_point d p ≡ ok cs
      → (0 < p.supply) × (0 < p.demand) × (clearance_of d p ≡ cs)
  check_cross_point-ok p cs h = ground arith

  -- Below a demand of 10^18 the limit of the bids is no more than the supply.
  max_bid_volume-supply :
      (s t : ℕ)
      → 0 < t
      → t < one_dec
      → d.round_int (d.mul (dec_of t) (d.quo (dec_of s) (dec_of t))) ≤ s
  max_bid_volume-supply s t pos h =
      let r = d.quo (dec_of s) (dec_of t) in
      let v = d.mul (dec_of t) r in
      omega (
        arith,
        assoc t r,
        shift r t,
        laws.quo_above (dec_of s) (dec_of t) (omega arith),
        laws.mul_above (dec_of t) r,
        laws.round_int_above v,
      )
    where
      assoc : (a b : ℕ) → dec_of a * b ≡ a * b * one_dec
      assoc a b = grind arith

      shift : (a b : ℕ) → a * dec_of b ≡ b * a * one_dec
      shift a b = grind arith

  clearance_of-Settled :
      (p : SdItem) (bids asks : List Order)
      → Settled
          (IsBidFill p.price)
          (not (ltb one_dec (clearance_of d p).pro_rata))
          (clearance_of d p).max_bid_volume
          (reverse bids)
          (get_bid_order_fills d (clearance_of d p) bids)
        × Settled
            (IsAskFill p.price)
            (ltb one_dec (clearance_of d p).pro_rata)
            (clearance_of d p).max_ask_volume
            asks
            (get_ask_order_fills d (clearance_of d p) asks)
  unfolding get_bid_order_fills get_ask_order_fills
  clearance_of-Settled p bids asks =
      let cs = clearance_of d p in
      let adjust = ltb one_dec cs.pro_rata in
      let max_bid = d.round_int (d.mul (dec_of p.demand) cs.pro_rata) in
      let max_ask = d.round_int (d.mul (dec_of p.supply) cs.pro_rata_invert) in
      (
        IsSide-Settled (IsBidFill p.price) (not adjust) max_bid cs.max_bid_volume (reverse bids)
            (get_bid_order_fills d cs bids) refl
            (bid_fills-IsSide d laws cs max_bid refl (reverse bids) 0 (λ e. omega arith)),
        IsSide-Settled (IsAskFill p.price) adjust max_ask cs.max_ask_volume asks
            (get_ask_order_fills d cs asks) refl
            (ask_fills-IsSide d laws cs max_ask refl refl asks 0 (λ e. omega arith)),
      )

  -- When `GetClearanceState` returns a state, the fills of both sides take orders of their side, in
  -- the order of the match and each at most once; every fill is of a positive quantity within its
  -- order, at the clearance price, which a filled bid offers at least and a filled ask asks at most;
  -- the returned volumes are the filled quantities, and the side with more volume stays within the
  -- maximum of the state.
  pub get_clearance_state-Settled :
      (sort_slice : SortSlice) (i : SdItem) (c : List SdItem) (cs : ClearanceState)
      (bids asks : List Order)
      → get_clearance_state sort_slice d (i ∷ c) ≡ ok cs
      → Settled
          (IsBidFill cs.price)
          (not (ltb one_dec cs.pro_rata))
          cs.max_bid_volume
          (reverse bids)
          (get_bid_order_fills d cs bids)
        × Settled
            (IsAskFill cs.price)
            (ltb one_dec cs.pro_rata)
            cs.max_ask_volume
            asks
            (get_ask_order_fills d cs asks)
  unfolding get_clearance_state
  get_clearance_state-Settled sort_slice i c cs bids asks h =
      let p = get_cross_point sort_slice i c in
      subst
        (λ s.
          Settled (IsBidFill s.price) (not (ltb one_dec s.pro_rata)) s.max_bid_volume (reverse bids)
            (get_bid_order_fills d s bids)
          × Settled (IsAskFill s.price) (ltb one_dec s.pro_rata) s.max_ask_volume asks
              (get_ask_order_fills d s asks))
        ((check_cross_point-ok p cs h).2) (clearance_of-Settled p bids asks)

  -- When the bids are the larger side and the demand at the crossing point is below 10^18, the bids
  -- take no more than the supply of that point.
  pub bids_within_supply :
      (sort_slice : SortSlice) (i : SdItem) (c : List SdItem) (cs : ClearanceState)
      (bids : List Order)
      → get_clearance_state sort_slice d (i ∷ c) ≡ ok cs
      → (get_cross_point sort_slice i c).demand < one_dec
      → cs.pro_rata ≤ one_dec
      → filled (get_bid_order_fills d cs bids).0 ≤ (get_cross_point sort_slice i c).supply
  unfolding get_clearance_state
  bids_within_supply sort_slice i c cs bids h small ratio =
      let p = get_cross_point sort_slice i c in
      let checked = check_cross_point-ok p cs h in
      let fills = get_clearance_state-Settled sort_slice i c cs bids [] h in
      omega (
        arith,
        fills.0.1,
        limited (le→not_ltb one_dec cs.pro_rata ratio) fills.0.2,
        ap (λ s. s.max_bid_volume) checked.2,
        max_bid_volume-supply p.supply p.demand checked.1 small,
      )
    where
      limited : {b : Bool} {x y : ℕ} → b ≡ false → (not b ≡ false) ⊎ (x ≤ y) → x ≤ y
      limited e (inl f) = absurd (ground arith)
      limited e (inr h) = h

  -- At a crossing point with a price and both volumes there are three cases. While the demand, times
  -- 1 + 2 * 10^-18, is below 2 * 10^18 times the supply, the state follows from the volumes; where the
  -- demand itself is above that, the ratio rounds to zero and the division by it panics; of the
  -- demands between them nothing is said.
  pub get_clearance_state_cases :
      (sort_slice : SortSlice) (i : SdItem) (c : List SdItem)
      → let p = get_cross_point sort_slice i c in
        0 < p.price
        → 0 < p.supply
        → 0 < p.demand
        → (((one_dec + 2) * p.demand < 2 * dec_of p.supply * one_dec)
            × (get_clearance_state sort_slice d (i ∷ c) ≡ ok (clearance_of d p)))
          ⊎ (((2 * dec_of p.supply < p.demand) × (get_clearance_state sort_slice d (i ∷ c) ≡ panic))
              ⊎ ((p.demand ≤ 2 * dec_of p.supply)
                  × (2 * dec_of p.supply * one_dec ≤ (one_dec + 2) * p.demand)))
  unfolding get_clearance_state
  get_clearance_state_cases sort_slice i c price supply demand =
      let p = get_cross_point sort_slice i c in
      let low = (one_dec + 2) * p.demand in
      let high = 2 * dec_of p.supply * one_dec in
      elim (Bool-cases (ltb low high)) [
        | inl e ↦
            let h = ltb→lt low high e in
            inl (h, ground (arith, ratio_positive p.supply p.demand demand h))
        | inr e ↦ elim (Bool-cases (ltb (2 * dec_of p.supply) p.demand)) [
          | inl f ↦
              let h = ltb→lt (2 * dec_of p.supply) p.demand f in
              inr (inl (h, ground (arith, ratio_zero p.supply p.demand demand h)))
          | inr f ↦ inr (inr (not_ltb→le (2 * dec_of p.supply) p.demand f, not_ltb→le low high e))
        ]
      ]
