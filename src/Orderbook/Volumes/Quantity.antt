-- ===== src/Orderbook/Volumes/Quantity.antt =====
-- The filled quantity of one order.
use blockchain_relay_layer.Base.{
  ◌⊎◌, not_ltb→le, ltb→lt, ℕ, ◌+◌, ◌*◌, ◌-◌, ◌≤◌, ◌<◌, ◌≡◌, refl, Bool, true, false, ltb,
  if◌then◌else◌, arith, Bool-cases, inl, inr,
}
use blockchain_relay_layer.Sdk.{DecOps, DecLaws, one_dec, dec_of}
use blockchain_relay_layer.Orderbook.Fills.{fill_quantity}

module _ (d : DecOps) (laws : DecLaws d) where
  -- A product with a ratio of at most one is not larger.
  mul-le : (a ratio : ℕ) → ratio ≤ one_dec → d.mul a ratio ≤ a
  mul-le a ratio h = omega (arith, laws.mul_above a ratio, scaled a ratio h)
    where
      scaled : (x r : ℕ) → r ≤ one_dec → x * r ≤ x * one_dec
      scaled x r h = grind arith

  wanted-le : (q ratio : ℕ) → ratio ≤ one_dec → d.ceil (d.mul (dec_of q) ratio) ≤ dec_of q
  wanted-le q ratio h = laws.ceil_least (d.mul (dec_of q) ratio) q (mul-le (dec_of q) ratio h)

  round-le : (a n : ℕ) → a ≤ dec_of n → d.round_int a ≤ n
  round-le a n h = omega (arith, laws.round_int_mono a (dec_of n) h, laws.round_int_of n)

  -- What is left up to the limit, or the part of the order that the ratio gives.
  abbrev adjusted : ℕ → ℕ → ℕ → ℕ → ℕ
  adjusted ratio max matched q =
      let wanted = d.ceil (d.mul (dec_of q) ratio) in
      d.round_int (if ltb max (matched + wanted) then max - matched else wanted)

  adjusted_bounds :
      (ratio max matched q : ℕ)
      → ratio ≤ one_dec
      → matched ≤ max
      → (adjusted ratio (dec_of max) (dec_of matched) q ≤ q)
        × (matched + adjusted ratio (dec_of max) (dec_of matched) q ≤ max)
  adjusted_bounds ratio max matched q h room =
      let wanted = d.ceil (d.mul (dec_of q) ratio) in
      let small = wanted-le q ratio h in
      elim (Bool-cases (ltb (dec_of max) (dec_of matched + wanted))) [
        | inl over ↦
            rw (over, adjusted)
              (
                round-le (dec_of max - dec_of matched) q (over_le over small),
                room_le
                    (round-le (dec_of max - dec_of matched) (max - matched) (minus_le max matched)),
              )
        | inr fits ↦
            rw (fits, adjusted)
              (round-le wanted q small, room_le (round-le wanted (max - matched) (fits_le fits)))
      ]
    where
      room_le : {n : ℕ} → n ≤ max - matched → matched + n ≤ max
      room_le r = omega arith

      minus_le : (a b : ℕ) → dec_of a - dec_of b ≤ dec_of (a - b)
      minus_le a b = omega arith

      over_le :
          {w : ℕ}
          → ltb (dec_of max) (dec_of matched + w) ≡ true
          → w ≤ dec_of q
          → dec_of max - dec_of matched ≤ dec_of q
      over_le {w} e s = omega (arith, ltb→lt (dec_of max) (dec_of matched + w) e)

      fits_le : {w : ℕ} → ltb (dec_of max) (dec_of matched + w) ≡ false → w ≤ dec_of (max - matched)
      fits_le {w} e = omega (arith, not_ltb→le (dec_of max) (dec_of matched + w) e)

  -- The side that is adjusted stays within its orders and its limit, the other within its orders.
  pub fill_quantity_bounds :
      (adjust : Bool) (ratio max limit matched q : ℕ)
      → limit ≡ dec_of max
      → (adjust ≡ true → ratio ≤ one_dec)
      → (adjust ≡ true → matched ≤ max)
      → (fill_quantity d adjust ratio limit (dec_of matched) q ≤ q)
        × (adjust ≡ true → matched + fill_quantity d adjust ratio limit (dec_of matched) q ≤ max)
  unfolding fill_quantity
  fill_quantity_bounds true ratio max limit matched q e small room =
      let b = adjusted_bounds ratio max matched q (small refl) (room refl) in rw (e) (b.0, λ _. b.1)
  fill_quantity_bounds false ratio max limit matched q e small room =
      (omega arith, λ f. ground arith)

  -- A ratio above one has an inverse of at most one.
  pub invert_le : (ratio : ℕ) → one_dec < ratio → d.quo one_dec ratio ≤ one_dec
  invert_le ratio h = elim (le_or_lt (d.quo one_dec ratio) one_dec) [
    | inl small ↦ small
    | inr large ↦
        omega
          (arith, laws.quo_above one_dec ratio (omega arith), scaled (d.quo one_dec ratio) large)
  ]
    where
      le_or_lt : (a b : ℕ) → (a ≤ b) ⊎ (b < a)
      le_or_lt a b = elim (Bool-cases (ltb b a)) [
        | inl e ↦ inr (ltb→lt b a e)
        | inr e ↦ inl (not_ltb→le b a e)
      ]

      scaled : (x : ℕ) → one_dec < x → one_dec * ratio + ratio ≤ x * ratio
      scaled x l = grind arith
