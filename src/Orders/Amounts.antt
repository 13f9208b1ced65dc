-- ===== src/Orders/Amounts.antt =====
-- x/orders: what the orders of the store have locked, in one denom.
use native.Mathlib.Nat.{one-le-pow}
use blockchain_relay_layer.Base.{
  not, ◌&&◌, ltb, ℕ, ◌+◌, ◌-◌, ◌^◌, ◌≤◌, ◌<◌, ◌≡◌, Option, none, some, [], ◌∷◌, ◌==◌, arith, inl,
  inr, Bool-cases,
}
use blockchain_relay_layer.Base.Map.{has, insert_by, Map, lookup, insert, erase}
use blockchain_relay_layer.Base.Action.{Result, ok, err, panic}
use blockchain_relay_layer.Sdk.{DecOps, DecLaws}
use blockchain_relay_layer.Sdk.Bank.{Coin, amount_in}
use blockchain_relay_layer.Ccstorage.Types.{Currency, min_decimal, dec_to_uint, uint_to_dec}
use blockchain_relay_layer.Markets.Types.{MarketExtended, base_to_quote_quantity}
use blockchain_relay_layer.Orders.Types.{Error, Order, lock_coin, quote_coin}

-- The amount of a denom in the coin of a method that may fail.
abbrev pub coin_amount : ℕ → Result Error Coin → ℕ
coin_amount n (ok c) = amount_in c n
coin_amount n (err _) = 0
coin_amount n panic = 0

module _ (d : DecOps) (n : ℕ) where
  abbrev pub locked_by : Option Order → ℕ
  locked_by none = 0
  locked_by (some o) = coin_amount n (lock_coin d o)

  unfoldable pub total_locked : Map Order → ℕ
  total_locked [] = 0
  total_locked ((id, o) ∷ store) = coin_amount n (lock_coin d o) + total_locked store

  pub total_locked-insert :
      (id : ℕ) (o : Order) (store : Map Order)
      → total_locked (insert id o store) + locked_by (lookup id store)
        ≡ total_locked store + coin_amount n (lock_coin d o)
  unfolding total_locked lookup insert_by
  total_locked-insert id o [] = omega arith
  total_locked-insert id o ((i, x) ∷ store) = elim (Bool-cases (i == id)) [
    | inl e ↦ rw (e) (omega arith)
    | inr e ↦ elim (Bool-cases (ltb id i && not (has id store))) [
      | inl f ↦ let new : lookup id store ≡ none = ground (arith, f) in rw (e, f, new) (omega arith)
      | inr f ↦ rw (e, f) (omega (arith, total_locked-insert id o store))
    ]
  ]

  total_locked-erase_le :
      (id : ℕ) (store : Map Order) → total_locked (erase id store) ≤ total_locked store
  unfolding total_locked erase
  total_locked-erase_le id [] = omega arith
  total_locked-erase_le id ((i, x) ∷ store) = elim (Bool-cases (i == id)) [
    | inl e ↦ rw (e) (omega (arith, total_locked-erase_le id store))
    | inr e ↦ rw (e) (omega (arith, total_locked-erase_le id store))
  ]

  pub total_locked-erase :
      (id : ℕ) (store : Map Order)
      → total_locked (erase id store) + locked_by (lookup id store) ≤ total_locked store
  unfolding total_locked lookup erase
  total_locked-erase id [] = omega arith
  total_locked-erase id ((i, x) ∷ store) = elim (Bool-cases (i == id)) [
    | inl e ↦ rw (e) (omega (arith, total_locked-erase_le id store))
    | inr e ↦ rw (e) (omega (arith, total_locked-erase id store))
  ]

  pub locked_by-le : (id : ℕ) (store : Map Order) → locked_by (lookup id store) ≤ total_locked store
  locked_by-le id store = omega (arith, total_locked-erase id store)

-- No currency of the market has more decimals than `sdk.Dec`.
abbrev pub Precise : MarketExtended → Type 0
Precise m = (m.base_currency.decimals ≤ 18) × (m.quote_currency.decimals ≤ 18)

pow_positive : (p : ℕ) → 0 < 10 ^ p
pow_positive p = one-le-pow p 10 (omega arith)

module _ (d : DecOps) (laws : DecLaws d) where
  min_decimal_positive : (c : Currency) → c.decimals ≤ 18 → 0 < min_decimal d c
  min_decimal_positive c h =
      rw (laws.from_int_exact 1 c.decimals h) (omega (arith, pow_positive (18 - c.decimals)))

  truncate_mono : (a b : ℕ) → a ≤ b → d.truncate_int a ≤ d.truncate_int b
  truncate_mono a b h = omega (arith, laws.truncate_int_below a, laws.truncate_int_above b)

  uint_to_dec_mono :
      (c : Currency) (a b : ℕ) → c.decimals ≤ 18 → a ≤ b → uint_to_dec d c a ≤ uint_to_dec d c b
  uint_to_dec_mono c a b h l =
      rw (laws.from_int_exact a c.decimals h, laws.from_int_exact b c.decimals h) (grind arith)

  -- The quote coin of a smaller quantity is no greater.
  quote_coin_mono :
      (m : MarketExtended) (price q q' n : ℕ)
      → Precise m
      → q ≤ q'
      → coin_amount n (quote_coin d m price q) ≤ coin_amount n (quote_coin d m price q')
  unfolding quote_coin base_to_quote_quantity
  quote_coin_mono m price q q' n h l =
      let base = m.base_currency in
      let quote = m.quote_currency in
      let a = d.mul (uint_to_dec d quote price) (uint_to_dec d base q) in
      let b = d.mul (uint_to_dec d quote price) (uint_to_dec d base q') in
      let le : a ≤ b =
        laws.mul_mono (uint_to_dec d base q) (uint_to_dec d base q') (uint_to_dec d quote price)
          (uint_to_dec_mono base q q' h.0 l) in
      let dec : dec_to_uint d quote a ≤ dec_to_uint d quote b =
        truncate_mono (d.quo a (min_decimal d quote)) (d.quo b (min_decimal d quote))
          (laws.quo_mono a b (min_decimal d quote) (min_decimal_positive quote h.1) le) in
      ground arith

  -- An order with less left has no more locked.
  pub lock_coin_mono :
      (o : Order) (q t n : ℕ)
      → Precise o.market
      → q ≤ o.quantity
      → coin_amount n (lock_coin d (record o { quantity = q; updated_at = t }))
        ≤ coin_amount n (lock_coin d o)
  unfolding lock_coin
  lock_coin_mono o q t n h l = ground (arith, quote_coin_mono o.market o.price q o.quantity n h l)
