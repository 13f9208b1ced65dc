-- ===== src/Oracle/Posting.antt =====
-- x/oracle: who may post a price or change an asset, and what the stores hold afterwards.
use blockchain_relay_layer.Base.{
  ℕ, ◌≡◌, refl, ap, ◌∙◌, true, false, Option, none, some, List, [], ◌∷◌, ◌==◌, ◌&&◌, if◌then◌else◌,
  elem, arith, inl, inr, Bool-cases, Option-cases, ◌⊎◌,
}
use blockchain_relay_layer.Base.Map.{lookup, insert, lookup-insert}
use blockchain_relay_layer.Base.Action.{ok, is_ok, Result-cases}
use blockchain_relay_layer.Ccstorage.Types.{Name}
use blockchain_relay_layer.Oracle.Types.{Oracle, Asset, PostedPrice, State}
use blockchain_relay_layer.Oracle.Keeper.{
  find_asset, get_oracles, get_oracle, or_empty, get_raw_prices, put_price, received_at_is_valid,
  set_price, validate_post_price, handle_msg_post_price,
}

-- The price that an oracle has posted.
abbrev pub price_of : Oracle → List PostedPrice → Option PostedPrice
price_of o [] = none
price_of o (p ∷ ps) = if p.oracle_address == o then some p else price_of o ps

price_of-put_price :
    (o : Oracle) (p : PostedPrice) (l : List PostedPrice)
    → price_of o (put_price p l) ≡ (if p.oracle_address == o then some p else price_of o l)
unfolding put_price
price_of-put_price o p [] = refl
price_of-put_price o p (x ∷ xs) = ground (arith, price_of-put_price o p xs)

-- The posted prices that are read after one list is written.
abbrev put_at : ℕ → Name → List PostedPrice → State → State
put_at height code prices s = record s {
  raw_prices =
      insert height (insert code prices (or_empty (lookup height s.raw_prices))) s.raw_prices;
}

get_raw_prices-put_at :
    (height : ℕ) (code : Name) (prices : List PostedPrice) (s : State) (h : ℕ) (c : Name)
    → get_raw_prices (put_at height code prices s) c h
      ≡ (if (height == h) && (code == c) then prices else get_raw_prices s c h)
unfolding get_raw_prices
get_raw_prices-put_at height code prices s h c =
    let part = or_empty (lookup height s.raw_prices) in
    elim (Bool-cases (height == h)) [
      | inr e ↦ rw (lookup-insert height h (insert code prices part) s.raw_prices, e) refl
      | inl e ↦
          let at : height ≡ h = ground arith in
          rw (lookup-insert height h (insert code prices part) s.raw_prices, e)
            (rw (lookup-insert code c prices part) (elim (Bool-cases (code == c)) [
              | inl f ↦ rw (f) refl
              | inr f ↦ rw (f) (rw (at) refl)
            ]))
    ]

read_back :
    (height : ℕ) (p : PostedPrice) (s : State) (h : ℕ) (c : Name) (o : Oracle)
    → price_of o (
        get_raw_prices
          (put_at height p.asset_code (put_price p (get_raw_prices s p.asset_code height)) s)
          c
          h)
      ≡ (if (height == h) && (p.asset_code == c) && (p.oracle_address == o)
          then some p
          else price_of o (get_raw_prices s c h))
read_back height p s h c o =
    let old = get_raw_prices s p.asset_code height in
    elim (Bool-cases ((height == h) && (p.asset_code == c))) [
      | inr e ↦
          rw (get_raw_prices-put_at height p.asset_code (put_price p old) s h c) (ground (arith, e))
      | inl e ↦
          let at : height ≡ h = ground (arith, e) in
          let of : p.asset_code ≡ c = ground (arith, e) in
          let same : old ≡ get_raw_prices s c h =
            ap (λ (n : ℕ). get_raw_prices s p.asset_code n) at
            ∙ ap (λ (n : ℕ). get_raw_prices s n h) of in
          rw (get_raw_prices-put_at height p.asset_code (put_price p old) s h c) (
            ground (
              arith,
              e,
              price_of-put_price o p old,
              ap (λ (l : List PostedPrice). price_of o l) same,
            ))
    ]

registered_lem :
    (s : State) (code : Name) (o : Oracle) (u : Unit {0})
    → validate_post_price s code o ≡ ok u
    → (a : Asset) × (find_asset code s.assets ≡ some a) × (elem o a.oracles ≡ true)
unfolding validate_post_price get_oracle get_oracles
registered_lem s code o u h = elim (Option-cases (find_asset code s.assets)) [
  | inl e ↦ absurd (ground (arith, e, h))
  | inr (a, e) ↦ elim (Bool-cases (elem o a.oracles)) [
    | inl f ↦ (a, e, f)
    | inr f ↦ absurd (ground (arith, e, f, h))
  ]
]

-- The handler of a posted price, at the time and the height of a block: where it fails, nothing
-- changes; otherwise the sender is an oracle of the asset, the time of the price is accepted, and of
-- all the prices that are read, at any height and of any asset and oracle, only the sender's for
-- this asset at this height is another, namely the one that was posted.
pub post_price_cases :
    (block_time height : ℕ) (p : PostedPrice) (s : State)
    → ((is_ok (handle_msg_post_price block_time height p s).0 ≡ false)
        × ((handle_msg_post_price block_time height p s).1 ≡ s))
      ⊎ ((a : Asset) × (s' : State) × (handle_msg_post_price block_time height p s ≡ (ok tt, s'))
          × (find_asset p.asset_code s.assets ≡ some a)
          × (elem p.oracle_address a.oracles ≡ true)
          × (received_at_is_valid s block_time p.received_at ≡ true)
          × ((h : ℕ) (c : Name) (o : Oracle)
              → price_of o (get_raw_prices s' c h) ≡ (
                  if (height == h) && (p.asset_code == c) && (p.oracle_address == o)
                  then some p
                  else price_of o (get_raw_prices s c h))))
unfolding handle_msg_post_price get_oracle get_oracles set_price
post_price_cases block_time height p s =
    elim (Result-cases (validate_post_price s p.asset_code p.oracle_address)) [
      | inr (inl (x, e)) ↦ inl (rw (handle_msg_post_price, e) (refl, refl))
      | inr (inr e) ↦ inl (rw (handle_msg_post_price, e) (refl, refl))
      | inl (u, e) ↦
          let (a, f, g) = registered_lem s p.asset_code p.oracle_address u e in
          elim (Bool-cases (received_at_is_valid s block_time p.received_at)) [
            | inr t ↦ inl (ground (arith, e, f, g, t))
            | inl t ↦ inr (
              a,
              put_at height p.asset_code (put_price p (get_raw_prices s p.asset_code height)) s,
              ground (arith, e, f, g, t),
              f,
              g,
              t,
              λ h c o. read_back height p s h c o,
            )
          ]
    ]
