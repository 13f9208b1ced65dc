-- ===== src/Oracle/Blocks.antt =====
-- x/oracle/internal/keeper/price.go: the prices at the end of a block.
use blockchain_relay_layer.Base.{
  ℕ, ◌≡◌, refl, ap, ◌∙◌, Bool, true, false, Option, none, some, List, [], ◌∷◌, ◌==◌, ◌&&◌, ◌||◌,
  ltb, arith, inl, inr, Bool-cases, Option-cases,
}
use blockchain_relay_layer.Base.Map.{lookup, insert, lookup-insert}
use blockchain_relay_layer.Base.Action.{Result, ok, err, panic}
use blockchain_relay_layer.Ccstorage.Types.{Name}
use blockchain_relay_layer.Oracle.Types.{Error, Asset, PostedPrice, CurrentPrice, State}
use blockchain_relay_layer.Oracle.Keeper.{get_raw_prices}
use blockchain_relay_layer.Oracle.Prices.{
  SortBy, Medians, medians, Reversal, is_current, publish_price, set_current_price, set_prices_of,
  set_current_prices,
}
use blockchain_relay_layer.Oracle.Median.{SortLaws, medians_in_middle}

-- A price that is stored is not zero.
abbrev pub is_positive : Option CurrentPrice → Bool
is_positive none = true
is_positive (some p) = ltb 0 p.ask_price && ltb 0 p.bid_price

pub record HasPrices (s : State) : Type 0 where
  pub positive : (code : Name) → is_positive (lookup code s.current_prices) ≡ true

-- A code is that of a pair, which has a reversed one.
abbrev pub is_pair : Option Name → Bool
is_pair none = false
is_pair (some c) = true

abbrev pub all_pairs : Reversal → List Asset → Bool
all_pairs r [] = true
all_pairs r (a ∷ l) = is_pair (r.reverse_code a.asset_code) && all_pairs r l

module _ (sort_by : SortBy) (sort : SortLaws sort_by) (r : Reversal) (block_time height : ℕ) where
  medians_found : (l : List PostedPrice) → (m : Medians) × (medians sort_by block_time l ≡ some m)
  unfolding medians
  medians_found [] = (record { ask = 0; bid = 0; at = 0 }, refl)
  medians_found (p ∷ l) =
      let found = medians_in_middle sort_by sort block_time (p ∷ l) (omega arith) in
      (found.0, found.1)

  -- A call that succeeds and leaves prices that are not zero.
  abbrev Succeeds : Result Error (Unit {0}) × State → Type 0
  Succeeds out = (s' : State) × (out ≡ (ok tt, s')) × HasPrices s'

  publish_price-HasPrices :
      (code : Name) (m : Medians) (s : State)
      → HasPrices s
      → is_pair (r.reverse_code code) ≡ true
      → ((m.ask == 0) || (m.bid == 0)) ≡ false
      → Succeeds (publish_price r code m s)
  unfolding publish_price
  publish_price-HasPrices code m s v p z =
      let price : CurrentPrice = record {
        asset_code = code;
        ask_price = m.ask;
        bid_price = m.bid;
        received_at = m.at;
      } in
      elim (Option-cases (r.reverse_code code)) [
        | inl e ↦ absurd (ground (arith, e, p))
        | inr (c, e) ↦ (
          record s {
            current_prices = insert code price s.current_prices;
            vm_prices = insert c (r.reverse_price m.bid) (insert code m.ask s.vm_prices);
          },
          rw (publish_price, e) refl,
          record {
            positive =
                λ a. ground (arith, z, v.positive a, lookup-insert code a price s.current_prices);
          },
        )
      ]

  set_current_price-HasPrices :
      (code : Name) (s : State)
      → HasPrices s
      → is_pair (r.reverse_code code) ≡ true
      → Succeeds (set_current_price sort_by r block_time height code s)
  unfolding set_current_price
  set_current_price-HasPrices code s v p =
      let (m, e) = medians_found (get_raw_prices s code height) in
      elim (Bool-cases ((m.ask == 0) || (m.bid == 0))) [
        | inl z ↦ (s, rw (set_current_price, e, z) refl, v)
        | inr z ↦ elim (Bool-cases (is_current (lookup code s.current_prices) m)) [
          | inl c ↦ (s, rw (set_current_price, e, z, c) refl, v)
          | inr c ↦
              let (s', run, w) = publish_price-HasPrices code m s v p z in
              (s', rw (set_current_price, e, z, c) run, w)
        ]
      ]

  set_prices_of-HasPrices :
      (l : List Asset) (s : State)
      → HasPrices s
      → all_pairs r l ≡ true
      → Succeeds (set_prices_of sort_by r block_time height l s)
  unfolding set_prices_of
  set_prices_of-HasPrices [] s v p = (s, refl, v)
  set_prices_of-HasPrices (a ∷ l) s v p =
      let (t, run, w) = set_current_price-HasPrices a.asset_code s v (ground (arith, p)) in
      let (u, rest, x) = set_prices_of-HasPrices l t w (ground (arith, p)) in
      (u, next_round a l s t run ∙ rest, x)
    where
      next_round :
          (a : Asset) (l : List Asset) (s t : State)
          → set_current_price sort_by r block_time height a.asset_code s ≡ (ok tt, t)
          → set_prices_of sort_by r block_time height (a ∷ l) s
            ≡ set_prices_of sort_by r block_time height l t
      next_round a l s t e =
          ap
            (λ (o : Result Error (Unit {0}) × State).
              let out : Result Error (Unit {0}) × State = elim o.0 [
                | ok _ ↦ set_prices_of sort_by r block_time height l o.1
                | err x ↦ (err x, o.1)
                | panic ↦ (panic, o.1)
              ] in
              out)
            e

  -- Where every asset's code is that of a pair, the end of a block always finishes without an error
  -- or a panic, and leaves no current price of zero where there was none.
  pub set_current_prices_total :
      (s : State)
      → HasPrices s
      → all_pairs r s.assets ≡ true
      → (s' : State) × (set_current_prices sort_by r block_time height s ≡ (ok tt, s'))
        × HasPrices s'
  unfolding set_current_prices
  set_current_prices_total s v p = set_prices_of-HasPrices s.assets s v p
