-- ===== src/Markets/Genesis.antt =====
-- x/markets/internal/keeper/genesis.go, and the validation of x/markets/internal/types/genesis.go.
use blockchain_relay_layer.Base.{
  Option-cases, ℕ, ◌≡◌, refl, ap, ◌∙◌, Bool, true, false, Option, none, some, List, [], ◌∷◌, map,
  ◌==◌, ltb, ◌&&◌, if◌then◌else◌, elem, arith, inl, inr,
}
use blockchain_relay_layer.Base.Map.{has, values, insert_all_by, values-insert_all, Ascending}
use blockchain_relay_layer.Base.Action.{ok, panic, Action}
use blockchain_relay_layer.Ccstorage.Types.{Name}
use blockchain_relay_layer.Ccstorage.Keeper as Currencies
use blockchain_relay_layer.Markets.Types.{Error, Market, GenesisState}
use blockchain_relay_layer.Markets.Keeper.{State, get_list, set, key_before}

-- The loop of `Validate`: the ids met so far, and the greatest of them; `denom_filter` is the check
-- of a denom's characters.
unfoldable pub validate_markets : (Name → Bool) → List ℕ → ℕ → List Market → Option ℕ
validate_markets denom_filter seen max_id [] = some max_id
validate_markets denom_filter seen max_id (m ∷ ms) =
    let rest =
      validate_markets denom_filter (m.id ∷ seen) (if ltb max_id m.id then m.id else max_id) ms in
    if denom_filter m.base_asset_denom && denom_filter m.quote_asset_denom
    then if elem m.id seen then none else rest
    else none

-- The comparison of the last id with the markets.
abbrev pub last_id_matches : Option ℕ → List Market → ℕ → Bool
last_id_matches none [] max_id = true
last_id_matches none (m ∷ ms) max_id = false
last_id_matches (some last) [] max_id = false
last_id_matches (some last) (m ∷ ms) max_id = last == max_id

-- `GenesisState.Validate`
unfoldable pub validate : (Name → Bool) → GenesisState → Bool
unfolding validate_markets
validate denom_filter g = elim (validate_markets denom_filter [] 0 g.markets) [
  | none ↦ false
  | some max_id ↦ last_id_matches g.last_market_id g.markets max_id
]

-- The loop of `InitGenesis`.
unfoldable pub set_markets : Currencies.State → List Market → Action State Error (Unit {0})
unfolding Currencies.has_currency
set_markets c [] s = (ok tt, s)
set_markets c (m ∷ ms) s =
    let rest = set_markets c ms (set m s) in
    if Currencies.has_currency c m.base_asset_denom && Currencies.has_currency c m.quote_asset_denom
    then rest
    else (panic, s)

-- The start of `InitGenesis`.
unfoldable pub set_last_id : Option ℕ → State → State
set_last_id none s = s
set_last_id (some last) s = record s { last_market_id = some last }

-- `InitGenesis`
unfoldable pub init_genesis : Currencies.State → GenesisState → Action State Error (Unit {0})
unfolding set_markets set_last_id
init_genesis c g s = set_markets c g.markets (set_last_id g.last_market_id s)

-- `ExportGenesis`
unfoldable pub export_genesis : State → GenesisState
export_genesis s = record { markets = get_list s; last_market_id = s.last_market_id }

abbrev pub no_markets : State
no_markets = record { markets = []; last_market_id = none }

-- The currencies of a market are registered.
abbrev pub registered : Currencies.State → List Market → Bool
registered c [] = true
registered c (m ∷ ms) =
    has m.base_asset_denom c.currencies && has m.quote_asset_denom c.currencies && registered c ms

set_last_id_lem :
    (last : Option ℕ) → set_last_id last no_markets ≡ record { markets = []; last_market_id = last }
unfolding set_last_id
set_last_id_lem none = refl
set_last_id_lem (some last) = refl

module _ (c : Currencies.State) (denom_filter : Name → Bool) where
  -- The markets are stored one after the other.
  set_markets_lem :
      (seen : List ℕ) (max_id top : ℕ) (ms : List Market) (s : State)
      → validate_markets denom_filter seen max_id ms ≡ some top
      → registered c ms ≡ true
      → (s' : State) × (set_markets c ms s ≡ (ok tt, s'))
        × (s'.markets ≡ insert_all_by key_before (λ (m : Market). m.id) ms s.markets)
        × (s'.last_market_id ≡ s.last_market_id)
  unfolding validate_markets set_markets
  set_markets_lem seen max_id top [] s h r = (s, refl, refl, refl)
  set_markets_lem seen max_id top (m ∷ ms) s h r =
      let (s', run, listed, last) =
        set_markets_lem (m.id ∷ seen) (if ltb max_id m.id then m.id else max_id) top ms (set m s)
          (rest_valid h) (rest_registered r) in
      (s', ground (arith, run, r), listed, last)
    where
      rest_valid :
          validate_markets denom_filter seen max_id (m ∷ ms) ≡ some top
          → validate_markets denom_filter
              (m.id ∷ seen)
              (if ltb max_id m.id then m.id else max_id)
              ms
            ≡ some top
      rest_valid h = ground arith

      rest_registered : registered c (m ∷ ms) ≡ true → registered c ms ≡ true
      rest_registered r = ground arith

  valid_cases :
      (g : GenesisState)
      → validate denom_filter g ≡ true
      → (top : ℕ) × (validate_markets denom_filter [] 0 g.markets ≡ some top)
  unfolding validate
  valid_cases g h = elim (Option-cases (validate_markets denom_filter [] 0 g.markets)) [
    | inl e ↦ absurd (ground (arith, e))
    | inr found ↦ found
  ]

  -- A valid genesis state, of currencies that are registered, whose markets stand in the order of
  -- their keys, as an export writes them, is taken without a panic, and an export gives the same
  -- state again.
  pub export-init_markets :
      (g : GenesisState)
      → validate denom_filter g ≡ true
      → registered c g.markets ≡ true
      → Ascending key_before (map (λ m. m.id) g.markets)
      → (s : State) × (init_genesis c g no_markets ≡ (ok tt, s)) × (export_genesis s ≡ g)
  unfolding init_genesis export_genesis
  export-init_markets g h r ascending =
      let start : State = record { markets = []; last_market_id = g.last_market_id } in
      let (top, valid) = valid_cases g h in
      let (s, run, listed, last) = set_markets_lem [] 0 top g.markets start valid r in
      let same : get_list s ≡ g.markets =
        ap values listed
        ∙ values-insert_all key_before (λ (m : Market). m.id) g.markets ascending in
      (s, rw (init_genesis, set_last_id_lem g.last_market_id) run, rw (same, last) refl)
