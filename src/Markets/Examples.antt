-- ===== src/Markets/Examples.antt =====
-- Two currencies, and a market of them.
use blockchain_relay_layer.Base.{ℕ, ◌≡◌, refl, Bool, true, false, some, [], ◌∷◌, ◌&&◌, ◌⊎◌}
use blockchain_relay_layer.Base.Int.{pos}
use blockchain_relay_layer.Base.Map.{lookup, has, Ascending}
use blockchain_relay_layer.Base.Action.{ok, err}
use blockchain_relay_layer.Ccstorage.Types.{Name, Currency}
use blockchain_relay_layer.Ccstorage.Keeper as Currencies
use blockchain_relay_layer.Markets.Types.{market_exists, wrong_asset_denom, GenesisState}
use blockchain_relay_layer.Markets.Keeper.{State, add, is_listed, get_list, key_before}
use blockchain_relay_layer.Markets.Listed.{IsValid, Added, add-IsValid, add_cases}
use blockchain_relay_layer.Markets.Genesis.{
  no_markets, validate, registered, init_genesis, export_genesis, export-init_markets,
}

abbrev currency : ℕ → Currency
currency denom = record { denom = denom; decimals = 0; supply = pos 1_000; contract_address = 0 }

abbrev currencies : Currencies.State
currencies = record { currencies = (1, currency 1) ∷ (2, currency 2) ∷ []; infos = [] }

no_markets-IsValid : IsValid currencies no_markets
unfolding lookup
no_markets-IsValid = record { sound = λ id. refl; unpaired = tt }

add-IsValid_example : IsValid currencies (add currencies 1 2 no_markets).1
add-IsValid_example = add-IsValid currencies 1 2 no_markets no_markets-IsValid

add_cases_example :
    ((is_listed 1 2 (get_list no_markets) ≡ true)
      × (add currencies 1 2 no_markets ≡ (err market_exists, no_markets)))
    ⊎ (((is_listed 1 2 (get_list no_markets) ≡ false)
          × (has 1 currencies.currencies && has 2 currencies.currencies ≡ false)
          × (add currencies 1 2 no_markets ≡ (err wrong_asset_denom, no_markets)))
        ⊎ ((is_listed 1 2 (get_list no_markets) ≡ false) × Added currencies 1 2 no_markets))
add_cases_example = add_cases currencies 1 2 no_markets no_markets-IsValid

abbrev accepts : Name → Bool
accepts n = true

abbrev two_markets : GenesisState
two_markets = record {
  markets =
      record { id = 10; base_asset_denom = 1; quote_asset_denom = 2 }
      ∷ record { id = 2; base_asset_denom = 2; quote_asset_denom = 1 }
      ∷ [];
  last_market_id = some 10;
}

two_markets_valid : validate accepts two_markets ≡ true
unfolding validate
two_markets_valid = refl

two_markets_registered : registered currencies two_markets.markets ≡ true
unfolding lookup
two_markets_registered = refl

-- The text 10 is before the text 2.
two_markets_ascend : Ascending key_before (10 ∷ 2 ∷ [])
unfolding key_before
two_markets_ascend = (((refl, refl), tt), (tt, tt))

export-init_markets_example :
    (s : State) × (init_genesis currencies two_markets no_markets ≡ (ok tt, s))
    × (export_genesis s ≡ two_markets)
export-init_markets_example =
    export-init_markets currencies accepts two_markets two_markets_valid two_markets_registered
      two_markets_ascend
