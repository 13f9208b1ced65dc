-- ===== src/Ccstorage/Examples.antt =====
-- A genesis state of one currency.
use blockchain_relay_layer.Base.{
  none, some, elem, ◌==◌, if◌then◌else◌, ℕ, ◌≡◌, refl, Bool, true, List, [], ◌∷◌, map,
}
use blockchain_relay_layer.Base.Action.{ok}
use blockchain_relay_layer.Base.Int.{pos}
use blockchain_relay_layer.Sdk.Bank.{Coin}
use blockchain_relay_layer.Ccstorage.Balances.{
  Resources, Balance, set_account_balance_resources, get_account_balance_resources, coins_of,
}
use blockchain_relay_layer.Ccstorage.Synced.{amount_of, currency_names, get-set_balances}
use blockchain_relay_layer.Ccstorage.Types.{Currency, Name, CurrencyParams, ResCurrencyInfo}
use blockchain_relay_layer.Ccstorage.Keeper.{State, init_genesis, export_genesis, validate_genesis}
use blockchain_relay_layer.Ccstorage.Mirror.{Mirrors}
use blockchain_relay_layer.Ccstorage.Chain.{no_currencies, without_contract, export-init_genesis}

abbrev accepts : Name → Bool
accepts n = true

abbrev marshals : ResCurrencyInfo → Bool
marshals r = true

abbrev one_currency : List CurrencyParams
one_currency = record { denom = 1; decimals = 8; contract_address = 77 } ∷ []

one_currency_valid : validate_genesis accepts [] one_currency ≡ true
unfolding validate_genesis
one_currency_valid = refl

export-init_genesis_example :
    (s : State) × (init_genesis marshals one_currency no_currencies ≡ (ok tt, s))
    × Mirrors s
    × (export_genesis s ≡ map without_contract one_currency)
export-init_genesis_example =
    export-init_genesis marshals (λ p. refl) accepts one_currency one_currency_valid (tt, tt)

abbrev marshals_amount : ℕ → Bool
marshals_amount n = true

abbrev two_registered : List Currency
two_registered =
    record { denom = 1; decimals = 8; supply = pos 50; contract_address = 0 }
    ∷ record { denom = 2; decimals = 18; supply = pos 0; contract_address = 0 }
    ∷ []

-- The account had seven of the second currency and has five of the first now.
abbrev seven_before : Resources
seven_before a d = if d == 2 then some 7 else none

abbrev five_now : List Coin
five_now = record { denom = 1; amount = 5 } ∷ []

get-set_balances_example :
    (b' : Resources) × (bs : List Balance) × (set_account_balance_resources marshals_amount
        two_registered 4 five_now seven_before
      ≡ (ok tt, b'))
    × (get_account_balance_resources two_registered 4 b' ≡ ok bs)
    × ((d : Name)
        → amount_of d (coins_of bs)
          ≡ (if elem d (currency_names two_registered) then amount_of d five_now else 0))
get-set_balances_example =
    get-set_balances marshals_amount two_registered 4 five_now seven_before refl (refl, tt)
      (refl, tt) refl
