-- ===== src/Ccstorage/Keeper.antt =====
-- x/ccstorage/internal/keeper: currency.go, res_currency_info.go and genesis.go, and the validation
-- of x/ccstorage/internal/types/genesis.go.
use blockchain_relay_layer.Base.{
  Bool, true, false, none, some, List, [], ◌∷◌, map, if◌then◌else◌, elem,
}
use blockchain_relay_layer.Base.Map.{Map, values, lookup, has, insert}
use blockchain_relay_layer.Base.Int.{pos, plus, minus}
use blockchain_relay_layer.Base.Action.{Result, ok, err, panic, Action}
use blockchain_relay_layer.Sdk.Bank.{Coin}
use blockchain_relay_layer.Ccstorage.Types.{
  Name, Currency, CurrencyParams, new_currency, ResCurrencyInfo, std_currency_info,
}

pub data Error : Type 0 where
  wrong_denom wrong_params : Error

-- The keys `currency:` of the store, and the resources of the standard library in the storage of
-- the virtual machine, by denom, in the order of the denoms; the number of a denom is its place in the order
-- of the texts.
pub record State : Type 0 where
  pub currencies : Map Currency
  pub infos : Map ResCurrencyInfo

unfoldable pub has_currency : State → Name → Bool
has_currency s denom = has denom s.currencies

unfoldable pub get_currency : State → Name → Result Error Currency
get_currency s denom = elim (lookup denom s.currencies) [ none ↦ err wrong_denom | some c ↦ ok c ]

unfoldable pub get_currencies : State → List Currency
get_currencies s = values s.currencies

abbrev pub store_currency : Currency → State → State
store_currency c s = record s { currencies = insert c.denom c s.currencies }

-- `lcs.Marshal` may refuse a resource.
module _ (marshals : ResCurrencyInfo → Bool) where
  -- `storeResStdCurrencyInfo`
  unfoldable pub store_res_std_currency_info : Currency → Action State Error (Unit {0})
  store_res_std_currency_info c s =
      if marshals (std_currency_info c)
      then (ok tt, record s { infos = insert c.denom (std_currency_info c) s.infos })
      else (panic, s)

  -- `CreateCurrency`
  unfoldable pub create_currency : CurrencyParams → Action State Error (Unit {0})
  unfolding store_res_std_currency_info has_currency
  create_currency p s =
      let c = new_currency p (pos 0) in
      if has_currency s p.denom
      then (err wrong_denom, s)
      else store_res_std_currency_info c (store_currency c s)

  -- The end of both changes of a supply.
  abbrev update_currency : Currency → Action State Error (Unit {0})
  update_currency c s = store_res_std_currency_info c (store_currency c s)

  -- `IncreaseCurrencySupply`
  unfoldable pub increase_currency_supply : Coin → Action State Error (Unit {0})
  unfolding get_currency store_res_std_currency_info
  increase_currency_supply coin s = elim (get_currency s coin.denom) [
    | err e ↦ (err e, s)
    | panic ↦ (panic, s)
    | ok c ↦ update_currency (record c { supply = plus c.supply coin.amount }) s
  ]

  -- `DecreaseCurrencySupply`
  unfoldable pub decrease_currency_supply : Coin → Action State Error (Unit {0})
  unfolding get_currency store_res_std_currency_info
  decrease_currency_supply coin s = elim (get_currency s coin.denom) [
    | err e ↦ (err e, s)
    | panic ↦ (panic, s)
    | ok c ↦ update_currency (record c { supply = minus c.supply coin.amount }) s
  ]

  -- `InitGenesis`
  unfoldable pub init_genesis : List CurrencyParams → Action State Error (Unit {0})
  init_genesis [] s = (ok tt, s)
  init_genesis (p ∷ ps) s =
      let (r, s') = create_currency p s in
      elim r [ ok _ ↦ init_genesis ps s' | err _ ↦ (panic, s') | panic ↦ (panic, s') ]

-- `ExportGenesis`: the contract address is not copied.
unfoldable pub export_genesis : State → List CurrencyParams
unfolding get_currencies
export_genesis s =
    map (λ c. record { denom = c.denom; decimals = c.decimals; contract_address = 0 })
      (get_currencies s)

-- `GenesisState.Validate`: `seen` is the set of denoms met so far, `denom_filter` the check of a
-- denom's characters.
unfoldable pub validate_genesis : (Name → Bool) → List Name → List CurrencyParams → Bool
validate_genesis denom_filter seen [] = true
validate_genesis denom_filter seen (p ∷ ps) =
    let rest = validate_genesis denom_filter (p.denom ∷ seen) ps in
    if elem p.denom seen then false else if denom_filter p.denom then rest else false
