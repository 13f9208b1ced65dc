-- ===== src/Vmauth/Keeper.antt =====
-- x/vmauth/internal/keeper/keeper.go. The account keeper of the Cosmos SDK, which it wraps, is not
-- part of the repository and is a parameter. An account is read for its address and its coins only;
-- `SetCoins` of the SDK's accounts returns no error.
use blockchain_relay_layer.Base.{ℕ, Bool, Option, none, some, List, [], ◌∷◌, if◌then◌else◌}
use blockchain_relay_layer.Base.Action.{Result, ok, err, panic, Action, and_then}
use blockchain_relay_layer.Sdk.Bank.{Coin}
use blockchain_relay_layer.Ccstorage.Types.{ResCurrencyInfo, Currency}
use blockchain_relay_layer.Ccstorage.Keeper.{
  State as CcState, Error as CcError, get_currencies, increase_currency_supply,
}
use blockchain_relay_layer.Ccstorage.Balances.{
  Resources, set_account_balance_resources, get_account_balance_resources,
  remove_account_balance_resources, coins_of,
}

pub record AccountOps (K : Type 0) : Type 0 where
  -- `GetAccount`, `SetAccount`, `RemoveAccount`
  pub find : ℕ → K → Option (List Coin)
  pub put : ℕ → List Coin → K → K
  pub remove : ℕ → K → K
  -- `NewAccountWithAddress`: the next account number is taken
  pub number : K → K
  -- `Coins.IsEqual`; `none` is its panic, on coins of different denoms
  pub coins_equal : List Coin → List Coin → Option Bool

pub data Error : Type 0 where
  unknown_address : Error

pub record State (K : Type 0) : Type 0 where
  pub ccs : CcState
  pub resources : Resources
  pub accounts : K

-- What stands between two calls where an error of the first is a panic.
abbrev pub or_panic : {S E F A B : Type 0} → Result E A × S → (S → Result F B × S) → Result F B × S
or_panic (ok a, s) k = k s
or_panic (err e, s) k = (panic, s)
or_panic (panic, s) k = (panic, s)

-- The outcome of a method on a part of the state.
abbrev pub on_part : {S T E A : Type 0} → (T → S) → Result E A × T → Result E A × S
on_part f (r, t) = (r, f t)

abbrev pub registered : {K : Type 0} → State K → List Currency
registered s = get_currencies s.ccs

module _ {K : Type 0} (k : AccountOps K) (marshals_info : ResCurrencyInfo → Bool)
    (marshals : ℕ → Bool) where
  -- The supplies of the coins of a new account.
  unfoldable pub increase_supplies : List Coin → Action CcState CcError (Unit {0})
  increase_supplies [] c = (ok tt, c)
  increase_supplies (x ∷ xs) c =
      and_then (increase_currency_supply marshals_info x c) (λ _. increase_supplies xs)

  -- The balances and the account itself.
  unfoldable pub store_account : ℕ → List Coin → Action (State K) Error (Unit {0})
  store_account addr coins s =
      or_panic
        (on_part (λ b. record s { resources = b })
          (set_account_balance_resources marshals (registered s) addr coins s.resources))
        λ s'. (ok tt, record s' { accounts = k.put addr coins s'.accounts })

  -- `SetAccount`
  unfoldable pub set_account : ℕ → List Coin → Action (State K) Error (Unit {0})
  unfolding increase_supplies store_account
  set_account addr coins s = elim (k.find addr s.accounts) [
    | some old ↦ store_account addr coins s
    | none ↦
        or_panic (on_part (λ c. record s { ccs = c }) (increase_supplies coins s.ccs))
          (store_account addr coins)
  ]

  -- The coins of an account become what the virtual machine holds.
  unfoldable pub update_account : ℕ → List Coin → Action (State K) Error (Option (List Coin))
  unfolding set_account
  update_account addr real s = or_panic (set_account addr real s) λ s'. (ok (some real), s')

  -- Where the virtual machine holds balances of the address.
  unfoldable pub reconcile :
      ℕ → List Coin → Option (List Coin) → Action (State K) Error (Option (List Coin))
  unfolding update_account
  reconcile addr real (some coins) s =
      let updated = update_account addr real s in
      elim (k.coins_equal real coins) [
        | none ↦ (panic, s)
        | some same ↦ if same then (ok (some coins), s) else updated
      ]
  reconcile addr real none s =
      update_account addr real (record s { accounts = k.number s.accounts })

  -- `GetAccount`
  unfoldable pub get_account : ℕ → Action (State K) Error (Option (List Coin))
  unfolding reconcile
  get_account addr s = elim (get_account_balance_resources (registered s) addr s.resources) [
    | err e ↦ (panic, s)
    | panic ↦ (panic, s)
    | ok [] ↦ (ok (k.find addr s.accounts), s)
    | ok (x ∷ xs) ↦ reconcile addr (coins_of (x ∷ xs)) (k.find addr s.accounts) s
  ]

  -- `RemoveAccount`
  unfoldable pub remove_account : ℕ → State K → State K
  remove_account addr s = record s {
    accounts = k.remove addr s.accounts;
    resources = remove_account_balance_resources (registered s) addr s.resources;
  }

  -- `GetSignerAcc`
  unfoldable pub get_signer_acc : ℕ → Action (State K) Error (List Coin)
  unfolding get_account
  get_signer_acc addr s =
      and_then (get_account addr s)
        λ a s'. elim a [ none ↦ (err unknown_address, s') | some coins ↦ (ok coins, s') ]
