-- ===== src/Ccstorage/Balances.antt =====
-- x/ccstorage/internal/keeper/res_balance.go and x/ccstorage/internal/types/res_balance.go: the
-- balances of accounts as resources of the virtual machine.
-- A resource is kept as its value, which stands for its bytes.
use blockchain_relay_layer.Base.{
  ℕ, Bool, Option, none, some, List, [], ◌∷◌, map, ◌==◌, ◌&&◌, if◌then◌else◌, elem,
}
use blockchain_relay_layer.Base.Action.{Result, ok, err, panic, Action, and_then}
use blockchain_relay_layer.Sdk.Bank.{Coin}
use blockchain_relay_layer.Ccstorage.Types.{Name, Currency}

pub data Error : Type 0 where
  unmarshalable empty_denom : Error

-- `Balance`: the access path is the address and the path of the denom.
pub record Balance : Type 0 where
  pub denom : Name
  pub address : ℕ
  pub value : ℕ

-- The balance resources in the storage of the virtual machine, by address and denom.
abbrev pub Resources : Type 0
Resources = ℕ → Name → Option ℕ

-- `SetValue` and `DelValue` at one access path.
abbrev pub put_value : ℕ → Name → Option ℕ → Resources → Resources
put_value addr denom v b a d = if (addr == a) && (denom == d) then v else b a d

unfoldable pub new_balance : ℕ → Coin → Balance
new_balance addr coin = record { denom = coin.denom; address = addr; value = coin.amount }

unfoldable pub filled_balances : ℕ → List Coin → List Balance
filled_balances addr coins = map (new_balance addr) coins

abbrev pub denoms_of : List Coin → List Name
denoms_of coins = map (λ c. c.denom) coins

-- The registered currencies that are no coin of the account.
unfoldable pub empty_balances : ℕ → List Coin → List Currency → List Balance
unfolding new_balance
empty_balances addr coins [] = []
empty_balances addr coins (c ∷ cs) =
    let rest = empty_balances addr coins cs in
    if elem c.denom (denoms_of coins)
    then rest
    else new_balance addr (record { denom = c.denom; amount = 0 }) ∷ rest

-- `lcs.Marshal` may refuse a value.
module _ (marshals : ℕ → Bool) where
  unfoldable pub write_filled : List Balance → Action Resources Error (Unit {0})
  write_filled [] b = (ok tt, b)
  write_filled (x ∷ xs) b =
      let rest = write_filled xs (put_value x.address x.denom (some x.value) b) in
      if marshals x.value then rest else (err unmarshalable, b)

  unfoldable pub write_empty : List Balance → Action Resources Error (Unit {0})
  write_empty [] b = (ok tt, b)
  write_empty (x ∷ xs) b =
      let unchanged = write_empty xs b in
      let written = write_empty xs (put_value x.address x.denom (some x.value) b) in
      elim (b x.address x.denom) [
        | none ↦ unchanged
        | some old ↦ if marshals x.value then written else (err unmarshalable, b)
      ]

  -- `SetAccountBalanceResources`
  unfoldable pub set_account_balance_resources :
      List Currency → ℕ → List Coin → Action Resources Error (Unit {0})
  unfolding write_filled write_empty filled_balances empty_balances
  set_account_balance_resources registered addr coins b =
      and_then (write_filled (filled_balances addr coins) b)
        (λ _. write_empty (empty_balances addr coins registered))

-- `GetAccountBalanceResources`, with the check of `NewBalance`.
unfoldable pub get_account_balance_resources :
    List Currency → ℕ → Resources → Result Error (List Balance)
get_account_balance_resources [] addr b = ok []
get_account_balance_resources (c ∷ cs) addr b =
    let rest = get_account_balance_resources cs addr b in
    elim (b addr c.denom) [
      | none ↦ rest
      | some v ↦ if c.denom == 0 then err empty_denom else elim rest [
        | ok bs ↦ ok (record { denom = c.denom; address = addr; value = v } ∷ bs)
        | err e ↦ err e
        | panic ↦ panic
      ]
    ]

-- `RemoveAccountBalanceResources`
unfoldable pub remove_account_balance_resources : List Currency → ℕ → Resources → Resources
remove_account_balance_resources [] addr b = b
remove_account_balance_resources (c ∷ cs) addr b =
    remove_account_balance_resources cs addr (put_value addr c.denom none b)

-- `Balances.Coins`: zero values are left out.
unfoldable pub coins_of : List Balance → List Coin
coins_of [] = []
coins_of (x ∷ xs) =
    let rest = coins_of xs in
    if x.value == 0 then rest else record { denom = x.denom; amount = x.value } ∷ rest
