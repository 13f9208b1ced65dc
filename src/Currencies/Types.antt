-- ===== src/Currencies/Types.antt =====
-- x/currencies/internal/types: issue.go and withdraw.go.
use blockchain_relay_layer.Base.{ℕ, Option}
use blockchain_relay_layer.Base.Map.{Map}
use blockchain_relay_layer.Sdk.Bank.{Coin}
use blockchain_relay_layer.Ccstorage.Types.{Name}
use blockchain_relay_layer.Ccstorage.Keeper as Ccstorage

abbrev pub Address : Type 0
Address = ℕ

pub data Error : Type 0 where
  account_banned wrong_issue_id wrong_withdraw_id wrong_denom internal insufficient_coins : Error

pub record Issue : Type 0 where
  pub coin : Coin
  pub payee : Address

-- The hash of the transaction is a name.
pub record Withdraw : Type 0 where
  pub id : ℕ
  pub coin : Coin
  pub spender : Address
  pub pegzone_spender : Name
  pub pegzone_chain_id : Name
  pub timestamp : ℕ
  pub tx_hash : Name

-- The issues and withdraws of the module, the currencies of x/ccstorage, the accounts of the bank,
-- and the totals of the supply module, by denom.
pub record State (B : Type 0) : Type 0 where
  pub issues : Map Issue
  pub withdraws : Map Withdraw
  pub last_withdraw_id : Option ℕ
  pub ccs : Ccstorage.State
  pub bank : B
  pub total : ℕ → ℕ
