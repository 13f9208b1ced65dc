-- ===== src/Currencies/Keeper.antt =====
-- x/currencies/internal/keeper: issue.go, withdraw.go and invariants.go.
use blockchain_relay_layer.Base.{
  ℕ, suc, ◌+◌, ◌-◌, Bool, true, false, none, some, List, [], ◌∷◌, ltb, not, if◌then◌else◌,
}
use blockchain_relay_layer.Base.Map.{lookup, has, insert}
use blockchain_relay_layer.Base.Int.{pos, negsuc}
use blockchain_relay_layer.Base.Action.{Result, ok, err, panic, Action}
use blockchain_relay_layer.Sdk.Bank.{Coin, BankOps, amount_in}
use blockchain_relay_layer.Ccstorage.Types.{Name, Currency, ResCurrencyInfo}
use blockchain_relay_layer.Ccstorage.Keeper as Ccstorage
use blockchain_relay_layer.Currencies.Types.{
  Error, account_banned, wrong_issue_id, wrong_withdraw_id, wrong_denom, internal,
  insufficient_coins, Address, Issue, Withdraw, State,
}

module _ {B : Type 0} where
  -- `GetIssue`
  unfoldable pub get_issue : State B → Name → Result Error Issue
  get_issue s id = elim (lookup id s.issues) [ none ↦ err wrong_issue_id | some i ↦ ok i ]

  -- `GetWithdraw`
  unfoldable pub get_withdraw : State B → ℕ → Result Error Withdraw
  get_withdraw s id = elim (lookup id s.withdraws) [ none ↦ err wrong_withdraw_id | some w ↦ ok w ]

  -- `getNextWithdrawID`
  unfoldable pub get_next_withdraw_id : State B → ℕ
  get_next_withdraw_id s = elim s.last_withdraw_id [ none ↦ 0 | some last ↦ suc last ]

  -- `NewWithdraw`, under the next id, in a block of the time, by a transaction with the hash.
  abbrev pub new_withdraw : ℕ → Name → Coin → Address → Name → Name → State B → Withdraw
  new_withdraw timestamp tx_hash coin spender recipient chain_id s = record {
    id = get_next_withdraw_id s;
    coin = coin;
    spender = spender;
    pegzone_spender = recipient;
    pegzone_chain_id = chain_id;
    timestamp = timestamp;
    tx_hash = tx_hash;
  }

-- The bank, the accounts that are banned from issues, and the resources that the virtual machine
-- takes, are not part of the module.
module _ {B : Type 0} (k : BankOps B) (banned : Address → Bool)
    (marshals : ResCurrencyInfo → Bool) where
  -- The end of `IssueCurrency`, after the account is paid.
  unfoldable pub increase_supply : Coin → Action (State B) Error (Unit {0})
  increase_supply coin s =
      let (r, ccs) = Ccstorage.increase_currency_supply marshals coin s.ccs in
      elim r [
        | err _ ↦ (err wrong_denom, record s { ccs = ccs })
        | panic ↦ (err internal, record s { ccs = ccs })
        | ok _ ↦ (ok tt, record s { ccs = ccs; total = λ n. s.total n + amount_in coin n })
      ]

  -- `AddCoins` stores the account by x/vmauth (SetAccount), which increases the supply of the coins of
  -- an account that was not there.
  unfoldable pub account_supply : Bool → Coin → Action Ccstorage.State Ccstorage.Error (Unit {0})
  account_supply known coin ccs =
      let increased = Ccstorage.increase_currency_supply marshals coin ccs in
      if known then (ok tt, ccs) else increased

  -- What follows, for the account's new balance; an error there is a panic.
  abbrev pub paid_issue :
      Coin
      → B
      → State B
      → Result Ccstorage.Error (Unit {0}) × Ccstorage.State
      → Result Error (Unit {0}) × State B
  paid_issue coin b s (ok _, ccs) = increase_supply coin (record s { ccs = ccs; bank = b })
  paid_issue coin b s (err _, ccs) = (err internal, record s { ccs = ccs })
  paid_issue coin b s (panic, ccs) = (err internal, record s { ccs = ccs })

  -- The payment and what follows it.
  unfoldable pub pay_issue : Coin → Address → Action (State B) Error (Unit {0})
  unfolding increase_supply account_supply
  pay_issue coin payee s = elim (k.add_coin payee coin s.bank) [
    | none ↦ (err internal, s)
    | some b ↦ paid_issue coin b s (account_supply (k.has_account payee s.bank) coin s.ccs)
  ]

  -- `IssueCurrency`: a panic is recovered, and is an error then.
  unfoldable pub issue_currency : Name → Coin → Address → Action (State B) Error (Unit {0})
  unfolding pay_issue Ccstorage.get_currency
  issue_currency id coin payee s =
      let stored = record s {
        issues = insert id (record { coin = coin; payee = payee }) s.issues;
      } in
      if banned payee
      then (err account_banned, s)
      else if has id s.issues
      then (err wrong_issue_id, s)
      else elim (Ccstorage.get_currency s.ccs coin.denom) [
        | err _ ↦ (err wrong_denom, s)
        | panic ↦ (err internal, s)
        | ok _ ↦ pay_issue coin payee stored
      ]

  -- The end of `WithdrawCurrency`, after the account has paid; a negative total is a panic, which is
  -- recovered.
  unfoldable pub decrease_supply : Coin → Action (State B) Error (Unit {0})
  decrease_supply coin s =
      let (r, ccs) = Ccstorage.decrease_currency_supply marshals coin s.ccs in
      elim r [
        | err _ ↦ (err wrong_denom, record s { ccs = ccs })
        | panic ↦ (err internal, record s { ccs = ccs })
        | ok _ ↦
            if ltb (s.total coin.denom) coin.amount
            then (err internal, record s { ccs = ccs })
            else (ok tt, record s { ccs = ccs; total = λ n. s.total n - amount_in coin n })
      ]

  -- `WithdrawCurrency`
  unfoldable pub withdraw_currency :
      ℕ → Name → Coin → Address → Name → Name → Action (State B) Error (Unit {0})
  unfolding decrease_supply Ccstorage.get_currency
  withdraw_currency timestamp tx_hash coin spender recipient chain_id s =
      let w = new_withdraw timestamp tx_hash coin spender recipient chain_id s in
      let stored = record s {
        withdraws = insert w.id w s.withdraws;
        last_withdraw_id = some w.id;
      } in
      elim (Ccstorage.get_currency s.ccs coin.denom) [
        | err _ ↦ (err wrong_denom, s)
        | panic ↦ (err internal, s)
        | ok _ ↦ elim (k.subtract_coin spender coin s.bank) [
          | none ↦ (err insufficient_coins, stored)
          | some b ↦ decrease_supply coin (record stored { bank = b })
        ]
      ]

-- `GetSupplyCoin` of a currency panics on a negative supply.
abbrev pub negative_supply : List Currency → Bool
negative_supply [] = false
negative_supply (c ∷ cs) = elim c.supply [ pos n ↦ negative_supply cs | negsuc n ↦ true ]

-- The verdict of `TotalSupply`, for the SDK's sums of coins and their comparison: both sides of the
-- comparison are the currencies' coins.
unfoldable pub total_supply_broken :
    {B C : Type 0} → (List Currency → C) → (C → C → Bool) → State B → Result Error Bool
unfolding Ccstorage.get_currencies
total_supply_broken sum is_equal s =
    let currencies_coins = sum (Ccstorage.get_currencies s.ccs) in
    if negative_supply (Ccstorage.get_currencies s.ccs)
    then panic
    else ok (not (is_equal currencies_coins currencies_coins))
