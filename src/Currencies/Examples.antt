-- ===== src/Currencies/Examples.antt =====
-- One currency, an account with coins of it, and an issue and a withdraw.
use blockchain_relay_layer.Base.{
  not, ℕ, suc, ◌+◌, ◌≡◌, refl, Bool, true, false, none, some, [], ◌∷◌, arith, Bool-cases, inl, inr,
  ◌==◌,
}
use blockchain_relay_layer.Base.Int.{pos, plus, minus}
use blockchain_relay_layer.Base.Map.{insert_by, lookup, has}
use blockchain_relay_layer.Base.Action.{ok, is_ok}
use blockchain_relay_layer.Sdk.Examples.{Ledger, ledger, ledger_laws}
use blockchain_relay_layer.Sdk.Bank.{Coin, amount_at, amount_in}
use blockchain_relay_layer.Ccstorage.Types.{Currency, ResCurrencyInfo, std_currency_info}
use blockchain_relay_layer.Ccstorage.Keeper as Ccstorage
use blockchain_relay_layer.Ccstorage.Mirror.{Mirrors}
use blockchain_relay_layer.Currencies.Types.{Address, State}
use blockchain_relay_layer.Currencies.Keeper.{
  get_next_withdraw_id, new_withdraw, issue_currency, withdraw_currency,
}
use blockchain_relay_layer.Currencies.Supply.{SupplyIs, IsBalanced, issue_once, withdraw_lem}

abbrev coins : Currency
coins = record { denom = 1; decimals = 0; supply = pos 100; contract_address = 0 }

abbrev store : Ccstorage.State
store = record { currencies = (1, coins) ∷ []; infos = (1, std_currency_info coins) ∷ [] }

abbrev more_coins : Currency
more_coins = record coins { supply = pos 105 }

abbrev more_store : Ccstorage.State
more_store = record {
  currencies = (1, more_coins) ∷ [];
  infos = (1, std_currency_info more_coins) ∷ [];
}

abbrev accepts : ResCurrencyInfo → Bool
accepts r = true

abbrev nobody : Address → Bool
nobody a = false

abbrev five : Coin
five = record { denom = 1; amount = 5 }

store-Mirrors : Mirrors store
unfolding lookup
store-Mirrors = record { keyed = λ k. ground arith; same = λ k. ground arith }

increased : Ccstorage.increase_currency_supply accepts five store ≡ (ok tt, more_store)
unfolding Ccstorage.increase_currency_supply lookup insert_by plus
increased = refl

decreased : Ccstorage.decrease_currency_supply accepts five more_store ≡ (ok tt, store)
unfolding Ccstorage.decrease_currency_supply lookup insert_by minus
decreased = refl

abbrev start : State Ledger
start = record {
  issues = [];
  withdraws = [];
  last_withdraw_id = none;
  ccs = store;
  bank = record { balances = λ a n. 50; locked = λ n. 0; known = λ a. not (a == 8) };
  total = λ n. 100;
}

start-IsBalanced : IsBalanced start
unfolding lookup
start-IsBalanced = record { supplies = λ n. supply n; mirrors = store-Mirrors }
  where
    supply : (n : ℕ) → SupplyIs (lookup n store.currencies) 100
    supply n = elim (Bool-cases (1 == n)) [ inl e ↦ rw (e) refl | inr e ↦ rw (e) tt ]

abbrev issued_state : State Ledger
issued_state = (issue_currency ledger nobody accepts 9 five 7 start).1

issuing : issue_currency ledger nobody accepts 9 five 7 start ≡ (ok tt, issued_state)
unfolding issue_currency Ccstorage.increase_currency_supply lookup insert_by plus
issuing = refl

issue_once_example :
    (has 9 start.issues ≡ false)
    × ((a n : ℕ)
        → ledger.balance_of a n issued_state.bank
          ≡ ledger.balance_of a n start.bank + amount_at 7 five a n)
    × ((n : ℕ) → issued_state.total n ≡ start.total n + amount_in five n)
    × IsBalanced issued_state
    × (is_ok (issue_currency ledger nobody accepts 9 five 8 issued_state).0 ≡ false)
    × ((issue_currency ledger nobody accepts 9 five 8 issued_state).1 ≡ issued_state)
issue_once_example =
    issue_once ledger ledger_laws nobody accepts 9 five five 7 8 start issued_state start-IsBalanced
      refl issuing

abbrev withdrawn_state : State Ledger
withdrawn_state = (withdraw_currency ledger nobody accepts 60 4 five 7 5 6 start).1

withdrawing :
    withdraw_currency ledger nobody accepts 60 4 five 7 5 6 start ≡ (ok tt, withdrawn_state)
unfolding withdraw_currency Ccstorage.decrease_currency_supply lookup insert_by minus
withdrawing = refl

withdraw_lem_example :
    (lookup (get_next_withdraw_id start) withdrawn_state.withdraws
      ≡ some (new_withdraw 60 4 five 7 5 6 start))
    × (get_next_withdraw_id withdrawn_state ≡ suc (get_next_withdraw_id start))
    × ((a n : ℕ)
        → ledger.balance_of a n withdrawn_state.bank + amount_at 7 five a n
          ≡ ledger.balance_of a n start.bank)
    × ((n : ℕ) → withdrawn_state.total n + amount_in five n ≡ start.total n)
    × IsBalanced withdrawn_state
withdraw_lem_example =
    withdraw_lem ledger ledger_laws nobody accepts 60 4 five 7 5 6 start withdrawn_state
      start-IsBalanced withdrawing

-- Account 8 does not exist before the issue.
abbrev twice_state : State Ledger
twice_state = (issue_currency ledger nobody accepts 9 five 8 start).1
