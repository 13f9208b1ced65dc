-- ===== src/Orders/Examples.antt =====
-- A market of two currencies, an account with coins of both, and its orders.
use blockchain_relay_layer.Base.{◌-◌, ℕ, ◌+◌, ◌*◌, ◌≡◌, refl, true, none, some, [], ◌∷◌}
use blockchain_relay_layer.Base.Int.{pos}
use blockchain_relay_layer.Base.Map.{insert_by, lookup}
use blockchain_relay_layer.Base.Action.{ok, err, panic}
use blockchain_relay_layer.Sdk.Examples.{half_up, half_up_laws, Ledger, ledger, ledger_laws}
use blockchain_relay_layer.Sdk.Bank.{amount_in, Coin, amount_at}
use blockchain_relay_layer.Helpers.Pages.{page_of}
use blockchain_relay_layer.Ccstorage.Types.{Name, Currency}
use blockchain_relay_layer.Ccstorage.Keeper as Currencies
use blockchain_relay_layer.Markets.Types.{MarketExtended, base_to_quote_quantity}
use blockchain_relay_layer.Orders.Cases.{without_order}
use blockchain_relay_layer.Markets.Keeper as Markets
use blockchain_relay_layer.Orders.Types.{
  invalid_quantity, validate_price_quantity, bid, ask, Order, OrderFill, new_order, lock_coin,
}
use blockchain_relay_layer.Orders.Keeper.{
  State, next_id, post_order, revoke_order, end_blocker, execute_order_fills,
}
use blockchain_relay_layer.Orders.Solvency.{IsSolvent}
use blockchain_relay_layer.Orders.Trace.{
  Reach, here, next, post, reachable-IsSolvent, no_orders-IsSolvent,
}
use blockchain_relay_layer.Orders.Revoking.{
  revoke_succeeds, revoke-post, unlockable_order_stays, locked-execute_order_fills,
}
use blockchain_relay_layer.Orders.Genesis.{
  Checks, GenesisState, init_genesis, export_genesis, export_without_last,
}

abbrev currency : ℕ → Currency
currency denom = record { denom = denom; decimals = 0; supply = pos 1_000; contract_address = 0 }

abbrev currencies : Currencies.State
currencies = record { currencies = (1, currency 1) ∷ (2, currency 2) ∷ []; infos = [] }

abbrev markets : Markets.State
markets = record {
  markets = (0, record { id = 0; base_asset_denom = 1; quote_asset_denom = 2 }) ∷ [];
  last_market_id = some 0;
}

abbrev market : MarketExtended
market = record { id = 0; base_currency = currency 1; quote_currency = currency 2 }

abbrev code : Name → Name → Name
code base quote = 10 * base + quote

abbrev bank : Ledger
bank = record { balances = λ a n. 1_000; locked = λ n. 0; known = λ a. true }

abbrev start : State Ledger
start = record { orders = []; last_order_id = none; bank = bank }

abbrev first_ask : Order
first_ask = new_order 100 0 7 market ask 10 5 60

abbrev after_ask : State Ledger
after_ask = record {
  orders = (0, first_ask) ∷ [];
  last_order_id = some 0;
  bank = record {
    balances = λ a n. 1_000 - amount_at 7 (record { denom = 1; amount = 5 }) a n;
    locked = λ n. 0 + amount_in (record { denom = 1; amount = 5 }) n;
    known = λ a. true;
  };
}

posting :
    post_order half_up ledger code markets currencies 100 7 12 ask 10 5 60 start
    ≡ (ok first_ask, after_ask)
unfolding post_order lookup insert_by page_of validate_price_quantity lock_coin next_id
posting = refl

steps : Reach half_up ledger start after_ask
unfolding post_order lookup insert_by page_of validate_price_quantity lock_coin next_id
steps = next here (post code markets currencies 100 7 12 ask 10 5 60 start)

reachable-IsSolvent_example : IsSolvent half_up ledger after_ask
reachable-IsSolvent_example = reachable-IsSolvent half_up ledger half_up_laws ledger_laws bank steps

abbrev ask_coin : Coin
ask_coin = record { denom = 1; amount = 5 }

ask_coin_lem : lock_coin half_up first_ask ≡ ok ask_coin
unfolding lock_coin
ask_coin_lem = refl

after_ask_found : lookup 0 after_ask.orders ≡ some first_ask
unfolding lookup
after_ask_found = refl

revoke_succeeds_example :
    (b : Ledger) × (revoke_order half_up ledger 0 after_ask
      ≡ (ok tt, without_order half_up ledger 0 b after_ask))
    × ((a n : ℕ)
        → ledger.balance_of a n b ≡ ledger.balance_of a n after_ask.bank + amount_at 7 ask_coin a n)
revoke_succeeds_example =
    revoke_succeeds half_up ledger half_up_laws ledger_laws 0 first_ask ask_coin after_ask
      (reachable-IsSolvent half_up ledger half_up_laws ledger_laws bank steps) after_ask_found
      ask_coin_lem

revoke-post_example :
    (u : State Ledger) × (revoke_order half_up ledger 0 after_ask ≡ (ok tt, u))
    × ((a n : ℕ) → ledger.balance_of a n u.bank ≡ ledger.balance_of a n start.bank)
    × ((id : ℕ) → lookup id u.orders ≡ lookup id start.orders)
revoke-post_example =
    revoke-post half_up ledger half_up_laws ledger_laws code markets currencies 100 7 12 ask 10 5 60
      first_ask start after_ask (no_orders-IsSolvent half_up ledger half_up_laws ledger_laws bank)
      posting

-- A bid for a unit of 10^-18 at a price of 10^-18.
abbrev dust_bid : Order
dust_bid =
    let m : MarketExtended = record {
      id = 0;
      base_currency = record (currency 1) { decimals = 18 };
      quote_currency = record (currency 2) { decimals = 18 };
    } in
    new_order 100 3 7 m bid 1 1 60

abbrev with_dust : State Ledger
with_dust = record { orders = (3, dust_bid) ∷ []; last_order_id = some 3; bank = bank }

dust_coin : lock_coin half_up dust_bid ≡ err invalid_quantity
unfolding lock_coin base_to_quote_quantity
dust_coin = refl

dust_found : lookup 3 with_dust.orders ≡ some dust_bid
unfolding lookup
dust_found = refl

unlockable_order_stays_example :
    (revoke_order half_up ledger 3 with_dust ≡ (err invalid_quantity, with_dust))
    × (lookup 3 (end_blocker half_up ledger 500_000_000_000 with_dust).1.orders ≡ some dust_bid)
unlockable_order_stays_example =
    unlockable_order_stays half_up ledger half_up_laws ledger_laws 3 500_000_000_000 dust_bid
      invalid_quantity with_dust dust_found dust_coin

abbrev whole_fill : OrderFill
whole_fill = record {
  order = first_ask;
  clearance_price = 10;
  quantity_filled = 5;
  quantity_unfilled = 0;
}

locked-execute_order_fills_example :
    ledger.locked_of 1 (execute_order_fills half_up ledger 200 (whole_fill ∷ []) after_ask).1.bank
    ≡ ledger.locked_of 1 after_ask.bank
locked-execute_order_fills_example =
    locked-execute_order_fills half_up ledger half_up_laws ledger_laws 200 (whole_fill ∷ [])
      after_ask 1

abbrev checks : Checks
checks = record { denom_filter = λ n. true; address_format = λ a. true; now = 1_000 }

abbrev without_last : State Ledger
without_last = record { orders = []; last_order_id = some 0; bank = bank }

export_without_last_example :
    init_genesis checks markets 0 (export_genesis without_last) start ≡ (panic, start)
export_without_last_example = export_without_last checks 0 markets 0 without_last start refl refl

abbrev one_order : GenesisState
one_order = record { orders = first_ask ∷ []; last_order_id = some 0 }
