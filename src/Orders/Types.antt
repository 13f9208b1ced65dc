-- ===== src/Orders/Types.antt =====
-- x/orders/internal/types: order.go, order_fill.go and direction.go.
use blockchain_relay_layer.Base.{◌%◌, ℕ, ◌-◌, ◌*◌, Option, none, some, ltb, if◌then◌else◌}
use blockchain_relay_layer.Base.Action.{Result, ok, err, panic}
use blockchain_relay_layer.Sdk.{DecOps}
use blockchain_relay_layer.Sdk.Bank.{Coin}
use blockchain_relay_layer.Ccstorage.Types.{min_decimal, uint_to_dec}
use blockchain_relay_layer.Markets.Types.{MarketExtended, base_to_quote_quantity}

pub data Error : Type 0 where
  wrong_asset_code market_failure wrong_price wrong_quantity invalid_quantity wrong_direction :
      Error
  internal wrong_order_id wrong_owner : Error

abbrev pub Address : Type 0
Address = ℕ

-- `Direction` is a text: any other text than "bid" and "ask" is `unknown`.
pub data Direction : Type 0 where
  bid ask unknown : Direction

-- Times and durations are in nanoseconds.
pub record Order : Type 0 where
  pub id : ℕ
  pub owner : Address
  pub market : MarketExtended
  pub direction : Direction
  pub price : ℕ
  pub quantity : ℕ
  -- nanoseconds, a signed 64-bit number: from 2^63 on it stands for the number less 2^64
  pub ttl : ℕ
  pub created_at : ℕ
  pub updated_at : ℕ

pub record OrderFill : Type 0 where
  pub order : Order
  pub clearance_price : ℕ
  pub quantity_filled : ℕ
  pub quantity_unfilled : ℕ

-- `NewOrder`
abbrev pub new_order : ℕ → ℕ → Address → MarketExtended → Direction → ℕ → ℕ → ℕ → Order
new_order block_time id owner market direction price quantity ttl_in_sec = record {
  id = id;
  owner = owner;
  market = market;
  direction = direction;
  price = price;
  quantity = quantity;
  ttl = ttl_in_sec * 1_000_000_000 % 18_446_744_073_709_551_616;
  created_at = block_time;
  updated_at = block_time;
}

module _ (d : DecOps) where
  -- `ValidatePriceQuantity`
  unfoldable pub validate_price_quantity : Order → Result Error (Unit {0})
  validate_price_quantity o =
      let quote = o.market.quote_currency in
      let base = o.market.base_currency in
      if ltb (uint_to_dec d quote o.price) (min_decimal d quote)
      then err wrong_price
      else if ltb (uint_to_dec d base o.quantity) (min_decimal d base)
      then err wrong_quantity
      else ok tt

  -- A coin of the quote currency for an amount of the base currency at a price.
  unfoldable pub quote_coin : MarketExtended → ℕ → ℕ → Result Error Coin
  quote_coin m price quantity = elim (base_to_quote_quantity d m price quantity) [
    | err _ ↦ err invalid_quantity
    | panic ↦ panic
    | ok q ↦ ok (record { denom = m.quote_currency.denom; amount = q })
  ]

  abbrev pub base_coin : MarketExtended → ℕ → Coin
  base_coin m quantity = record { denom = m.base_currency.denom; amount = quantity }

  -- `LockCoin`
  unfoldable pub lock_coin : Order → Result Error Coin
  unfolding quote_coin
  lock_coin o = elim o.direction [
    | bid ↦ quote_coin o.market o.price o.quantity
    | ask ↦ ok (base_coin o.market o.quantity)
    | unknown ↦ err wrong_direction
  ]

  -- `FillCoin`
  unfoldable pub fill_coin : OrderFill → Result Error Coin
  unfolding quote_coin
  fill_coin f = elim f.order.direction [
    | bid ↦ ok (base_coin f.order.market f.quantity_filled)
    | ask ↦ quote_coin f.order.market f.clearance_price f.quantity_filled
    | unknown ↦ err wrong_direction
  ]

  -- `RefundCoin`: `none` where nothing is refunded or the refund is too small for a coin, since both
  -- are treated alike.
  unfoldable pub refund_coin : OrderFill → Result Error (Option Coin)
  unfolding quote_coin
  refund_coin f = elim f.order.direction [
    | bid ↦
        if ltb f.clearance_price f.order.price
        then elim (quote_coin f.order.market (f.order.price - f.clearance_price)
            f.quantity_filled) [ ok coin ↦ ok (some coin) | err _ ↦ ok none | panic ↦ panic ]
        else ok none
    | ask ↦ ok none
    | unknown ↦ err wrong_direction
  ]
