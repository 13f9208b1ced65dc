-- ===== src/Markets/Types.antt =====
-- x/markets/internal/types: market.go, market_ext.go, querier.go, and the state of genesis.go.
use blockchain_relay_layer.Base.{Option, ℕ, Bool, List, ltb, if◌then◌else◌, ◌==◌, ◌&&◌, not}
use blockchain_relay_layer.Base.Action.{Result, ok, err}
use blockchain_relay_layer.Sdk.{DecOps}
use blockchain_relay_layer.Ccstorage.Types.{Name, Currency, min_decimal, uint_to_dec, dec_to_uint}

pub data Error : Type 0 where
  wrong_id market_exists wrong_asset_denom base_asset quote_asset invalid_quantity : Error

pub record Market : Type 0 where
  pub id : ℕ
  pub base_asset_denom : Name
  pub quote_asset_denom : Name

pub record MarketExtended : Type 0 where
  pub id : ℕ
  pub base_currency : Currency
  pub quote_currency : Currency

-- `NewMarketExtended`
abbrev pub new_market_extended : Market → Currency → Currency → MarketExtended
new_market_extended m base quote = record {
  id = m.id;
  base_currency = base;
  quote_currency = quote;
}

-- `BaseToQuoteQuantity`
unfoldable pub base_to_quote_quantity : DecOps → MarketExtended → ℕ → ℕ → Result Error ℕ
base_to_quote_quantity d m base_price base_quantity =
    let base_price_dec = uint_to_dec d m.quote_currency base_price in
    let base_quantity_dec = uint_to_dec d m.base_currency base_quantity in
    let quote_quantity_dec = d.mul base_price_dec base_quantity_dec in
    if ltb quote_quantity_dec (min_decimal d m.quote_currency)
    then err invalid_quantity
    else ok (dec_to_uint d m.quote_currency quote_quantity_dec)

-- A filter of the list; an empty text filters nothing.
pub record MarketsReq : Type 0 where
  pub page : ℕ
  pub limit : ℕ
  pub base_asset_denom : Name
  pub quote_asset_denom : Name
  pub asset_code : Name

-- `NewMarketsFilter`
abbrev pub new_markets_filter : ℕ → ℕ → MarketsReq
new_markets_filter page limit = record {
  page = page;
  limit = limit;
  base_asset_denom = 0;
  quote_asset_denom = 0;
  asset_code = 0;
}

-- `BaseDenomFilter`, `QuoteDenomFilter` and `AssetCodeFilter`, with the comparison that each guards.
abbrev pub filtered_out : Name → Name → Bool
filtered_out wanted found = not (wanted == 0) && not (found == wanted)

pub record GenesisState : Type 0 where
  pub markets : List Market
  pub last_market_id : Option ℕ
