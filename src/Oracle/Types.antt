-- ===== src/Oracle/Types.antt =====
-- x/oracle/internal/types: asset.go, oracle.go, price.go and params.go.
use blockchain_relay_layer.Base.{ℕ, Bool, List}
use blockchain_relay_layer.Base.Map.{Map}
use blockchain_relay_layer.Ccstorage.Types.{Name}

pub data Error : Type 0 where
  asset_not_found asset_exists oracle_not_found oracle_exists not_nominee : Error
  invalid_asset invalid_oracle existing_asset invalid_received_at internal : Error

-- An oracle is its address.
abbrev pub Oracle : Type 0
Oracle = ℕ

pub record Asset : Type 0 where
  pub asset_code : Name
  pub oracles : List Oracle
  pub active : Bool

-- Prices are not negative, as `ValidateBasic` of a posted price demands; times are in nanoseconds.
pub record PostedPrice : Type 0 where
  pub asset_code : Name
  pub oracle_address : Oracle
  pub ask_price : ℕ
  pub bid_price : ℕ
  pub received_at : ℕ

pub record CurrentPrice : Type 0 where
  pub asset_code : Name
  pub ask_price : ℕ
  pub bid_price : ℕ
  pub received_at : ℕ

-- The parameters, the posted prices by height and asset, the current price of each asset, and the
-- prices in the storage of the virtual machine.
pub record State : Type 0 where
  pub assets : List Asset
  pub nominees : List Name
  pub received_at_diff_in_s : ℕ
  pub raw_prices : Map (Map (List PostedPrice))
  pub current_prices : Map CurrentPrice
  pub vm_prices : Map ℕ
