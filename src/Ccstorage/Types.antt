-- ===== src/Ccstorage/Types.antt =====
-- x/ccstorage/internal/types: currency.go, genesis.go and res_currency_info.go.
use blockchain_relay_layer.Base.{ℕ, Bool, false, List, map}
use blockchain_relay_layer.Base.Int.{ℤ}
use blockchain_relay_layer.Sdk.{DecOps}

-- A denom or another text that is only compared; 0 is the empty one. The numbers are in the order of
-- the texts, which is that of the store's keys.
abbrev pub Name : Type 0
Name = ℕ

pub record Currency : Type 0 where
  pub denom : Name
  pub decimals : ℕ
  pub supply : ℤ
  pub contract_address : Name

pub record CurrencyParams : Type 0 where
  pub denom : Name
  pub decimals : ℕ
  pub contract_address : Name

-- `NewCurrency`
abbrev pub new_currency : CurrencyParams → ℤ → Currency
new_currency p supply = record {
  denom = p.denom;
  decimals = p.decimals;
  supply = supply;
  contract_address = p.contract_address;
}

-- `ToParams`
unfoldable pub to_params : List Currency → List CurrencyParams
to_params =
    map
      λ c. record { denom = c.denom; decimals = c.decimals; contract_address = c.contract_address }

module _ (d : DecOps) where
  -- `MinDecimal`
  abbrev pub min_decimal : Currency → ℕ
  min_decimal c = d.from_int_with_prec 1 c.decimals

  abbrev pub uint_to_dec : Currency → ℕ → ℕ
  uint_to_dec c quantity = d.from_int_with_prec quantity c.decimals

  abbrev pub dec_to_uint : Currency → ℕ → ℕ
  dec_to_uint c quantity = d.truncate_int (d.quo quantity (min_decimal c))

-- The resource of the virtual machine; its owner is the standard library where it is no token.
pub record ResCurrencyInfo : Type 0 where
  pub denom : Name
  pub decimals : ℕ
  pub is_token : Bool
  pub total_supply : ℤ

-- `NewResCurrencyInfo` for the address of the standard library, whose length is right.
abbrev pub std_currency_info : Currency → ResCurrencyInfo
std_currency_info c = record {
  denom = c.denom;
  decimals = c.decimals;
  is_token = false;
  total_supply = c.supply;
}
