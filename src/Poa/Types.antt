-- ===== src/Poa/Types.antt =====
-- x/poa/internal/types: validators, parameters and errors.
use blockchain_relay_layer.Base.{
  Option, none, some, ℕ, List, Bool, true, false, ltb, ◌==◌, if◌then◌else◌, map,
}
use blockchain_relay_layer.Helpers.Eth.{is_ethereum_address}

-- An account address is only compared; 0 is the empty one.
abbrev pub Address : Type 0
Address = ℕ

abbrev pub empty_address : Address → Bool
empty_address a = a == 0

pub data Error : Type 0 where
  invalid_address wrong_ethereum_address : Error
  validator_exists validator_not_exists : Error
  max_validators_reached min_validators_reached : Error

pub record Validator : Type 0 where
  pub address : Address
  pub eth_address : List ℕ

abbrev pub addresses : List Validator → List ℕ
addresses = map λ v. v.address

abbrev pub new_validator : Address → List ℕ → Validator
new_validator address eth_address = record { address = address; eth_address = eth_address }

-- `Validator.Validate`, `none` for nil. An empty `EthAddress` fails the shape check too, with the
-- same error.
unfoldable pub validate : Validator → Option Error
validate v =
    if empty_address v.address
    then some invalid_address
    else if is_ethereum_address v.eth_address
    then none
    else some wrong_ethereum_address

pub record Params : Type 0 where
  pub max_validators : ℕ
  pub min_validators : ℕ

abbrev pub default_max_validators : ℕ
default_max_validators = 11

abbrev pub default_min_validators : ℕ
default_min_validators = 1

-- `Params.Validate`
unfoldable pub valid_params : Params → Bool
valid_params p =
    if ltb p.min_validators default_min_validators
    then false
    else if ltb default_max_validators p.max_validators
    then false
    else true

-- `DefaultParams`
abbrev pub default_params : Params
default_params = record {
  max_validators = default_max_validators;
  min_validators = default_min_validators;
}
