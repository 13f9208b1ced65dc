-- ===== src/Poa/Genesis.antt =====
-- x/poa/internal/keeper/genesis.go and x/poa/internal/types/genesis.go.
use blockchain_relay_layer.Base.{
  ℕ, Bool, true, false, List, none, some, [], ◌∷◌, ltb, if◌then◌else◌, length, elem,
}
use blockchain_relay_layer.Base.Action.{ok, err, panic}
use blockchain_relay_layer.Poa.Types.{Validator, Params, valid_params, validate}
use blockchain_relay_layer.Poa.Keeper.{State, Method, add_validator, get_validators}

pub record GenesisState : Type 0 where
  pub parameters : Params
  pub validators : List Validator

-- The loop of `Validate`: `seen` is the set of addresses met so far.
unfoldable pub validate_validators : List ℕ → List Validator → Bool
validate_validators seen [] = true
validate_validators seen (v ∷ vs) = elim (validate v) [
  | some e ↦ false
  | none ↦ if elem v.address seen then false else validate_validators (v.address ∷ seen) vs
]

-- `GenesisState.Validate`
unfoldable pub validate_genesis : Bool → GenesisState → Bool
validate_genesis skip_count_validation s =
    if valid_params s.parameters
    then if validate_validators [] s.validators
      then if skip_count_validation
        then true
        else if ltb (length s.validators) s.parameters.min_validators
        then false
        else if ltb s.parameters.max_validators (length s.validators)
        then false
        else true
      else false
    else false

-- The loop of `InitGenesis`: an error of `AddValidator` is a panic.
unfoldable pub init_validators : List Validator → Method (Unit {0})
init_validators [] s = (ok tt, s)
init_validators (v ∷ vs) s =
    let (r, s') = add_validator v.address v.eth_address s in
    elim r [ ok _ ↦ init_validators vs s' | err _ ↦ (panic, s') | panic ↦ (panic, s') ]

unfoldable pub init_genesis : GenesisState → Method (Unit {0})
init_genesis g s = init_validators g.validators (record s { params = g.parameters })

unfoldable pub export_genesis : State → GenesisState
export_genesis s = record { parameters = s.params; validators = get_validators s }
