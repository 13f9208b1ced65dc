-- ===== src/Poa/Examples.antt =====
-- Three validators.
use blockchain_relay_layer.Base.{
  arith, ℕ, ◌*◌, ◌+◌, ◌≤◌, ◌<◌, ◌≡◌, refl, sym, subst, List, [], ◌∷◌, length, true, false, some,
  ◌∙◌,
}
use blockchain_relay_layer.Helpers.Eth.{is_ethereum_address}
use blockchain_relay_layer.Base.Map.{insert_by, lookup}
use blockchain_relay_layer.Base.Action.{Result, ok}
use blockchain_relay_layer.Poa.Types.{validate, valid_params, default_params, new_validator}
use blockchain_relay_layer.Poa.Keeper.{
  State, add_validator, add_validator_with, has_validator, get_validator_amount, get_validators,
  get_enough_confirmations,
}
use blockchain_relay_layer.Poa.Genesis.{
  GenesisState, validate_validators, init_validators, init_genesis, export_genesis,
  validate_genesis,
}
use blockchain_relay_layer.Poa.Messages.{msg_replace_validator, handle}
use blockchain_relay_layer.Poa.Invariant.Steps.{Inv}
use blockchain_relay_layer.Poa.Invariant.Methods.{Keeps, handle-Keeps}
use blockchain_relay_layer.Poa.Invariant.Quorum.{get_enough_confirmations_majority}
use blockchain_relay_layer.Poa.Invariant.Chain.{empty_state, export_genesis-init_genesis}

abbrev ten_digits : List ℕ → List ℕ
ten_digits l = b'1' ∷ b'a' ∷ b'2' ∷ b'b' ∷ b'3' ∷ b'c' ∷ b'4' ∷ b'd' ∷ b'5' ∷ b'e' ∷ l

abbrev pub some_eth : List ℕ
some_eth = b'0' ∷ b'x' ∷ ten_digits (ten_digits (ten_digits (ten_digits [])))

abbrev pub three_genesis : GenesisState
three_genesis = record {
  parameters = default_params;
  validators = new_validator 1 some_eth ∷ new_validator 2 some_eth ∷ new_validator 3 some_eth ∷ [];
}

three_genesis_valid : validate_genesis false three_genesis ≡ true
unfolding validate_genesis valid_params validate_validators validate is_ethereum_address
three_genesis_valid = refl

abbrev pub three : State
three = record {
  validators =
      (1, new_validator 1 some_eth)
      ∷ (2, new_validator 2 some_eth)
      ∷ (3, new_validator 3 some_eth)
      ∷ [];
  list = some three_genesis.validators;
  count = some 3;
  params = default_params;
}

three_genesis_run : init_genesis three_genesis (empty_state default_params) ≡ (ok tt, three)
unfolding init_genesis init_validators add_validator add_validator_with validate is_ethereum_address
    has_validator lookup insert_by get_validators get_validator_amount
three_genesis_run = refl

export_genesis-init_genesis_example :
    (s : State) × (init_genesis three_genesis (empty_state default_params) ≡ (ok tt, s))
    × Inv s
    × (export_genesis s ≡ three_genesis)
export_genesis-init_genesis_example =
    export_genesis-init_genesis three_genesis default_params three_genesis_valid

pub three-Inv : Inv three
three-Inv =
    let (s, e, v, g) =
      export_genesis-init_genesis three_genesis default_params three_genesis_valid in
    subst (λ (r : Result _ Unit × State). Inv r.1) (sym e ∙ three_genesis_run) v

handle-Keeps_example : Keeps (handle (msg_replace_validator 2 4 some_eth 1) three)
handle-Keeps_example = handle-Keeps (msg_replace_validator 2 4 some_eth 1) three three-Inv

three_positive : 0 < length (get_validators three)
unfolding get_validators
three_positive = omega arith

get_enough_confirmations_majority_example :
    (length (get_validators three) < 2 * get_enough_confirmations three)
    × (2 * get_enough_confirmations three ≤ length (get_validators three) + 2)
    × (get_enough_confirmations three ≤ length (get_validators three))
get_enough_confirmations_majority_example =
    get_enough_confirmations_majority three three-Inv three_positive
