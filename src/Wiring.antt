-- ===== src/Wiring.antt =====
-- app/app.go: the multi-signature module over the proof-of-authority module. The one route of the
-- multi-signature router here is that of x/poa; the text of an error is the code it is registered
-- under.
use blockchain_relay_layer.Base.{Bool, ℕ, Option, none, some, ◌==◌, if◌then◌else◌}
use blockchain_relay_layer.Base.Action.{Result, ok, err, panic}
use blockchain_relay_layer.Poa.Types.{
  Error, invalid_address, wrong_ethereum_address, validator_exists, validator_not_exists,
  max_validators_reached, min_validators_reached,
}
use blockchain_relay_layer.Poa.Keeper.{State, has_validator, get_enough_confirmations}
use blockchain_relay_layer.Poa.Messages.{
  Msg, msg_add_validator, msg_remove_validator, msg_replace_validator, handle,
}
use blockchain_relay_layer.Multisig.Types.{Interface, Name}
pub mod Governance
mod Examples

-- x/poa/internal/types/errors.go; 7 is the code of the SDK's ErrInvalidAddress.
abbrev pub error_code : Error → Name
error_code invalid_address = 7
error_code wrong_ethereum_address = 101
error_code validator_exists = 102
error_code validator_not_exists = 103
error_code max_validators_reached = 104
error_code min_validators_reached = 105

-- A name for the text "poa", and for the three message types.
abbrev pub poa_route : Name
poa_route = 1

abbrev pub poa_msg_type : Msg → Name
poa_msg_type (msg_add_validator a eth sender) = 1
poa_msg_type (msg_remove_validator a sender) = 2
poa_msg_type (msg_replace_validator old new eth sender) = 3

abbrev pub as_text : {A : Type 0} → Result Error A → Result Name A
as_text (ok a) = ok a
as_text (err e) = err (error_code e)
as_text panic = panic

unfoldable pub poa_handler : Msg → State → Result Name (Unit {0}) × State
poa_handler m s = let (r, s') = handle m s in (as_text r, s')

-- `GetRoute` of the sealed router
unfoldable pub poa_get_route : Name → Option (Msg → State → Result Name (Unit {0}) × State)
poa_get_route n = if n == poa_route then some poa_handler else none

-- The order of the texts of two IDs is left open.
unfoldable pub poa_interface : (ℕ → ℕ → Bool) → Interface State Msg
poa_interface id_before = record {
  route = λ m. poa_route;
  msg_type = poa_msg_type;
  get_route = poa_get_route;
  has_validator = has_validator;
  get_enough_confirmations = get_enough_confirmations;
  id_before = id_before;
}
