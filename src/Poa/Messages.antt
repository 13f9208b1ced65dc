-- ===== src/Poa/Messages.antt =====
-- x/poa/ms_handler.go and the messages' `ValidateBasic`: what a confirmed call may ask for.
use blockchain_relay_layer.Base.{Option, none, some, ℕ, List, ◌==◌, if◌then◌else◌}
use blockchain_relay_layer.Poa.Types.{
  Address, Error, invalid_address, new_validator, validate, empty_address,
}
use blockchain_relay_layer.Poa.Keeper.{Method, add_validator, remove_validator, replace_validator}

pub data Msg : Type 0 where
  msg_add_validator : Address → List ℕ → Address → Msg
  msg_remove_validator : Address → Address → Msg
  msg_replace_validator : Address → Address → List ℕ → Address → Msg

-- The last check of every `ValidateBasic`.
abbrev check_sender : Address → Option Error
check_sender sender = if empty_address sender then some invalid_address else none

-- `none` is nil.
unfoldable pub validate_basic : Msg → Option Error
validate_basic (msg_add_validator a eth sender) = elim (validate (new_validator a eth)) [
  | some e ↦ some e
  | none ↦ check_sender sender
]
validate_basic (msg_remove_validator a sender) =
    if empty_address a then some invalid_address else check_sender sender
validate_basic (msg_replace_validator old new eth sender) =
    if empty_address old then some invalid_address else elim (validate (new_validator new eth)) [
      | some e ↦ some e
      | none ↦ if old == new then some invalid_address else check_sender sender
    ]

-- `NewMsHandler`
unfoldable pub handle : Msg → Method (Unit {0})
handle (msg_add_validator a eth sender) = add_validator a eth
handle (msg_remove_validator a sender) = remove_validator a
handle (msg_replace_validator old new eth sender) = replace_validator old new eth
