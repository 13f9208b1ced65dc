-- ===== src/Multisig/Handler.antt =====
-- x/multisig/handler.go: the messages that users send.
use blockchain_relay_layer.Base.{ℕ, Option, if◌then◌else◌}
use blockchain_relay_layer.Base.Action.{Result, err}
use blockchain_relay_layer.Multisig.Types.{Name, Address, Interface, Error, poa_not_validator}
use blockchain_relay_layer.Multisig.Keeper.{State}
use blockchain_relay_layer.Multisig.Votes.{confirm_call, revoke_confirmation}
use blockchain_relay_layer.Multisig.Calls.{submit_call}

pub data UserMsg (Msg : Type 0) : Type 0 where
  msg_submit_call : Option Msg → Name → Address → UserMsg Msg
  msg_confirm_call : ℕ → Address → UserMsg Msg
  msg_revoke_confirm : ℕ → Address → UserMsg Msg

module _ {App Msg : Type 0} (app : Interface App Msg) where
  -- `NewHandler`; a revocation does not ask whether its sender is still a validator.
  unfoldable pub handle : UserMsg Msg → ℕ → App → State Msg → Result Error (Unit {0}) × State Msg
  handle (msg_submit_call msg unique_id creator) height a s =
      if app.has_validator a creator
      then submit_call app msg unique_id creator height a s
      else (err poa_not_validator, s)
  handle (msg_confirm_call id sender) height a s =
      if app.has_validator a sender then confirm_call id sender s else (err poa_not_validator, s)
  handle (msg_revoke_confirm id sender) height a s = revoke_confirmation id sender s
