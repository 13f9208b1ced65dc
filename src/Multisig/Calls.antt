-- ===== src/Multisig/Calls.antt =====
-- `SubmitCall` of x/multisig/internal/keeper/call.go.
use blockchain_relay_layer.Base.{ℕ, Option, none, some, if◌then◌else◌}
use blockchain_relay_layer.Base.Action.{Result, ok, err, panic}
use blockchain_relay_layer.Multisig.Types.{
  Name, Address, Interface, Call, Error, wrong_msg_route, handler_error, new_call,
}
use blockchain_relay_layer.Multisig.Keeper.{
  State, has_call_by_unique_id, get_call_id_by_unique_id, next_call_id, create_call,
}
use blockchain_relay_layer.Multisig.Votes.{confirm_call}

module _ {App Msg : Type 0} (app : Interface App Msg) where
  -- The route check and the dry run of the handler, whose writes are thrown away.
  unfoldable pub dry_run : Call Msg → App → Result Error (Unit {0})
  dry_run c a = elim (app.get_route (app.route c.msg)) [
    | none ↦ err wrong_msg_route
    | some handler ↦ elim (handler c.msg a).0 [
      | ok _ ↦ ok tt
      | err e ↦ err (handler_error e)
      | panic ↦ panic
    ]
  ]

  -- A call that is not there yet.
  unfoldable pub submit_new_call :
      Option Msg → Name → Address → ℕ → App → State Msg → Result Error (Unit {0}) × State Msg
  submit_new_call msg unique_id sender height a s =
      elim (new_call app (next_call_id s) unique_id msg height sender) [
        | err e ↦ (err e, s)
        | panic ↦ (panic, s)
        | ok c ↦ elim (dry_run c a) [
          | err e ↦ (err e, s)
          | panic ↦ (panic, s)
          | ok _ ↦ confirm_call c.id sender (create_call app.id_before c s)
        ]
      ]

  -- `SubmitCall` at block height `height`
  unfoldable pub submit_call :
      Option Msg → Name → Address → ℕ → App → State Msg → Result Error (Unit {0}) × State Msg
  submit_call msg unique_id sender height a s =
      if has_call_by_unique_id s unique_id
      then elim (get_call_id_by_unique_id s unique_id) [
        | ok id ↦ confirm_call id sender s
        | err e ↦ (err e, s)
        | panic ↦ (panic, s)
      ]
      else submit_new_call msg unique_id sender height a s
