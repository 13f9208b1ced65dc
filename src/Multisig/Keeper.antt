-- ===== src/Multisig/Keeper.antt =====
-- x/multisig/internal/keeper/call.go: the module's store and what reads and writes it.
use blockchain_relay_layer.Base.{ℕ, ◌+◌, Bool, Option, none, some, List}
use blockchain_relay_layer.Base.Map.{Map, lookup, has, insert}
use blockchain_relay_layer.Base.Action.{Result, ok, err}
use blockchain_relay_layer.Multisig.Types.{
  Name, Address, Call, Error, wrong_call_id, wrong_call_unique_id,
}
use blockchain_relay_layer.Multisig.Queue.{QueueItem, add_call_to_queue}

-- The keys `call:`, `uniqueId:`, `callVotes:`, `queue:` and `lastCallId` of the store, and the
-- parameter.
pub record State (Msg : Type 0) : Type 0 where
  pub calls : Map (Call Msg)
  pub unique_ids : Map ℕ
  pub votes : Map (List Address)
  pub queue : List QueueItem
  pub last_call_id : Option ℕ
  pub interval_to_execute : ℕ

module _ {Msg : Type 0} where
  unfoldable pub has_call : State Msg → ℕ → Bool
  has_call s id = has id s.calls

  unfoldable pub has_call_by_unique_id : State Msg → Name → Bool
  has_call_by_unique_id s unique_id = has unique_id s.unique_ids

  unfoldable pub get_call : State Msg → ℕ → Result Error (Call Msg)
  get_call s id = elim (lookup id s.calls) [ none ↦ err wrong_call_id | some c ↦ ok c ]

  unfoldable pub get_call_id_by_unique_id : State Msg → Name → Result Error ℕ
  get_call_id_by_unique_id s unique_id = elim (lookup unique_id s.unique_ids) [
    | none ↦ err wrong_call_unique_id
    | some id ↦ ok id
  ]

  -- `GetLastCallID`
  unfoldable pub get_last_call_id : State Msg → ℕ
  get_last_call_id s = elim s.last_call_id [ none ↦ 0 | some id ↦ id ]

  -- `nextCallID`
  unfoldable pub next_call_id : State Msg → ℕ
  next_call_id s = elim s.last_call_id [ none ↦ 0 | some id ↦ id + 1 ]

  unfoldable pub store_call : Call Msg → State Msg → State Msg
  store_call c s = record s { calls = insert c.id c s.calls }

  -- `createCall`
  unfoldable pub create_call : (ℕ → ℕ → Bool) → Call Msg → State Msg → State Msg
  unfolding store_call
  create_call id_before c s =
      let named = record s {
        last_call_id = some c.id;
        unique_ids = insert c.unique_id c.id s.unique_ids;
      } in
      let stored = store_call c named in
      record stored { queue = add_call_to_queue id_before c.id c.height stored.queue }
