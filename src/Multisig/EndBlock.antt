-- ===== src/Multisig/EndBlock.antt =====
-- x/multisig/abci.go: at the end of a block the confirmed calls are executed, and the old ones
-- rejected.
use blockchain_relay_layer.Base.{
  ℕ, ◌-◌, ◌%◌, true, none, some, List, [], ◌∷◌, ltb, leb, if◌then◌else◌,
}
use blockchain_relay_layer.Base.Action.{Result, ok, err, panic, and_then}
use blockchain_relay_layer.Multisig.Types.{Name, Interface, Call, Error}
use blockchain_relay_layer.Multisig.Queue.{
  remove_call_from_queue, queue_ids_start_end, queue_ids_till,
}
use blockchain_relay_layer.Multisig.Keeper.{State, get_call, store_call}
use blockchain_relay_layer.Multisig.Votes.{get_confirmations_count}

-- The module's store and that of the rest of the application.
pub record World (App Msg : Type 0) : Type 0 where
  pub ms : State Msg
  pub rest : App

abbrev pub Outcome : Type 0 → Type 0 → Type 0
Outcome App Msg = Result Error (Unit {0}) × World App Msg

module _ {Msg : Type 0} where
  -- `StoreCall` and `RemoveCallFromQueue`, as both loops end.
  unfoldable pub settle : Call Msg → ℕ → State Msg → State Msg
  unfolding store_call
  settle c id s =
      let stored = store_call c s in
      record stored { queue = remove_call_from_queue id c.height stored.queue }

  -- The call after its handler has returned: the writes are kept only on success.
  abbrev pub finish : Call Msg → Result Name (Unit {0}) → Call Msg
  finish c (ok _) = record c { approved = true; executed = true }
  finish c (err e) = record c { approved = true; failed = true; error = e }
  finish c panic = record c { approved = true }

module _ {App Msg : Type 0} where
  -- Runs the handler of an approved call on a cached context.
  unfoldable pub run_handler :
      (Msg → App → Result Name (Unit {0}) × App) → Call Msg → ℕ → World App Msg → Outcome App Msg
  run_handler handler c id w =
      let (r, a) = handler c.msg w.rest in
      elim r [
        | ok _ ↦ (ok tt, record { ms = settle (finish c (ok tt)) id w.ms; rest = a })
        | err e ↦ (ok tt, record w { ms = settle (finish c (err e)) id w.ms })
        | panic ↦ (panic, w)
      ]

module _ {App Msg : Type 0} (app : Interface App Msg) where
  unfoldable pub execute_call : ℕ → World App Msg → Outcome App Msg
  execute_call id w = elim (get_call w.ms id) [
    | err e ↦ (panic, w)
    | panic ↦ (panic, w)
    | ok c ↦ elim (app.get_route (app.route c.msg)) [
      | none ↦ (panic, w)
      | some handler ↦ run_handler handler c id w
    ]
  ]

  -- `uint16(confirmations)` wraps around.
  unfoldable pub process_active : ℕ → World App Msg → Outcome App Msg
  process_active id w = elim (get_confirmations_count w.ms id) [
    | err e ↦ (panic, w)
    | panic ↦ (panic, w)
    | ok confirmations ↦
        if leb (app.get_enough_confirmations w.rest) (confirmations % 65536)
        then execute_call id w
        else (ok tt, w)
  ]

  -- The IDs are those that the iterator meets in the store as it was when it was made.
  unfoldable pub process_actives : List ℕ → World App Msg → Outcome App Msg
  process_actives [] w = (ok tt, w)
  process_actives (id ∷ ids) w = and_then (process_active id w) (λ _. process_actives ids)

module _ {App Msg : Type 0} where
  unfoldable pub reject_call : ℕ → World App Msg → Outcome App Msg
  reject_call id w = elim (get_call w.ms id) [
    | err e ↦ (panic, w)
    | panic ↦ (panic, w)
    | ok c ↦ (ok tt, record w { ms = settle (record c { rejected = true }) id w.ms })
  ]

  unfoldable pub reject_calls : List ℕ → World App Msg → Outcome App Msg
  reject_calls [] w = (ok tt, w)
  reject_calls (id ∷ ids) w = and_then (reject_call id w) (λ _. reject_calls ids)

  -- The second half of `EndBlocker`.
  unfoldable pub reject_late : ℕ → World App Msg → Outcome App Msg
  reject_late start w =
      if ltb w.ms.interval_to_execute start
      then reject_calls (queue_ids_till start w.ms.queue) w
      else (ok tt, w)

-- `start`: the subtraction of naturals stops at 0, as the code's `if start < 0` does.
abbrev pub start_height : {Msg : Type 0} → ℕ → State Msg → ℕ
start_height height s = height - s.interval_to_execute

module _ {App Msg : Type 0} (app : Interface App Msg) where
  -- `EndBlocker` at block height `height`
  unfoldable pub end_blocker : ℕ → World App Msg → Outcome App Msg
  end_blocker height w =
      let start = start_height height w.ms in
      and_then (process_actives app (queue_ids_start_end start height w.ms.queue) w)
        (λ _. reject_late start)
