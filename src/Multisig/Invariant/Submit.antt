-- ===== src/Multisig/Invariant/Submit.antt =====
-- x/multisig: submissions, and every user message.
use blockchain_relay_layer.Base.{
  ℕ, ◌≡◌, refl, true, false, Option, none, some, List, [], ◌∷◌, All, All-map, elem, arith,
  Option-cases, inl, inr,
}
use blockchain_relay_layer.Base.Map.{Map, lookup, insert, lookup-insert}
use blockchain_relay_layer.Multisig.Types.{Interface, Call, Name, Address, new_call, fresh_call}
use blockchain_relay_layer.Multisig.Queue.{QueueItem}
use blockchain_relay_layer.Multisig.Keeper.{State, next_call_id, create_call}
use blockchain_relay_layer.Multisig.Votes.{confirm_call}
use blockchain_relay_layer.Multisig.Invariant.Defs.{Inv, IsItem, live, ids, names_call, is_some}
use blockchain_relay_layer.Multisig.Invariant.QueueLaws.{
  add_call_to_queue-All, add_call_to_queue-Distinct, queue_item,
}
use blockchain_relay_layer.Multisig.Calls.{submit_new_call, submit_call, dry_run}
use blockchain_relay_layer.Multisig.Handler.{
  UserMsg, msg_submit_call, msg_confirm_call, msg_revoke_confirm, handle,
}
use blockchain_relay_layer.Multisig.Keeper.{get_call_id_by_unique_id, has_call_by_unique_id}
use blockchain_relay_layer.Multisig.Invariant.Steps.{confirm_call-Inv, revoke_confirmation-Inv}

pub names_keep :
    {Msg : Type 0} (o : Option ℕ) (k : ℕ) (c : Call Msg) (calls : Map (Call Msg))
    → names_call o calls ≡ true
    → names_call o (insert k c calls) ≡ true
names_keep none k c calls h = refl
names_keep (some id) k c calls h = ground (arith, lookup-insert k id c calls)

module _ {App Msg : Type 0} (app : Interface App Msg) where
  IsItem-before :
      (c : Call Msg) (q : QueueItem) (calls : Map (Call Msg))
      → lookup c.id calls ≡ none
      → IsItem app calls q
      → IsItem app (insert c.id c calls) q
  IsItem-before c q calls new h = ground (arith, lookup-insert c.id q.call_id c calls)

  IsItem-new :
      (c : Call Msg) (calls : Map (Call Msg))
      → live app (some c) ≡ true
      → IsItem app (insert c.id c calls) (queue_item c.height c.id)
  IsItem-new c calls h = ground (arith, lookup-insert c.id c.id c calls)

  not_queued :
      (id : ℕ) (calls : Map (Call Msg)) (qs : List QueueItem)
      → All (IsItem app calls) qs
      → lookup id calls ≡ none
      → elem id (ids qs) ≡ false
  not_queued id calls [] h new = refl
  not_queued id calls (q ∷ qs) h new = ground (arith, not_queued id calls qs h.1 new)

  pub create_call-Inv :
      (c : Call Msg) (s : State Msg)
      → Inv app s
      → c.id ≡ next_call_id s
      → live app (some c) ≡ true
      → Inv app (create_call app.id_before c s)
  unfolding create_call next_call_id
  create_call-Inv c s v e l = record {
    items =
        add_call_to_queue-All (IsItem app (insert c.id c s.calls)) app.id_before c.id c.height
          s.queue (All-map (λ q h. IsItem-before c q s.calls new h) s.queue v.items)
          (IsItem-new c s.calls l);
    once =
        add_call_to_queue-Distinct app.id_before c.id c.height s.queue v.once
          (not_queued c.id s.calls s.queue v.items new);
    keyed = λ k. ground (arith, lookup-insert c.id k c s.calls, v.keyed k);
    fresh = λ k h. ground (arith, lookup-insert c.id k c s.calls, v.fresh k (omega (arith, e)));
    unvoted = λ k h. v.unvoted k (omega (arith, e));
    good = v.good;
    named = λ n. ground (
      arith,
      lookup-insert c.unique_id n c.id s.unique_ids,
      lookup-insert c.id c.id c s.calls,
      names_keep (lookup n s.unique_ids) c.id c s.calls (v.named n),
    );
  }
    where
      new : lookup c.id s.calls ≡ none
      new = v.fresh c.id (omega (arith, e))

  pub fresh-live :
      (id : ℕ) (n : Name) (m : Msg) (height : ℕ) (a : Address)
      → is_some (app.get_route (app.route m)) ≡ true
      → live app (some (fresh_call app id n m height a)) ≡ true
  fresh-live id n m height a h = ground arith

  submitted-Inv :
      (m : Msg) (n : Name) (a : Address) (height : ℕ) (r : App) (s : State Msg)
      → Inv app s
      → is_some (app.get_route (app.route m)) ≡ true
      → Inv app
          (confirm_call
            (next_call_id s)
            a
            (create_call app.id_before (fresh_call app (next_call_id s) n m height a) s)).1
  submitted-Inv m n a height r s v h =
      confirm_call-Inv app (next_call_id s) a
        (create_call app.id_before (fresh_call app (next_call_id s) n m height a) s)
        (create_call-Inv (fresh_call app (next_call_id s) n m height a) s v refl
          (fresh-live (next_call_id s) n m height a h))

  submit_new_call-Inv :
      (m : Option Msg) (n : Name) (a : Address) (height : ℕ) (r : App) (s : State Msg)
      → Inv app s
      → Inv app (submit_new_call app m n a height r s).1
  unfolding submit_new_call dry_run new_call
  submit_new_call-Inv none n a height r s v = v
  submit_new_call-Inv (some m) n a height r s v = ground (arith, submitted-Inv m n a height r s v)

  submit_call-Inv :
      (m : Option Msg) (n : Name) (a : Address) (height : ℕ) (r : App) (s : State Msg)
      → Inv app s
      → Inv app (submit_call app m n a height r s).1
  unfolding submit_call get_call_id_by_unique_id has_call_by_unique_id
  submit_call-Inv m n a height r s v = elim (Option-cases (lookup n s.unique_ids)) [
    | inl e ↦ ground (arith, submit_new_call-Inv m n a height r s v)
    | inr (id, e) ↦ ground (arith, confirm_call-Inv app id a s v)
  ]

  -- Every user message, whether it is taken or refused, keeps the invariant of the store.
  pub handle-Inv :
      (u : UserMsg Msg) (height : ℕ) (r : App) (s : State Msg)
      → Inv app s
      → Inv app (handle app u height r s).1
  unfolding handle
  handle-Inv (msg_submit_call m n a) height r s v =
      ground (arith, submit_call-Inv m n a height r s v)
  handle-Inv (msg_confirm_call id a) height r s v = ground (arith, confirm_call-Inv app id a s v)
  handle-Inv (msg_revoke_confirm id a) height r s v = revoke_confirmation-Inv app id a s v
