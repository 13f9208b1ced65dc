-- ===== src/Multisig/Invariant/Stranded.antt =====
-- Calls of x/multisig that are not in the queue, under the messages of users.
use blockchain_relay_layer.Base.{
  ℕ, ◌≡◌, refl, sym, subst, ◌∙◌, true, false, Option, none, some, ◌==◌, elem, arith, Option-cases,
  inl, inr,
}
use blockchain_relay_layer.Base.Map.{lookup, lookup-insert}
use blockchain_relay_layer.Multisig.Types.{Interface, Call, Name, Address, new_call, fresh_call}
use blockchain_relay_layer.Multisig.Keeper.{
  State, create_call, next_call_id, get_call_id_by_unique_id, has_call_by_unique_id,
}
use blockchain_relay_layer.Multisig.Votes.{
  confirm_call, revoke_confirmation, store_vote, revoke_vote,
}
use blockchain_relay_layer.Multisig.Calls.{submit_call, submit_new_call, dry_run}
use blockchain_relay_layer.Multisig.Handler.{
  UserMsg, msg_submit_call, msg_confirm_call, msg_revoke_confirm, handle,
}
use blockchain_relay_layer.Multisig.Invariant.Defs.{Inv, ids, is_some}
use blockchain_relay_layer.Multisig.Invariant.QueueLaws.{
  elem-remove_call_from_queue, elem-add_call_to_queue,
}
use blockchain_relay_layer.Multisig.Invariant.Steps.{store_vote_cases, revoke_vote_cases, keyed_lem}
use blockchain_relay_layer.Multisig.Invariant.Submit.{create_call-Inv, fresh-live}

module _ {App Msg : Type 0} (app : Interface App Msg) where
  -- The call `c` is stored under `k`, and is not queued.
  abbrev pub Stranded : ℕ → Call Msg → State Msg → Type 0
  Stranded k c s = (lookup k s.calls ≡ some c) × (elem k (ids s.queue) ≡ false)

  store_vote-Stranded :
      (k : ℕ) (c d : Call Msg) (a : Address) (s : State Msg)
      → lookup d.id s.calls ≡ some d
      → Stranded k c s
      → Stranded k c (store_vote d a s).1
  store_vote-Stranded k c d a s e h = elim (store_vote_cases d a s e) [
    | inl (_, same, _) ↦ subst (λ r. Stranded k c r.1) (sym same) h
    | inr (_, _, done) ↦ subst (λ r. Stranded k c r.1) (sym done) h
  ]

  revoke_vote-Stranded :
      (k : ℕ) (c d : Call Msg) (a : Address) (s : State Msg)
      → lookup d.id s.calls ≡ some d
      → Stranded k c s
      → Stranded k c (revoke_vote d a s).1
  revoke_vote-Stranded k c d a s e h = elim (revoke_vote_cases d a s e) [
    | inl (_, same, _) ↦ subst (λ r. Stranded k c r.1) (sym same) h
    | inr (inl (_, _, _, done)) ↦
        subst (λ r. Stranded k c r.1) (sym done)
          (h.0, elem-remove_call_from_queue d.id d.height k s.queue h.1)
    | inr (inr (_, _, _, done)) ↦ subst (λ r. Stranded k c r.1) (sym done) h
  ]

  confirm_call-Stranded :
      (k id : ℕ) (c : Call Msg) (a : Address) (s : State Msg)
      → Inv app s
      → Stranded k c s
      → Stranded k c (confirm_call id a s).1
  unfolding confirm_call
  confirm_call-Stranded k id c a s v h = elim (Option-cases (lookup id s.calls)) [
    | inl missing ↦ rw (missing, confirm_call) h
    | inr (d, e) ↦ rw (e, confirm_call) (store_vote-Stranded k c d a s (keyed_lem app id d s v e) h)
  ]

  pub revoke_confirmation-Stranded :
      (k id : ℕ) (c : Call Msg) (a : Address) (s : State Msg)
      → Inv app s
      → Stranded k c s
      → Stranded k c (revoke_confirmation id a s).1
  unfolding revoke_confirmation
  revoke_confirmation-Stranded k id c a s v h = elim (Option-cases (lookup id s.calls)) [
    | inl missing ↦ rw (missing, revoke_confirmation) h
    | inr (d, e) ↦
        rw (e, revoke_confirmation) (revoke_vote-Stranded k c d a s (keyed_lem app id d s v e) h)
  ]

  create_call-Stranded :
      (k : ℕ) (c d : Call Msg) (s : State Msg)
      → Inv app s
      → d.id ≡ next_call_id s
      → Stranded k c s
      → Stranded k c (create_call app.id_before d s)
  unfolding create_call
  create_call-Stranded k c d s v e h = (
    ground (arith, older, h.0, lookup-insert d.id k d s.calls),
    elem-add_call_to_queue app.id_before d.id d.height k s.queue older ∙ h.1,
  )
    where
      older : (d.id == k) ≡ false
      older = ground (arith, v.fresh k)

  submitted-Stranded :
      (k : ℕ) (c : Call Msg) (m : Msg) (n : Name) (a : Address) (height : ℕ) (s : State Msg)
      → Inv app s
      → Stranded k c s
      → is_some (app.get_route (app.route m)) ≡ true
      → Stranded k c
          (confirm_call
            (next_call_id s)
            a
            (create_call app.id_before (fresh_call app (next_call_id s) n m height a) s)).1
  submitted-Stranded k c m n a height s v h routed =
      let d = fresh_call app (next_call_id s) n m height a in
      confirm_call-Stranded k (next_call_id s) c a (create_call app.id_before d s)
        (create_call-Inv app d s v refl (fresh-live app (next_call_id s) n m height a routed))
        (create_call-Stranded k c d s v refl h)

  submit_new_call-Stranded :
      (k : ℕ) (c : Call Msg) (m : Option Msg) (n : Name) (a : Address) (height : ℕ) (r : App)
      (s : State Msg)
      → Inv app s
      → Stranded k c s
      → Stranded k c (submit_new_call app m n a height r s).1
  unfolding submit_new_call dry_run new_call
  submit_new_call-Stranded k c none n a height r s v h = h
  submit_new_call-Stranded k c (some m) n a height r s v h =
      ground (arith, h, submitted-Stranded k c m n a height s v h)

  submit_call-Stranded :
      (k : ℕ) (c : Call Msg) (m : Option Msg) (n : Name) (a : Address) (height : ℕ) (r : App)
      (s : State Msg)
      → Inv app s
      → Stranded k c s
      → Stranded k c (submit_call app m n a height r s).1
  unfolding submit_call get_call_id_by_unique_id has_call_by_unique_id
  submit_call-Stranded k c m n a height r s v h = elim (Option-cases (lookup n s.unique_ids)) [
    | inl e ↦ ground (arith, submit_new_call-Stranded k c m n a height r s v h)
    | inr (id, e) ↦ ground (arith, confirm_call-Stranded k id c a s v h)
  ]

  pub handle-Stranded :
      (k : ℕ) (c : Call Msg) (u : UserMsg Msg) (height : ℕ) (r : App) (s : State Msg)
      → Inv app s
      → Stranded k c s
      → Stranded k c (handle app u height r s).1
  unfolding handle
  handle-Stranded k c (msg_submit_call m n a) height r s v h =
      ground (arith, h, submit_call-Stranded k c m n a height r s v h)
  handle-Stranded k c (msg_confirm_call id a) height r s v h =
      ground (arith, h, confirm_call-Stranded k id c a s v h)
  handle-Stranded k c (msg_revoke_confirm id a) height r s v h =
      revoke_confirmation-Stranded k id c a s v h
