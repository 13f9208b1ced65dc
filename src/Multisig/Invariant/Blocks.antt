-- ===== src/Multisig/Invariant/Blocks.antt =====
-- x/multisig/abci.go: the loops of `EndBlocker`, and all of it.
use blockchain_relay_layer.Base.{
  ltb, ◌∙◌, ℕ, ◌≡◌, refl, sym, subst, Bool, true, false, Option, some, List, [], ◌∷◌, ◌==◌,
  if◌then◌else◌, All, All-map, Distinct, elem, arith, Option-cases, inl, inr,
}
use blockchain_relay_layer.Base.Map.{lookup}
use blockchain_relay_layer.Base.Action.{ok, err, panic, and_then}
use blockchain_relay_layer.Multisig.Types.{Address, Interface, Call}
use blockchain_relay_layer.Multisig.Queue.{queue_ids_start_end, queue_ids_till}
use blockchain_relay_layer.Multisig.Keeper.{State, get_call}
use blockchain_relay_layer.Multisig.EndBlock.{
  start_height, World, Outcome, process_active, process_actives, reject_call, reject_calls,
  reject_late, end_blocker,
}
use blockchain_relay_layer.Multisig.Invariant.Defs.{Inv, live, ids, Laws}
use blockchain_relay_layer.Multisig.Invariant.QueueLaws.{
  elem-queue_ids_start_end, queue_ids_start_end-Distinct, queue_ids_start_end-All,
}
use blockchain_relay_layer.Multisig.Invariant.Steps.{recorded, votes_in}
use blockchain_relay_layer.Multisig.Invariant.Settle

module _ {App Msg : Type 0} (app : Interface App Msg) (IsGood : App → Type 0)
    (laws : Laws app IsGood) where
  abbrev pub LiveId : State Msg → ℕ → Type 0
  LiveId = Settle.LiveId app

  abbrev pub Sound : World App Msg → Type 0
  Sound = Settle.Sound app IsGood laws

  abbrev pub Steps : ℕ → World App Msg → Outcome App Msg → Type 0
  Steps = Settle.Steps app IsGood laws

  abbrev Moves : List Address → Option (Call Msg) → Option (Call Msg) → Type 0
  Moves = Settle.Moves app IsGood laws

  abbrev AllMove : State Msg → State Msg → Type 0
  AllMove = Settle.AllMove app IsGood laws

  -- What a loop over several calls leaves.
  abbrev pub Loops : List ℕ → World App Msg → Outcome App Msg → Type 0
  Loops ks w r =
      (r.0 ≡ ok tt)
      × Sound r.1
      × (r.1.ms.votes ≡ w.ms.votes)
      × AllMove w.ms r.1.ms
      × Settle.Shrinks app IsGood laws w.ms r.1.ms
      × ((k : ℕ) → elem k ks ≡ false → lookup k r.1.ms.calls ≡ lookup k w.ms.calls)

  -- A call is decided at most once.
  Moves-trans :
      (votes : List Address) (o p q : Option (Call Msg))
      → Moves votes o p
      → Moves votes p q
      → Moves votes o q
  Moves-trans votes o p q (inl same) m = subst (λ x. Moves votes x q) same m
  Moves-trans votes o p q (inr change) (inl same) = subst (Moves votes o) (sym same) (inr change)
  Moves-trans votes o p q (inr (c, d, eo, ep, ch)) (inr (d', e, ep', eq, ch')) =
      absurd (ground arith)

  AllMove-trans : (s t u : State Msg) → t.votes ≡ s.votes → AllMove s t → AllMove t u → AllMove s u
  AllMove-trans s t u same m n k =
      Moves-trans (recorded s k) (lookup k s.calls) (lookup k t.calls) (lookup k u.calls) (m k) (
        subst (λ v. Moves (votes_in (lookup k v)) (lookup k t.calls) (lookup k u.calls)) same (n k))

  pub still_live :
      (s s' : State Msg) (id : ℕ) (ks : List ℕ)
      → elem id ks ≡ false
      → ((k : ℕ) → (id == k) ≡ false → lookup k s'.calls ≡ lookup k s.calls)
      → All (LiveId s) ks
      → All (LiveId s') ks
  still_live s s' id [] n same h = tt
  still_live s s' id (k ∷ ks) n same h =
      (ground (arith, same k), still_live s s' id ks (ground arith) same h.1)

  loop_step :
      (id : ℕ) (ks : List ℕ) (w : World App Msg) (r : Outcome App Msg)
      (k : World App Msg → Outcome App Msg)
      → Steps id w r
      → (Steps id w (ok tt, r.1) → Loops ks r.1 (k r.1))
      → Loops (id ∷ ks) w (and_then r (λ _. k))
  loop_step id ks w (ok u, w') k st rest =
      let l = rest st in
      (
        l.0,
        l.1,
        l.2 ∙ st.3,
        AllMove-trans w.ms w'.ms (k w').1.ms st.3 st.4 l.3,
        λ j out. l.4 j (st.5 j out),
        λ j out. l.5 j (ground arith) ∙ st.2 j (ground arith),
      )
  loop_step id ks w (err x, w') k st rest = cc
  loop_step id ks w (panic, w') k st rest = cc

  pub process_actives-Loops :
      (ks : List ℕ) (w : World App Msg)
      → Sound w
      → All (LiveId w.ms) ks
      → Distinct ks
      → Loops ks w (process_actives app ks w)
  unfolding process_actives
  process_actives-Loops [] w v h d = (refl, v, refl, λ k. inl refl, λ k out. out, λ k out. refl)
  process_actives-Loops (id ∷ ks) w v h d = elim (Option-cases (lookup id w.ms.calls)) [
    | inl missing ↦ absurd (ground arith)
    | inr (c, l) ↦
        loop_step id ks w (process_active app id w) (process_actives app ks)
          (Settle.process_active-Steps app IsGood laws c id w v l
            (subst (λ o. live app o ≡ true) l h.0))
          (λ st.
            process_actives-Loops ks (process_active app id w).1 st.1
              (still_live w.ms (process_active app id w).1.ms id ks d.0 st.2 h.1) d.1)
  ]

  pub reject_call-Steps :
      (c : Call Msg) (id : ℕ) (w : World App Msg)
      → Sound w
      → lookup id w.ms.calls ≡ some c
      → live app (some c) ≡ true
      → Steps id w (reject_call id w)
  unfolding reject_call get_call
  reject_call-Steps c id w v l lv =
      rw (l, reject_call, get_call)
        (Settle.settle-Steps app IsGood laws (record c { rejected = true }) c id w w.rest v.0 l refl
          refl v.1 (ground arith, ground arith, inr refl))

  pub reject_calls-Loops :
      (ks : List ℕ) (w : World App Msg)
      → Sound w
      → All (LiveId w.ms) ks
      → Distinct ks
      → Loops ks w (reject_calls ks w)
  unfolding reject_calls
  reject_calls-Loops [] w v h d = (refl, v, refl, λ k. inl refl, λ k out. out, λ k out. refl)
  reject_calls-Loops (id ∷ ks) w v h d = elim (Option-cases (lookup id w.ms.calls)) [
    | inl missing ↦ absurd (ground arith)
    | inr (c, l) ↦
        loop_step id ks w (reject_call id w) (reject_calls ks)
          (reject_call-Steps c id w v l (subst (λ o. live app o ≡ true) l h.0))
          (λ st.
            reject_calls-Loops ks (reject_call id w).1 st.1
              (still_live w.ms (reject_call id w).1.ms id ks d.0 st.2 h.1) d.1)
  ]

  pub queued_live :
      (start end : ℕ) (s : State Msg)
      → Inv app s
      → All (LiveId s) (queue_ids_start_end start end s.queue)
  queued_live start end s v =
      queue_ids_start_end-All (LiveId s) start end s.queue (All-map (λ q h. h.0) s.queue v.items)

  pub reject_late-Loops :
      (start : ℕ) (w : World App Msg)
      → Sound w
      → Loops (queue_ids_start_end 0 start w.ms.queue) w (reject_late start w)
  unfolding reject_late queue_ids_till
  reject_late-Loops start w v = go (ltb w.ms.interval_to_execute start)
    where
      go :
          (b : Bool)
          → Loops
              (queue_ids_start_end 0 start w.ms.queue)
              w
              (if b then reject_calls (queue_ids_start_end 0 start w.ms.queue) w else (ok tt, w))
      go true =
          reject_calls-Loops (queue_ids_start_end 0 start w.ms.queue) w v
            (queued_live 0 start w.ms v.0)
            (queue_ids_start_end-Distinct 0 start w.ms.queue v.0.once)
      go false = (refl, v, refl, λ k. inl refl, λ k out. out, λ k out. refl)

  -- What the end of a block does to the calls and to the queue.
  abbrev pub Ends : World App Msg → Outcome App Msg → Type 0
  Ends w r =
      (r.0 ≡ ok tt)
      × Sound r.1
      × AllMove w.ms r.1.ms
      × Settle.Shrinks app IsGood laws w.ms r.1.ms
      × ((k : ℕ) → elem k (ids w.ms.queue) ≡ false → lookup k r.1.ms.calls ≡ lookup k w.ms.calls)

  end_blocker-second :
      (ks : List ℕ) (start : ℕ) (w : World App Msg) (r : Outcome App Msg)
      → ((k : ℕ) → elem k (ids w.ms.queue) ≡ false → elem k ks ≡ false)
      → Loops ks w r
      → Ends w (and_then r (λ _. reject_late start))
  end_blocker-second ks start w (ok u, w') sub l =
      let m = reject_late-Loops start w' l.1 in
      (
        m.0,
        m.1,
        AllMove-trans w.ms w'.ms (reject_late start w').1.ms l.2 l.3 m.3,
        λ k out. m.4 k (l.4 k out),
        λ k out.
            m.5 k (elem-queue_ids_start_end 0 start k w'.ms.queue (l.4 k out)) ∙ l.5 k (sub k out),
      )
  end_blocker-second ks start w (err x, w') sub l = cc
  end_blocker-second ks start w (panic, w') sub l = cc

  pub end_blocker-Ends :
      (height : ℕ) (w : World App Msg) → Sound w → Ends w (end_blocker app height w)
  unfolding end_blocker
  end_blocker-Ends height w v =
      let start = start_height height w.ms in
      let ks = queue_ids_start_end start height w.ms.queue in
      end_blocker-second ks start w (process_actives app ks w)
        (λ k out. elem-queue_ids_start_end start height k w.ms.queue out)
        (process_actives-Loops ks w v (queued_live start height w.ms v.0)
          (queue_ids_start_end-Distinct start height w.ms.queue v.0.once))
