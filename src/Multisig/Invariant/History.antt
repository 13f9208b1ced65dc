-- ===== src/Multisig/Invariant/History.antt =====
-- Histories of x/multisig: the invariant, and calls outside the queue.
use blockchain_relay_layer.Base.{
  ℕ, ◌≡◌, refl, sym, subst, ◌∙◌, false, none, some, List, [], ◌∷◌, All, elem, arith, inl, inr,
}
use blockchain_relay_layer.Base.Map.{Map, lookup}
use blockchain_relay_layer.Base.Action.{ok}
use blockchain_relay_layer.Multisig.Types.{Interface, Call, Address, can_be_voted}
use blockchain_relay_layer.Multisig.Queue.{QueueItem, remove_call_from_queue}
use blockchain_relay_layer.Multisig.Keeper.{State}
use blockchain_relay_layer.Multisig.Votes.{revoke_confirmation}
use blockchain_relay_layer.Multisig.EndBlock.{World}
use blockchain_relay_layer.Multisig.Trace.{Event, sends, ends, other, step, run}
use blockchain_relay_layer.Multisig.Invariant.Defs.{Inv, IsItem, ids, Laws}
use blockchain_relay_layer.Multisig.Invariant.Steps.{
  recorded, revoke_vote_cases, revoke_confirmation-Inv,
}
use blockchain_relay_layer.Multisig.Invariant.Submit.{handle-Inv}
use blockchain_relay_layer.Multisig.Invariant.Blocks.{end_blocker-Ends}
use blockchain_relay_layer.Multisig.Invariant.Stranded.{Stranded, handle-Stranded}

module _ {App Msg : Type 0} (app : Interface App Msg) (IsGood : App → Type 0)
    (laws : Laws app IsGood) where
  -- The other modules' transactions lead from good states to good states.
  abbrev pub IsAllowed : Event App Msg → Type 0
  IsAllowed (sends u height) = Unit
  IsAllowed (ends height) = Unit
  IsAllowed (other f) = (a : App) → IsGood a → IsGood (f a)

  abbrev pub IsSound : World App Msg → Type 0
  IsSound w = Inv app w.ms × IsGood w.rest

  step-IsSound :
      (e : Event App Msg) (w : World App Msg) → IsAllowed e → IsSound w → IsSound (step app e w)
  unfolding step
  step-IsSound (sends u height) w ok_event v =
      ground (arith, v, handle-Inv app u height w.rest w.ms v.0)
  step-IsSound (ends height) w ok_event v = (end_blocker-Ends app IsGood laws height w v).1
  step-IsSound (other f) w ok_event v = (v.0, ok_event w.rest v.1)

  -- Any history of messages, blocks and other modules' transactions keeps the invariant of the
  -- store and the good state of the application.
  pub run-IsSound :
      (es : List (Event App Msg)) (w : World App Msg)
      → All IsAllowed es
      → IsSound w
      → IsSound (run app es w)
  unfolding run
  run-IsSound [] w ok_events v = v
  run-IsSound (e ∷ es) w ok_events v =
      run-IsSound es (step app e w) ok_events.1 (step-IsSound e w ok_events.0 v)

  step-Stranded :
      (k : ℕ) (c : Call Msg) (e : Event App Msg) (w : World App Msg)
      → IsSound w
      → Stranded app k c w.ms
      → Stranded app k c (step app e w).ms
  unfolding step
  step-Stranded k c (sends u height) w v h =
      ground (arith, h, handle-Stranded app k c u height w.rest w.ms v.0 h)
  step-Stranded k c (ends height) w v h =
      let e = end_blocker-Ends app IsGood laws height w v in (e.4 k h.1 ∙ h.0, e.3 k h.1)
  step-Stranded k c (other f) w v h = h

  run-Stranded :
      (k : ℕ) (c : Call Msg) (es : List (Event App Msg)) (w : World App Msg)
      → All IsAllowed es
      → IsSound w
      → Stranded app k c w.ms
      → Stranded app k c (run app es w).ms
  unfolding run
  run-Stranded k c [] w ok_events v h = h
  run-Stranded k c (e ∷ es) w ok_events v h =
      run-Stranded k c es (step app e w) ok_events.1 (step-IsSound e w ok_events.0 v)
        (step-Stranded k c e w v h)

  dequeued :
      (c : Call Msg) (k : ℕ) (calls : Map (Call Msg)) (qs : List QueueItem)
      → lookup k calls ≡ some c
      → All (IsItem app calls) qs
      → elem k (ids (remove_call_from_queue k c.height qs)) ≡ false
  unfolding remove_call_from_queue
  dequeued c k calls [] e h = refl
  dequeued c k calls (q ∷ qs) e h = ground (arith, dequeued c k calls qs e h.1)

  revoked-Stranded :
      (c : Call Msg) (a : Address) (s : State Msg)
      → Inv app s
      → lookup c.id s.calls ≡ some c
      → recorded s c.id ≡ a ∷ []
      → can_be_voted c ≡ none
      → ((revoke_confirmation c.id a s).0 ≡ ok tt)
        × Stranded app c.id c (revoke_confirmation c.id a s).1
  unfolding revoke_confirmation
  revoked-Stranded c a s v e one open_call =
      rw (e, revoke_confirmation)
        (elim (revoke_vote_cases c a s e) [
          | inl (why, same, _) ↦ absurd (ground arith)
          | inr (inl (_, _, _, done)) ↦
              subst (λ r. (r.0 ≡ ok tt) × Stranded app c.id c r.1) (sym done)
                (refl, (e, dequeued c c.id s.calls s.queue e v.items))
          | inr (inr (_, _, many, _)) ↦ absurd (ground arith)
        ])

  -- If the only recorded confirmation of an undecided call is revoked, the revocation succeeds,
  -- and whatever messages, blocks and other transactions follow, the call stays as it is: it is
  -- never approved and never rejected, however many validators confirm it again.
  pub revoke_last_strands :
      (c : Call Msg) (a : Address) (w : World App Msg) (es : List (Event App Msg))
      → IsSound w
      → lookup c.id w.ms.calls ≡ some c
      → recorded w.ms c.id ≡ a ∷ []
      → can_be_voted c ≡ none
      → All IsAllowed es
      → let (r, ms) = revoke_confirmation c.id a w.ms in
        (r ≡ ok tt) × (lookup c.id (run app es (record w { ms = ms })).ms.calls ≡ some c)
  revoke_last_strands c a w es v e one open_call ok_events =
      let h = revoked-Stranded c a w.ms v.0 e one open_call in
      let ms = (revoke_confirmation c.id a w.ms).1 in
      (
        h.0,
        (run-Stranded c.id c es (record w { ms = ms }) ok_events
            (revoke_confirmation-Inv app c.id a w.ms v.0, v.1) h.1).0,
      )
