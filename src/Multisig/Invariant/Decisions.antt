-- ===== src/Multisig/Invariant/Decisions.antt =====
-- x/multisig/abci.go: how the end of a block decides each call.
use blockchain_relay_layer.Base.{
  ==→eq, ltb, leb, ◌∙◌, ◌⊎◌, ℕ, ◌≡◌, refl, sym, ap, subst, true, false, Option, some, List, [], ◌∷◌,
  ◌++◌, ◌==◌, ◌&&◌, All, Distinct, elem, arith, Option-cases, Bool-cases, inl, inr,
}
use blockchain_relay_layer.Base.Map.{Map, lookup}
use blockchain_relay_layer.Base.Action.{Result, ok, err, panic}
use blockchain_relay_layer.Multisig.Types.{Interface, Call, Name}
use blockchain_relay_layer.Multisig.Queue.{QueueItem, queue_ids_start_end, queue_ids_till}
use blockchain_relay_layer.Multisig.EndBlock.{
  World, Outcome, start_height, process_actives, reject_late, end_blocker,
}
use blockchain_relay_layer.Multisig.Invariant.Defs.{Inv, IsItem, live, Laws}
use blockchain_relay_layer.Multisig.Invariant.QueueLaws.{queue_ids_start_end-Distinct}
use blockchain_relay_layer.Multisig.Invariant.Blocks
use blockchain_relay_layer.Multisig.Invariant.Turns.{
  turned, finished, enough_in, and_then_ok, process_actives-turned, reject_calls-exact,
}

split_at :
    (k : ℕ) (ks : List ℕ)
    → elem k ks ≡ true
    → (before : List ℕ) × (after : List ℕ) × (ks ≡ before ++ k ∷ after)
split_at k [] h = absurd (ground (arith, h))
split_at k (j ∷ ks) h = elim (Bool-cases (j == k)) [
  | inl e ↦ ([], ks, ap (λ (n : ℕ). n ∷ ks) (==→eq j k e))
  | inr e ↦
      let (before, after, same) = split_at k ks (ground (arith, e, h)) in
      (j ∷ before, after, ap (λ l. j ∷ l) same)
]

module _ {App Msg : Type 0} (app : Interface App Msg) where
  -- The calls that the first loop visits.
  abbrev pub window : ℕ → World App Msg → List ℕ
  window height w = queue_ids_start_end (start_height height w.ms) height w.ms.queue

  -- The state of the application at the turn of a call, after the calls before it.
  abbrev pub state_at : List ℕ → World App Msg → App
  state_at before w = (process_actives app before w).1.rest

  -- The second loop leaves a call, or rejects it if it is late.
  abbrev pub LeftOrLate : ℕ → Call Msg → Option (Call Msg) → Type 0
  LeftOrLate start c o =
      (o ≡ some c)
      ⊎ ((live app (some c) ≡ true)
          × (leb c.height start ≡ true)
          × (o ≡ some (record c { rejected = true })))

  -- A call of the window is waiting, and with enough confirmations in the state of its turn it is
  -- finished by what its handler returns there; without, and outside the window, it stays as it is,
  -- or was waiting, is not later than the start of the window, and is rejected.
  abbrev pub Decided : ℕ → World App Msg → ℕ → Call Msg → Option (Call Msg) → Type 0
  Decided height w id c o =
      ((before : List ℕ) × (after : List ℕ) × (window height w ≡ before ++ id ∷ after)
        × (live app (some c) ≡ true)
        × (((enough_in app (state_at before w) id w.ms ≡ true)
              × (o ≡ turned app true c (state_at before w)))
            ⊎ ((enough_in app (state_at before w) id w.ms ≡ false)
                × LeftOrLate (start_height height w.ms) c o)))
      ⊎ ((elem id (window height w) ≡ false) × LeftOrLate (start_height height w.ms) c o)

  late_height :
      (start id : ℕ) (calls : Map (Call Msg)) (qs : List QueueItem) (c : Call Msg)
      → All (IsItem app calls) qs
      → elem id (queue_ids_start_end 0 start qs) ≡ true
      → lookup id calls ≡ some c
      → (live app (some c) ≡ true) × (leb c.height start ≡ true)
  unfolding queue_ids_start_end
  late_height start id calls [] c v h l = absurd (ground (arith, h))
  late_height start id calls (q ∷ qs) c v h l =
      elim (Bool-cases (leb 0 q.block_height && leb q.block_height start)) [
        | inr e ↦ late_height start id calls qs c v.1 (ground (arith, e, h)) l
        | inl e ↦ elim (Bool-cases (q.call_id == id)) [
          | inr f ↦ late_height start id calls qs c v.1 (ground (arith, e, f, h)) l
          | inl f ↦
              let own : lookup q.call_id calls ≡ some c =
                ap (λ (n : ℕ). lookup n calls) (==→eq q.call_id id f) ∙ l in
              ground (arith, v.0, own, e)
        ]
      ]

  finished_not_live :
      (c : Call Msg) (r : Result Name (Unit {0})) → live app (some (finished c r)) ≡ false
  finished_not_live c (ok u) = refl
  finished_not_live c (err e) = refl
  finished_not_live c panic = refl

module _ {App Msg : Type 0} (app : Interface App Msg) (IsGood : App → Type 0)
    (laws : Laws app IsGood) where
  reject_late-LeftOrLate :
      (start id : ℕ) (c : Call Msg) (w : World App Msg)
      → Blocks.Sound app IsGood laws w
      → lookup id w.ms.calls ≡ some c
      → LeftOrLate app start c (lookup id (reject_late start w).1.ms.calls)
  unfolding reject_late queue_ids_till
  reject_late-LeftOrLate start id c w v l =
      let ks = queue_ids_start_end 0 start w.ms.queue in
      elim (Bool-cases (ltb w.ms.interval_to_execute start)) [
        | inr e ↦ inl (rw (e) l)
        | inl e ↦
            let exact =
              reject_calls-exact app IsGood laws ks id c w v
                (Blocks.queued_live app IsGood laws 0 start w.ms v.0)
                (queue_ids_start_end-Distinct 0 start w.ms.queue v.0.once) l in
            elim (Bool-cases (elem id ks)) [
              | inr f ↦ inl (rw (e) (exact ∙ rw (f) refl))
              | inl f ↦
                  let (lv, late) = late_height app start id w.ms.calls w.ms.queue c v.0.items f l in
                  inr (lv, late, rw (e) (exact ∙ rw (f) refl))
            ]
      ]

  module _ (height : ℕ) (w : World App Msg) (v : Blocks.Sound app IsGood laws w) where
    abbrev middle : World App Msg
    middle = (process_actives app (window app height w) w).1

    loops :
        Blocks.Loops app IsGood laws
          (window app height w)
          w
          (process_actives app (window app height w) w)
    loops =
        let start = start_height height w.ms in
        Blocks.process_actives-Loops app IsGood laws (window app height w) w v
          (Blocks.queued_live app IsGood laws start height w.ms v.0)
          (queue_ids_start_end-Distinct start height w.ms.queue v.0.once)

    abbrev final : ℕ → Option (Call Msg)
    final id = lookup id (end_blocker app height w).1.ms.calls

    final_lem :
        (id : ℕ) → final id ≡ lookup id (reject_late (start_height height w.ms) middle).1.ms.calls
    unfolding end_blocker
    final_lem id =
        ap (λ (r : Outcome App Msg). lookup id r.1.ms.calls)
          (and_then_ok (process_actives app (window app height w) w)
            (reject_late (start_height height w.ms)) loops.0)

    turn :
        (before after : List ℕ) (id : ℕ) (c : Call Msg)
        → window app height w ≡ before ++ id ∷ after
        → lookup id w.ms.calls ≡ some c
        → (live app (some c) ≡ true)
          × (lookup id middle.ms.calls
              ≡ turned app
                  (enough_in app (state_at app before w) id w.ms)
                  c
                  (state_at app before w))
    turn before after id c same l =
        let start = start_height height w.ms in
        let lives =
          subst (All (Blocks.LiveId app IsGood laws w.ms)) same
            (Blocks.queued_live app IsGood laws start height w.ms v.0) in
        let once =
          subst Distinct same (queue_ids_start_end-Distinct start height w.ms.queue v.0.once) in
        (
          subst (λ o. live app o ≡ true) l (at_middle before lives),
          ap (λ ks. lookup id (process_actives app ks w).1.ms.calls) same
              ∙ process_actives-turned app IsGood laws before id after c w v lives once l,
        )
      where
        at_middle :
            (xs : List ℕ)
            → All (Blocks.LiveId app IsGood laws w.ms) (xs ++ id ∷ after)
            → Blocks.LiveId app IsGood laws w.ms id
        at_middle [] h = h.0
        at_middle (x ∷ xs) h = at_middle xs h.1

    -- A call with enough confirmations at its turn is finished, and stays so.
    executed :
        (before after : List ℕ) (id : ℕ) (c : Call Msg)
        → window app height w ≡ before ++ id ∷ after
        → lookup id w.ms.calls ≡ some c
        → enough_in app (state_at app before w) id w.ms ≡ true
        → final id ≡ turned app true c (state_at app before w)
    executed before after id c same l enough =
        let a = state_at app before w in
        let (lv, t) = turn before after id c same l in
        elim (Option-cases (app.get_route (app.route c.msg))) [
          | inl gone ↦ absurd (ground (arith, gone, lv))
          | inr (h, found) ↦
              let done = finished c (h c.msg a).0 in
              let out : turned app true c a ≡ some done = rw (turned, found) refl in
              let mid : lookup id middle.ms.calls ≡ some done = t ∙ rw (enough) out in
              elim (reject_late-LeftOrLate (start_height height w.ms) id done middle loops.1 mid) [
                | inl kept ↦ final_lem id ∙ kept ∙ sym out
                | inr (lv', late, gone) ↦
                    absurd (ground (arith, lv', finished_not_live app c (h c.msg a).0))
              ]
        ]

    left_alone :
        (id : ℕ) (c : Call Msg)
        → lookup id middle.ms.calls ≡ some c
        → LeftOrLate app (start_height height w.ms) c (final id)
    left_alone id c mid =
        elim (reject_late-LeftOrLate (start_height height w.ms) id c middle loops.1 mid) [
          | inl kept ↦ inl (final_lem id ∙ kept)
          | inr (lv, late, out) ↦ inr (lv, late, final_lem id ∙ out)
        ]

    decided :
        (id : ℕ) (c : Call Msg)
        → lookup id w.ms.calls ≡ some c
        → Decided app height w id c (final id)
    decided id c l = elim (Bool-cases (elem id (window app height w))) [
      | inr out ↦ inr (out, left_alone id c (loops.5 id out ∙ l))
      | inl here ↦
          let (before, after, same) = split_at id (window app height w) here in
          let (lv, t) = turn before after id c same l in
          elim (Bool-cases (enough_in app (state_at app before w) id w.ms)) [
            | inr few ↦
                inl (before, after, same, lv, inr (few, left_alone id c (t ∙ rw (few) refl)))
            | inl enough ↦
                let out = executed before after id c same l enough in
                inl (before, after, same, lv, inl (enough, out))
          ]
    ]

  -- In a store that satisfies the invariant, if the handlers of the application do not panic in
  -- its good states and lead to good states, the end of a block returns without a panic or an
  -- error, and the invariant and the application's good state hold again. A stored call of the window
  -- is waiting; with enough confirmations in the state of the application at its turn, after the
  -- calls before it, it is approved, and executed or failed as its handler returns in that state.
  -- Without, and outside the window, it stays as it is, or is rejected, and then it was waiting and is
  -- not later than the start of the window.
  pub end_blocker-Sound :
      (height : ℕ) (w : World App Msg) (id : ℕ) (c : Call Msg)
      → Inv app w.ms
      → IsGood w.rest
      → lookup id w.ms.calls ≡ some c
      → ((end_blocker app height w).0 ≡ ok tt)
        × Inv app (end_blocker app height w).1.ms
        × IsGood (end_blocker app height w).1.rest
        × Decided app height w id c (lookup id (end_blocker app height w).1.ms.calls)
  end_blocker-Sound height w id c v g l =
      let e = Blocks.end_blocker-Ends app IsGood laws height w (v, g) in
      (e.0, e.1.0, e.1.1, decided height w (v, g) id c l)
