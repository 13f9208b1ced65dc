-- ===== src/Multisig/Invariant/Turns.antt =====
-- x/multisig/abci.go: what each loop of `EndBlocker` does with one call.
use blockchain_relay_layer.Base.{
  ==→eq, ◌∙◌, ℕ, ◌%◌, ◌≡◌, ◌≢◌, refl, sym, ap, subst, Bool, true, false, Option, none, some, List,
  [], ◌∷◌, ◌++◌, ◌==◌, leb, if◌then◌else◌, All, Distinct, elem, length, arith, Option-cases,
  Bool-cases, inl, inr,
}
use blockchain_relay_layer.Base.Map.{lookup}
use blockchain_relay_layer.Base.Action.{Result, ok, err, panic, and_then}
use blockchain_relay_layer.Multisig.Types.{Interface, Call, Name}
use blockchain_relay_layer.Multisig.Keeper.{State, get_call}
use blockchain_relay_layer.Multisig.EndBlock.{
  World, Outcome, finish, settle, run_handler, execute_call, process_active, process_actives,
  reject_call, reject_calls,
}
use blockchain_relay_layer.Multisig.Invariant.Defs.{live, Laws}
use blockchain_relay_layer.Multisig.Invariant.Steps.{recorded, votes_in}
use blockchain_relay_layer.Multisig.Invariant.Settle
use blockchain_relay_layer.Multisig.Invariant.Blocks

elem_middle :
    (j : ℕ) (before : List ℕ) (id : ℕ) (after : List ℕ)
    → elem j (before ++ id ∷ after) ≡ false
    → (j == id) ≡ false
elem_middle j [] id after h = ground (arith, h)
elem_middle j (k ∷ before) id after h = elem_middle j before id after (ground (arith, h))

-- What the outcome of a handler makes of an approved call.
abbrev pub finished : {Msg : Type 0} → Call Msg → Result Name (Unit {0}) → Call Msg
finished c (ok _) = record c { approved = true; executed = true }
finished c (err e) = record c { approved = true; failed = true; error = e }
finished c panic = record c { approved = true }

module _ {App Msg : Type 0} (app : Interface App Msg) where
  -- A call after its turn, where it has enough confirmations or not.
  abbrev pub turned : Bool → Call Msg → App → Option (Call Msg)
  turned false c a = some c
  turned true c a = elim (app.get_route (app.route c.msg)) [
    | none ↦ some c
    | some h ↦ some (finished c (h c.msg a).0)
  ]

  -- Whether the confirmations of a call are enough in a state of the application.
  abbrev pub enough_in : App → ℕ → State Msg → Bool
  enough_in a id s = leb (app.get_enough_confirmations a) (length (recorded s id) % 65536)

pub and_then_ok :
    {App Msg : Type 0} (r : Outcome App Msg) (k : World App Msg → Outcome App Msg)
    → r.0 ≡ ok tt
    → and_then r (λ _. k) ≡ k r.1
and_then_ok (ok u, w) k h = refl
and_then_ok (err e, w) k h = absurd (ground (arith, h))
and_then_ok (panic, w) k h = absurd (ground (arith, h))

module _ {App Msg : Type 0} (app : Interface App Msg) (IsGood : App → Type 0)
    (laws : Laws app IsGood) where
  run_handler-turned :
      (h : Msg → App → Result Name (Unit {0}) × App) (c : Call Msg) (id : ℕ) (w : World App Msg)
      → c.id ≡ id
      → (h c.msg w.rest).0 ≢ panic
      → lookup id (run_handler h c id w).1.ms.calls ≡ some (finished c (h c.msg w.rest).0)
  unfolding run_handler
  run_handler-turned h c id w i ne = go (h c.msg w.rest).0 ne
    where
      go :
          (r : Result Name (Unit {0}))
          → r ≢ panic
          → lookup id (
              (elim r as (λ _. Outcome App Msg) [
                | ok _ ↦ (
                  ok tt,
                  record { ms = settle (finish c (ok tt)) id w.ms; rest = (h c.msg w.rest).1 },
                )
                | err e ↦ (ok tt, record w { ms = settle (finish c (err e)) id w.ms })
                | panic ↦ (panic, w)
              ]).1.ms.calls)
            ≡ some (finished c r)
      go (ok u) n = Settle.settle_self app IsGood laws (finish c (ok tt)) id w.ms i
      go (err e) n = Settle.settle_self app IsGood laws (finish c (err e)) id w.ms i
      go panic n = absurd (n refl)

  process_active-turned :
      (c : Call Msg) (id : ℕ) (w : World App Msg)
      → Blocks.Sound app IsGood laws w
      → lookup id w.ms.calls ≡ some c
      → live app (some c) ≡ true
      → lookup id (process_active app id w).1.ms.calls
        ≡ turned app (enough_in app w.rest id w.ms) c w.rest
  unfolding execute_call get_call
  process_active-turned c id w v l lv =
      ap (λ (r : Outcome App Msg). lookup id r.1.ms.calls) (Settle.process_active_lem app c id w l)
      ∙ go (enough_in app w.rest id w.ms)
    where
      go :
          (b : Bool)
          → lookup id ((if b then execute_call app id w else (ok tt, w)).1.ms.calls)
            ≡ turned app b c w.rest
      go false = l
      go true = elim (Option-cases (app.get_route (app.route c.msg))) [
        | inl gone ↦ absurd (ground (arith, gone, lv))
        | inr (h, found) ↦
            let at : c.id ≡ id = ground (arith, v.0.keyed id, l) in
            let ran : lookup id (execute_call app id w).1.ms.calls
                ≡ some (finished c (h c.msg w.rest).0) =
              rw (l, execute_call, get_call)
                (rw (found, execute_call)
                  (run_handler-turned h c id w at
                    (laws.no_panic (app.route c.msg) h c.msg w.rest found v.1))) in
            let out : turned app true c w.rest ≡ some (finished c (h c.msg w.rest).0) =
              rw (turned, found) refl in
            ran ∙ sym out
      ]

  -- A call of the list is decided in the state that the calls before it have left.
  pub process_actives-turned :
      (before : List ℕ) (id : ℕ) (after : List ℕ) (c : Call Msg) (w : World App Msg)
      → Blocks.Sound app IsGood laws w
      → All (Blocks.LiveId app IsGood laws w.ms) (before ++ id ∷ after)
      → Distinct (before ++ id ∷ after)
      → lookup id w.ms.calls ≡ some c
      → let a = (process_actives app before w).1.rest in
        lookup id (process_actives app (before ++ id ∷ after) w).1.ms.calls
        ≡ turned app (enough_in app a id w.ms) c a
  unfolding process_actives
  process_actives-turned [] id after c w v h d l =
      let lv : live app (some c) ≡ true = subst (λ o. live app o ≡ true) l h.0 in
      let st = Settle.process_active-Steps app IsGood laws c id w v l lv in
      let w' = (process_active app id w).1 in
      let rest =
        Blocks.process_actives-Loops app IsGood laws after w' st.1
          (Blocks.still_live app IsGood laws w.ms w'.ms id after d.0 st.2 h.1) d.1 in
      ap (λ (r : Outcome App Msg). lookup id r.1.ms.calls)
        (and_then_ok (process_active app id w) (process_actives app after) st.0)
      ∙ rest.5 id d.0
      ∙ process_active-turned c id w v l lv
  process_actives-turned (j ∷ before) id after c w v h d l =
      elim (Option-cases (lookup j w.ms.calls)) [
        | inl gone ↦ absurd (ground (arith, gone, h.0))
        | inr (b, found) ↦
            let lv : live app (some b) ≡ true = subst (λ o. live app o ≡ true) found h.0 in
            let st = Settle.process_active-Steps app IsGood laws b j w v found lv in
            let w' = (process_active app j w).1 in
            let rest = before ++ id ∷ after in
            let same : lookup id w'.ms.calls ≡ some c =
              st.2 id (elem_middle j before id after d.0) ∙ l in
            let step : (ks : List ℕ) → process_actives app (j ∷ ks) w ≡ process_actives app ks w' =
              λ ks. and_then_ok (process_active app j w) (process_actives app ks) st.0 in
            let voted : recorded w'.ms id ≡ recorded w.ms id =
              ap (λ v. votes_in (lookup id v)) st.3 in
            let turn =
              process_actives-turned before id after c w' st.1
                (Blocks.still_live app IsGood laws w.ms w'.ms j rest d.0 st.2 h.1) d.1 same in
            rw (step rest, step before, sym voted) turn
      ]

  reject_call_self :
      (c : Call Msg) (id : ℕ) (w : World App Msg)
      → Blocks.Sound app IsGood laws w
      → lookup id w.ms.calls ≡ some c
      → lookup id (reject_call id w).1.ms.calls ≡ some (record c { rejected = true })
  unfolding reject_call get_call
  reject_call_self c id w v l =
      let at : c.id ≡ id = ground (arith, v.0.keyed id, l) in
      rw (l, reject_call, get_call)
        (Settle.settle_self app IsGood laws (record c { rejected = true }) id w.ms at)

  -- A call of the list is rejected, and no other.
  pub reject_calls-exact :
      (ks : List ℕ) (id : ℕ) (c : Call Msg) (w : World App Msg)
      → Blocks.Sound app IsGood laws w
      → All (Blocks.LiveId app IsGood laws w.ms) ks
      → Distinct ks
      → lookup id w.ms.calls ≡ some c
      → lookup id (reject_calls ks w).1.ms.calls
        ≡ (if elem id ks then some (record c { rejected = true }) else some c)
  unfolding reject_calls
  reject_calls-exact [] id c w v h d l = l
  reject_calls-exact (k ∷ ks) id c w v h d l = elim (Option-cases (lookup k w.ms.calls)) [
    | inl gone ↦ absurd (ground (arith, gone, h.0))
    | inr (b, found) ↦
        let lv : live app (some b) ≡ true = subst (λ o. live app o ≡ true) found h.0 in
        let st = Blocks.reject_call-Steps app IsGood laws b k w v found lv in
        let w' = (reject_call k w).1 in
        let live' = Blocks.still_live app IsGood laws w.ms w'.ms k ks d.0 st.2 h.1 in
        let step =
          ap (λ (r : Outcome App Msg). lookup id r.1.ms.calls)
            (and_then_ok (reject_call k w) (reject_calls ks) st.0) in
        step ∙ (elim (Bool-cases (k == id)) [
          | inr e ↦ rw (e) (reject_calls-exact ks id c w' st.1 live' d.1 (st.2 id e ∙ l))
          | inl e ↦
              let at : k ≡ id = ==→eq k id e in
              let own : lookup k w.ms.calls ≡ some c = ap (λ (n : ℕ). lookup n w.ms.calls) at ∙ l in
              let kept = (Blocks.reject_calls-Loops app IsGood laws ks w' st.1 live' d.1).5 k d.0 in
              let here : lookup k (reject_calls ks w').1.ms.calls
                  ≡ some (record c { rejected = true }) =
                kept ∙ reject_call_self c k w v own in
              rw (e) (ap (λ (n : ℕ). lookup n (reject_calls ks w').1.ms.calls) (sym at) ∙ here)
        ])
  ]
