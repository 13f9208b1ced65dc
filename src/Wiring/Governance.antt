-- ===== src/Wiring/Governance.antt =====
-- app/app.go: the validator set and the confirmed calls of x/multisig that change it.
use blockchain_relay_layer.Base.{
  ltb→lt, not_ltb→le, ltb, ◌⊎◌, sym, ap, false, ◌∙◌, true, subst, ℕ, ◌*◌, ◌<◌, ◌≤◌, ◌≡◌, ◌≢◌, refl,
  Bool, some, length, arith, if◌then◌else◌, Bool-cases, inl, inr, ◌==◌,
}
use blockchain_relay_layer.Base.Map.{lookup-insert, lookup}
use blockchain_relay_layer.Base.Action.{is_ok, Result, ok, err, panic}
use blockchain_relay_layer.Poa.Keeper.{State, get_validators, get_enough_confirmations}
use blockchain_relay_layer.Poa.Types.{Error}
use blockchain_relay_layer.Multisig.Keeper.{get_call}
use blockchain_relay_layer.Multisig.Invariant.Settle.{enough_votes, process_active_lem}
use blockchain_relay_layer.Poa.Messages.{Msg, handle}
use blockchain_relay_layer.Poa.Invariant.Steps.{Inv}
use blockchain_relay_layer.Poa.Invariant.Methods.{Keeps, handle-Keeps}
use blockchain_relay_layer.Multisig.Types.{Name, Call}
use blockchain_relay_layer.Multisig.EndBlock.{
  World, Outcome, process_active, run_handler, execute_call, settle, finish,
}
use blockchain_relay_layer.Multisig.Invariant.Defs.{Laws}
use blockchain_relay_layer.Multisig.Invariant.Steps.{recorded}
use blockchain_relay_layer.Wiring.{poa_handler, poa_get_route, poa_interface, poa_route, as_text}

Keeps-panic : (r : Result Error (Unit {0}) × State) → Keeps r → (as_text r.0 ≢ panic) × Inv r.1
Keeps-panic (ok u, s) v = ((λ e. cc), v)
Keeps-panic (err e, s) v = ((λ e. cc), v)
Keeps-panic (panic, s) v = absurd v

routed :
    (n : Name) (h : Msg → State → Result Name (Unit {0}) × State)
    → poa_get_route n ≡ some h
    → poa_handler ≡ h
unfolding poa_get_route
routed n h e = elim (Bool-cases (n == poa_route)) [
  | inl yes_poa ↦ ground arith
  | inr not_poa ↦ ground arith
]

pub poa_laws : (id_before : ℕ → ℕ → Bool) → Laws (poa_interface id_before) Inv
unfolding poa_interface poa_handler
poa_laws id_before = record {
  no_panic = λ n h m a e v.
      subst (λ (f : Msg → State → Result Name (Unit {0}) × State). (f m a).0 ≢ panic) (routed n h e)
        (Keeps-panic (handle m a) (handle-Keeps m a v)).0;
  keeps = λ n h m a e v.
      subst (λ (f : Msg → State → Result Name (Unit {0}) × State). Inv (f m a).1) (routed n h e)
        (Keeps-panic (handle m a) (handle-Keeps m a v)).1;
}

module _ (id_before : ℕ → ℕ → Bool) where
  handled :
      (c : Call Msg) (id : ℕ) (w : World State Msg)
      → lookup id w.ms.calls ≡ some c
      → enough_votes (poa_interface id_before) id w ≡ true
      → process_active (poa_interface id_before) id w ≡ run_handler poa_handler c id w
  unfolding poa_interface poa_get_route execute_call get_call
  handled c id w l en =
      process_active_lem (poa_interface id_before) c id w l ∙ ground (arith, l, en)

  decided :
      (c : Call Msg) (id : ℕ) (w : World State Msg)
      → Keeps (handle c.msg w.rest)
      → c.id ≡ id
      → let w' = (run_handler poa_handler c id w).1 in
        (lookup id w'.ms.calls ≡ some (finish c (as_text (handle c.msg w.rest).0)))
        × (w'.rest ≡ (if is_ok (handle c.msg w.rest).0 then (handle c.msg w.rest).1 else w.rest))
  unfolding run_handler poa_handler settle
  decided c id w k i =
      ground
        (arith, k, i, lookup-insert c.id id (finish c (as_text (handle c.msg w.rest).0)) w.ms.calls)

  short_of :
      (id : ℕ) (w : World State Msg)
      → Inv w.rest
      → length (recorded w.ms id) < 65536
      → 2 * length (recorded w.ms id) ≤ length (get_validators w.rest)
      → enough_votes (poa_interface id_before) id w ≡ false
  unfolding poa_interface get_enough_confirmations
  short_of id w v few h = ground (arith, v.counted)

  reached :
      (id : ℕ) (w : World State Msg)
      → Inv w.rest
      → length (recorded w.ms id) < 65536
      → length (get_validators w.rest) < 2 * length (recorded w.ms id)
      → enough_votes (poa_interface id_before) id w ≡ true
  unfolding poa_interface get_enough_confirmations
  reached id w v few h = ground (arith, v.counted)

  -- One turn of the loop that executes confirmed calls, over the proof-of-authority module, for a
  -- call that is stored under its ID and has less than 65536 recorded confirmations. Either these
  -- are no strict majority of the listed validators, and nothing changes; or they are one, and the
  -- call is marked approved, and executed or failed as its message succeeds or not, and the
  -- validators change as the message asks if it succeeds, and not at all if it fails.
  pub process_active_majority :
      (c : Call Msg) (w : World State Msg)
      → Inv w.rest
      → lookup c.id w.ms.calls ≡ some c
      → length (recorded w.ms c.id) < 65536
      → let w' = (process_active (poa_interface id_before) c.id w).1 in
        ((2 * length (recorded w.ms c.id) ≤ length (get_validators w.rest)) × (w' ≡ w))
        ⊎ ((length (get_validators w.rest) < 2 * length (recorded w.ms c.id))
            × (lookup c.id w'.ms.calls ≡ some (finish c (as_text (handle c.msg w.rest).0)))
            × (w'.rest
                ≡ (if is_ok (handle c.msg w.rest).0 then (handle c.msg w.rest).1 else w.rest)))
  process_active_majority c w v l few =
      let n = length (recorded w.ms c.id) in
      elim (Bool-cases (ltb (length (get_validators w.rest)) (2 * n))) [
        | inr e ↦
            let h = not_ltb→le (length (get_validators w.rest)) (2 * n) e in
            inl (
              h,
              ap (λ r. r.1) (process_active_lem (poa_interface id_before) c c.id w l)
                  ∙ ground (arith, short_of c.id w v few h),
            )
        | inl e ↦
            let h = ltb→lt (length (get_validators w.rest)) (2 * n) e in
            let r =
              subst
                (λ (r : Outcome State Msg).
                  (lookup c.id r.1.ms.calls ≡ some (finish c (as_text (handle c.msg w.rest).0)))
                  × (r.1.rest ≡ (
                      if is_ok (handle c.msg w.rest).0 then (handle c.msg w.rest).1 else w.rest)))
                (sym (handled c c.id w l (reached c.id w v few h)))
                (decided c c.id w (handle-Keeps c.msg w.rest v) refl) in
            inr (h, r.0, r.1)
      ]
