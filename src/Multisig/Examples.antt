-- ===== src/Multisig/Examples.antt =====
-- A small application: its state is a number, and a message adds to it or fails.
use blockchain_relay_layer.Base.{
  ℕ, ◌+◌, ◌<◌, ◌≡◌, ◌≢◌, ◌⊎◌, refl, subst, List, [], ◌∷◌, ◌++◌, length, true, false, Option, some,
  none, ◌==◌, if◌then◌else◌, arith, ltb, leb, All, elem, Bool-cases, inl, inr, remove_first,
}
use blockchain_relay_layer.Base.Map.{insert_by, lookup}
use blockchain_relay_layer.Base.Action.{Result, ok, err, panic}
use blockchain_relay_layer.Multisig.Types.{Interface, Name, Call, can_be_voted, new_call}
use blockchain_relay_layer.Multisig.Calls.{submit_call, submit_new_call, dry_run}
use blockchain_relay_layer.Multisig.Keeper.{
  State, next_call_id, has_call_by_unique_id, create_call, store_call, get_call,
}
use blockchain_relay_layer.Multisig.Queue.{add_call_to_queue, remove_call_from_queue}
use blockchain_relay_layer.Multisig.Votes.{
  confirm_call, has_vote, store_vote, revoke_vote, set_votes, remove_votes, revoke_confirmation,
}
use blockchain_relay_layer.Multisig.Handler.{msg_submit_call, msg_confirm_call, handle}
use blockchain_relay_layer.Multisig.EndBlock.{World, end_blocker}
use blockchain_relay_layer.Multisig.Trace.{Event, sends, ends, step, run}
use blockchain_relay_layer.Multisig.Invariant.Defs.{Inv, Laws}
use blockchain_relay_layer.Multisig.Invariant.Steps.{recorded, store_vote_cases, revoke_vote_cases}
use blockchain_relay_layer.Multisig.Invariant.Submit.{handle-Inv}
use blockchain_relay_layer.Multisig.Invariant.Decisions.{Decided, end_blocker-Sound}
use blockchain_relay_layer.Multisig.Invariant.History.{
  run-IsSound, revoke_last_strands, IsAllowed, IsSound,
}

unfoldable counter : ℕ → ℕ → Result Name (Unit {0}) × ℕ
counter m a = if m == 0 then (err 5, a) else (ok tt, a + m)

unfoldable counter_route : Name → Option (ℕ → ℕ → Result Name (Unit {0}) × ℕ)
counter_route n = if n == 1 then some counter else none

abbrev counter_app : Interface ℕ ℕ
counter_app = record {
  route = λ m. 1;
  msg_type = λ m. 1;
  get_route = counter_route;
  has_validator = λ a who. leb who 3;
  get_enough_confirmations = λ a. 2;
  id_before = ltb;
}

abbrev IsPositive : ℕ → Type 0
IsPositive a = 0 < a

routed_counter :
    (n : Name) (h : ℕ → ℕ → Result Name (Unit {0}) × ℕ) → counter_route n ≡ some h → counter ≡ h
unfolding counter_route
routed_counter n h e = elim (Bool-cases (n == 1)) [
  | inl is_one ↦ ground arith
  | inr not_one ↦ ground arith
]

counter_no_panic : (m a : ℕ) → (counter m a).0 ≢ panic
unfolding counter
counter_no_panic m a = elim (Bool-cases (m == 0)) [
  | inl e ↦ rw e (λ x. cc)
  | inr e ↦ rw e (λ x. cc)
]

counter_positive : (m a : ℕ) → 0 < a → 0 < (counter m a).1
unfolding counter
counter_positive m a h = ground arith

counter_laws : Laws counter_app IsPositive
counter_laws = record {
  no_panic = λ n h m a e g.
      subst (λ (f : ℕ → ℕ → Result Name (Unit {0}) × ℕ). (f m a).0 ≢ panic) (routed_counter n h e)
        (counter_no_panic m a);
  keeps = λ n h m a e g.
      subst (λ (f : ℕ → ℕ → Result Name (Unit {0}) × ℕ). IsPositive (f m a).1)
        (routed_counter n h e) (counter_positive m a g);
}

abbrev no_calls : State ℕ
no_calls = record {
  calls = [];
  unique_ids = [];
  votes = [];
  queue = [];
  last_call_id = none;
  interval_to_execute = 20;
}

no_calls-Inv : Inv counter_app no_calls
unfolding lookup
no_calls-Inv = record {
  items = tt;
  once = tt;
  keyed = λ k. refl;
  fresh = λ k h. refl;
  unvoted = λ k h. refl;
  good = λ k. tt;
  named = λ n. refl;
}

abbrev empty_world : World ℕ ℕ
empty_world = record { ms = no_calls; rest = 1 }

abbrev proposed : Call ℕ
proposed = record {
  id = 0;
  unique_id = 7;
  creator = 1;
  approved = false;
  executed = false;
  failed = false;
  rejected = false;
  error = 0;
  msg = 3;
  msg_route = 1;
  msg_type = 1;
  height = 5;
}

abbrev one_call : State ℕ
one_call = record {
  calls = (0, proposed) ∷ [];
  unique_ids = (7, 0) ∷ [];
  votes = (0, 1 ∷ []) ∷ [];
  queue = record { block_height = 5; call_id = 0 } ∷ [];
  last_call_id = some 0;
  interval_to_execute = 20;
}

abbrev one_world : World ℕ ℕ
one_world = record { ms = one_call; rest = 1 }

abbrev submission : List (Event ℕ ℕ)
submission = sends (msg_submit_call (some 3) 7 1) 5 ∷ []

run-submission : run counter_app submission empty_world ≡ one_world
unfolding run step handle submit_call submit_new_call new_call next_call_id has_call_by_unique_id
    dry_run counter create_call store_call add_call_to_queue confirm_call get_call store_vote
    can_be_voted has_vote lookup insert_by counter_route
run-submission = refl

submission-IsAllowed : All (IsAllowed counter_app IsPositive counter_laws) submission
submission-IsAllowed = (tt, tt)

one_world-IsSound : IsSound counter_app IsPositive counter_laws one_world
one_world-IsSound = subst (IsSound counter_app IsPositive counter_laws) run-submission (
    run-IsSound counter_app IsPositive counter_laws submission empty_world submission-IsAllowed
      (no_calls-Inv, omega arith))

run-IsSound_example :
    IsSound counter_app IsPositive counter_laws (run counter_app submission empty_world)
run-IsSound_example =
    run-IsSound counter_app IsPositive counter_laws submission empty_world submission-IsAllowed
      (no_calls-Inv, omega arith)

handle-Inv_example : Inv counter_app (handle counter_app (msg_confirm_call 0 2) 6 1 one_call).1
handle-Inv_example = handle-Inv counter_app (msg_confirm_call 0 2) 6 1 one_call one_world-IsSound.0

proposed_stored : lookup 0 one_call.calls ≡ some proposed
unfolding lookup
proposed_stored = refl

end_blocker-Sound_example :
    ((end_blocker counter_app 9 one_world).0 ≡ ok tt)
    × Inv counter_app (end_blocker counter_app 9 one_world).1.ms
    × IsPositive (end_blocker counter_app 9 one_world).1.rest
    × Decided counter_app 9 one_world 0 proposed
        (lookup 0 (end_blocker counter_app 9 one_world).1.ms.calls)
end_blocker-Sound_example =
    end_blocker-Sound counter_app IsPositive counter_laws 9 one_world 0 proposed one_world-IsSound.0
      one_world-IsSound.1 proposed_stored

one_vote : recorded one_call 0 ≡ 1 ∷ []
unfolding lookup
one_vote = refl

undecided : can_be_voted proposed ≡ none
unfolding can_be_voted
undecided = refl

revoke_last_strands_example :
    let (r, ms) = revoke_confirmation 0 1 one_call in
    (r ≡ ok tt)
    × (lookup 0 (run counter_app (ends 200 ∷ []) (record one_world { ms = ms })).ms.calls
        ≡ some proposed)
revoke_last_strands_example =
    revoke_last_strands counter_app IsPositive counter_laws proposed 1 one_world (ends 200 ∷ [])
      one_world-IsSound proposed_stored one_vote undecided (tt, tt)

store_vote_cases_example :
    (((can_be_voted proposed ≢ none) ⊎ (elem 2 (recorded one_call 0) ≡ true))
      × (store_vote proposed 2 one_call ≡ ((store_vote proposed 2 one_call).0, one_call))
      × ((store_vote proposed 2 one_call).0 ≢ ok tt))
    ⊎ ((can_be_voted proposed ≡ none)
        × (elem 2 (recorded one_call 0) ≡ false)
        × (store_vote proposed 2 one_call
            ≡ (ok tt, set_votes 0 (recorded one_call 0 ++ 2 ∷ []) one_call)))
store_vote_cases_example = store_vote_cases proposed 2 one_call proposed_stored

revoke_vote_cases_example :
    (((can_be_voted proposed ≢ none) ⊎ (elem 1 (recorded one_call 0) ≡ false))
      × (revoke_vote proposed 1 one_call ≡ ((revoke_vote proposed 1 one_call).0, one_call))
      × ((revoke_vote proposed 1 one_call).0 ≢ ok tt))
    ⊎ (((can_be_voted proposed ≡ none)
          × (elem 1 (recorded one_call 0) ≡ true)
          × ((length (recorded one_call 0) == 1) ≡ true)
          × (revoke_vote proposed 1 one_call ≡ (
            ok tt,
            record (remove_votes 0 one_call) { queue = remove_call_from_queue 0 5 one_call.queue },
          )))
        ⊎ ((can_be_voted proposed ≡ none)
            × (elem 1 (recorded one_call 0) ≡ true)
            × ((length (recorded one_call 0) == 1) ≡ false)
            × (revoke_vote proposed 1 one_call
                ≡ (ok tt, set_votes 0 (remove_first 1 (recorded one_call 0)) one_call))))
revoke_vote_cases_example = revoke_vote_cases proposed 1 one_call proposed_stored
