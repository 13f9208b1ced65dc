-- ===== src/Wiring/Examples.antt =====
-- Three validators, of whom two have confirmed the removal of the third.
use blockchain_relay_layer.Base.{
  ◌*◌, ◌≤◌, ◌<◌, ◌≡◌, ◌⊎◌, refl, [], ◌∷◌, length, false, some, if◌then◌else◌, arith, ltb,
}
use blockchain_relay_layer.Base.Map.{lookup}
use blockchain_relay_layer.Base.Action.{is_ok}
use blockchain_relay_layer.Poa.Keeper.{get_validators}
use blockchain_relay_layer.Poa.Keeper
use blockchain_relay_layer.Poa.Messages.{Msg, msg_remove_validator, handle}
use blockchain_relay_layer.Poa.Examples.{three, three-Inv}
use blockchain_relay_layer.Multisig.Types.{Call}
use blockchain_relay_layer.Multisig.Keeper.{State}
use blockchain_relay_layer.Multisig.EndBlock.{World, process_active, finish}
use blockchain_relay_layer.Multisig.Invariant.Steps.{recorded}
use blockchain_relay_layer.Wiring.{poa_interface, as_text}
use blockchain_relay_layer.Wiring.Governance.{process_active_majority}

abbrev removal : Call Msg
removal = record {
  id = 4;
  unique_id = 7;
  creator = 1;
  approved = false;
  executed = false;
  failed = false;
  rejected = false;
  error = 0;
  msg = msg_remove_validator 3 1;
  msg_route = 1;
  msg_type = 2;
  height = 5;
}

abbrev one_removal : State Msg
one_removal = record {
  calls = (4, removal) ∷ [];
  unique_ids = (7, 4) ∷ [];
  votes = (4, 1 ∷ 2 ∷ []) ∷ [];
  queue = record { block_height = 5; call_id = 4 } ∷ [];
  last_call_id = some 4;
  interval_to_execute = 20;
}

abbrev removal_world : World Keeper.State Msg
removal_world = record { ms = one_removal; rest = three }

removal_stored : lookup 4 removal_world.ms.calls ≡ some removal
unfolding lookup
removal_stored = refl

few_votes : length (recorded one_removal 4) < 65536
unfolding lookup
few_votes = omega arith

process_active_majority_example :
    let w' = (process_active (poa_interface ltb) 4 removal_world).1 in
    ((2 * length (recorded one_removal 4) ≤ length (get_validators three)) × (w' ≡ removal_world))
    ⊎ ((length (get_validators three) < 2 * length (recorded one_removal 4))
        × (lookup 4 w'.ms.calls ≡ some (finish removal (as_text (handle removal.msg three).0)))
        × (w'.rest
            ≡ (if is_ok (handle removal.msg three).0 then (handle removal.msg three).1 else three)))
process_active_majority_example =
    process_active_majority ltb removal removal_world three-Inv removal_stored few_votes
