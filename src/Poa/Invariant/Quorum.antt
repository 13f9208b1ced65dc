-- ===== src/Poa/Invariant/Quorum.antt =====
-- How many confirmations are enough.
use blockchain_relay_layer.Base.{◌+◌, ◌*◌, ◌≤◌, ◌<◌, length, arith}
use blockchain_relay_layer.Poa.Keeper.{State, get_enough_confirmations, get_validators}
use blockchain_relay_layer.Poa.Invariant.Steps.{Inv}

-- In a valid state with at least one validator the required number of confirmations is a strict
-- majority of the listed validators, the least one, and the validators together can reach it.
pub get_enough_confirmations_majority :
    (s : State)
    → Inv s
    → 0 < length (get_validators s)
    → (length (get_validators s) < 2 * get_enough_confirmations s)
      × (2 * get_enough_confirmations s ≤ length (get_validators s) + 2)
      × (get_enough_confirmations s ≤ length (get_validators s))
unfolding get_enough_confirmations
get_enough_confirmations_majority s v some_one = omega (arith, v.counted)
