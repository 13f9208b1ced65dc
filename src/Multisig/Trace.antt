-- ===== src/Multisig/Trace.antt =====
-- Histories: the messages of users and the ends of blocks, one after another. A message that fails
-- leaves no trace, as the transaction that carries it is undone.
use blockchain_relay_layer.Base.{ℕ, List, [], ◌∷◌, if◌then◌else◌}
use blockchain_relay_layer.Base.Action.{is_ok}
use blockchain_relay_layer.Multisig.Types.{Interface}
use blockchain_relay_layer.Multisig.Handler.{UserMsg, handle}
use blockchain_relay_layer.Multisig.EndBlock.{World, end_blocker}

pub data Event (App Msg : Type 0) : Type 0 where
  sends : UserMsg Msg → ℕ → Event App Msg
  ends : ℕ → Event App Msg
  -- another module's transaction
  other : (App → App) → Event App Msg

module _ {App Msg : Type 0} (app : Interface App Msg) where
  unfoldable pub step : Event App Msg → World App Msg → World App Msg
  step (sends u height) w =
      let (r, ms) = handle app u height w.rest w.ms in if is_ok r then record w { ms = ms } else w
  step (ends height) w = (end_blocker app height w).1
  step (other f) w = record w { rest = f w.rest }

  unfoldable pub run : List (Event App Msg) → World App Msg → World App Msg
  run [] w = w
  run (e ∷ es) w = run es (step e w)
