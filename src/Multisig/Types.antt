-- ===== src/Multisig/Types.antt =====
-- x/multisig/internal/types: calls, votes, parameters and errors.
use blockchain_relay_layer.Base.{ℕ, Bool, false, Option, none, some, ◌==◌, if◌then◌else◌}
use blockchain_relay_layer.Base.Action.{Result, ok, err}

-- A text that the code only compares: 0 is the empty one.
abbrev pub Name : Type 0
Name = ℕ

abbrev pub Address : Type 0
Address = ℕ

pub data Error : Type 0 where
  wrong_msg wrong_msg_route wrong_msg_type wrong_call_id wrong_call_unique_id : Error
  invalid_address poa_not_validator : Error
  vote_already_approved vote_already_rejected vote_already_confirmed vote_not_approved : Error
  handler_error : Name → Error

-- The rest of the application, as this module sees it: `App` is its store, `Msg` its messages.
-- `id_before` is the byte order of the decimal texts of two IDs.
pub record Interface (App Msg : Type 0) : Type 0 where
  pub route : Msg → Name
  pub msg_type : Msg → Name
  pub get_route : Name → Option (Msg → App → Result Name (Unit {0}) × App)
  pub has_validator : App → Address → Bool
  pub get_enough_confirmations : App → ℕ
  pub id_before : ℕ → ℕ → Bool

pub record Call (Msg : Type 0) : Type 0 where
  pub id : ℕ
  pub unique_id : Name
  pub creator : Address
  pub approved : Bool
  pub executed : Bool
  pub failed : Bool
  pub rejected : Bool
  pub error : Name
  pub msg : Msg
  pub msg_route : Name
  pub msg_type : Name
  pub height : ℕ

-- `CanBeVoted`, `none` for nil
unfoldable pub can_be_voted : {Msg : Type 0} → Call Msg → Option Error
can_be_voted c =
    if c.approved
    then some vote_already_approved
    else if c.rejected
    then some vote_already_rejected
    else none

abbrev pub min_interval_to_execute : ℕ
min_interval_to_execute = 10

module _ {App Msg : Type 0} (app : Interface App Msg) where
  -- The call that `NewCall` returns where nothing is wrong.
  abbrev pub fresh_call : ℕ → Name → Msg → ℕ → Address → Call Msg
  fresh_call id unique_id msg height creator = record {
    id = id;
    unique_id = unique_id;
    creator = creator;
    approved = false;
    executed = false;
    failed = false;
    rejected = false;
    error = 0;
    msg = msg;
    msg_route = app.route msg;
    msg_type = app.msg_type msg;
    height = height;
  }

  -- `NewCall`. An ID is a number here, so that its check against a nil pointer always passes.
  unfoldable pub new_call : ℕ → Name → Option Msg → ℕ → Address → Result Error (Call Msg)
  new_call id unique_id msg height creator = elim msg [
    | none ↦ err wrong_msg
    | some m ↦
        if app.route m == 0
        then err wrong_msg_route
        else if app.msg_type m == 0
        then err wrong_msg_type
        else if unique_id == 0
        then err wrong_call_unique_id
        else if creator == 0
        then err invalid_address
        else ok (fresh_call id unique_id m height creator)
  ]
