-- ===== src/Multisig/Votes.antt =====
-- x/multisig/internal/keeper/votes.go: confirmations of a call and their revocation.
use blockchain_relay_layer.Base.{
  ℕ, Bool, Option, none, some, List, [], ◌∷◌, ◌++◌, ◌==◌, if◌then◌else◌, length, elem, remove_first,
}
use blockchain_relay_layer.Base.Map.{lookup, insert, erase}
use blockchain_relay_layer.Base.Action.{Result, ok, err, panic, Action}
use blockchain_relay_layer.Multisig.Types.{
  Address, Call, Error, can_be_voted, wrong_call_id, vote_already_confirmed, vote_not_approved,
}
use blockchain_relay_layer.Multisig.Queue.{remove_call_from_queue}
use blockchain_relay_layer.Multisig.Keeper.{State, has_call, get_call}

module _ {Msg : Type 0} where
  -- `HasVote`: `none` stands for `ErrVoteNoVotes`.
  unfoldable pub has_vote : State Msg → ℕ → Address → Option Bool
  has_vote s id address = elim (lookup id s.votes) [
    | none ↦ none
    | some votes ↦ some (elem address votes)
  ]

  unfoldable pub get_votes : State Msg → ℕ → Result Error (List Address)
  unfolding has_call
  get_votes s id =
      if has_call s id
      then elim (lookup id s.votes) [ none ↦ ok [] | some votes ↦ ok votes ]
      else err wrong_call_id

  -- `votes, _ := k.GetVotes(ctx, id)`
  abbrev pub votes_of : State Msg → ℕ → List Address
  votes_of s id = elim (get_votes s id) [ ok votes ↦ votes | err e ↦ [] | panic ↦ [] ]

  unfoldable pub get_confirmations_count : State Msg → ℕ → Result Error ℕ
  get_confirmations_count s id = elim (get_votes s id) [
    | ok votes ↦ ok (length votes)
    | err e ↦ err e
    | panic ↦ panic
  ]

  abbrev pub set_votes : ℕ → List Address → State Msg → State Msg
  set_votes id votes s = record s { votes = insert id votes s.votes }

  abbrev pub remove_votes : ℕ → State Msg → State Msg
  remove_votes id s = record s { votes = erase id s.votes }

  -- `storeVote`
  unfoldable pub store_vote : Call Msg → Address → Action (State Msg) Error (Unit {0})
  unfolding has_vote get_votes can_be_voted
  store_vote c address s = elim (can_be_voted c) [
    | some e ↦ (err e, s)
    | none ↦ elim (has_vote s c.id address) [
      | none ↦ (ok tt, set_votes c.id (address ∷ []) s)
      | some voted ↦
          if voted
          then (err vote_already_confirmed, s)
          else (ok tt, set_votes c.id (votes_of s c.id ++ address ∷ []) s)
    ]
  ]

  -- `revokeVote`
  unfoldable pub revoke_vote : Call Msg → Address → Action (State Msg) Error (Unit {0})
  unfolding has_vote get_votes can_be_voted
  revoke_vote c address s = elim (can_be_voted c) [
    | some e ↦ (err e, s)
    | none ↦ elim (has_vote s c.id address) [
      | none ↦ (err vote_not_approved, s)
      | some voted ↦
          if voted
          then if length (votes_of s c.id) == 1
            then (
              ok tt,
              record (remove_votes c.id s) { queue = remove_call_from_queue c.id c.height s.queue },
            )
            else (ok tt, set_votes c.id (remove_first address (votes_of s c.id)) s)
          else (err vote_not_approved, s)
    ]
  ]

  -- `ConfirmCall`
  unfoldable pub confirm_call : ℕ → Address → Action (State Msg) Error (Unit {0})
  unfolding get_call
  confirm_call id address s = elim (get_call s id) [
    | ok c ↦ store_vote c address s
    | err e ↦ (err e, s)
    | panic ↦ (panic, s)
  ]

  -- `RevokeConfirmation`
  unfoldable pub revoke_confirmation : ℕ → Address → Action (State Msg) Error (Unit {0})
  unfolding get_call
  revoke_confirmation id address s = elim (get_call s id) [
    | ok c ↦ revoke_vote c address s
    | err e ↦ (err e, s)
    | panic ↦ (panic, s)
  ]
