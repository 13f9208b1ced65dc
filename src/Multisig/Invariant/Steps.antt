-- ===== src/Multisig/Invariant/Steps.antt =====
-- x/multisig/internal/keeper/votes.go: confirmations and revocations.
use blockchain_relay_layer.Base.{
  ap, sym, ℕ, ◌≡◌, ◌≢◌, ◌⊎◌, refl, subst, true, false, Option, none, some, List, [], ◌∷◌, ◌++◌,
  ◌==◌, length, elem, remove_first, arith, Option-cases, inl, inr, Distinct-snoc, length-append,
  remove_first-Distinct, length-remove_first,
}
use blockchain_relay_layer.Base.Map.{lookup, lookup-insert, lookup-erase}
use blockchain_relay_layer.Base.Action.{Result, ok}
use blockchain_relay_layer.Multisig.Types.{Interface, Call, Address, Error, can_be_voted}
use blockchain_relay_layer.Multisig.Queue.{remove_call_from_queue}
use blockchain_relay_layer.Multisig.Keeper.{State, next_call_id, has_call}
use blockchain_relay_layer.Multisig.Votes.{
  set_votes, remove_votes, store_vote, revoke_vote, confirm_call, revoke_confirmation,
}
use blockchain_relay_layer.Multisig.Invariant.Defs.{Inv, GoodVotes, IsItem}
use blockchain_relay_layer.Multisig.Invariant.QueueLaws.{
  remove_call_from_queue-All, remove_call_from_queue-Distinct,
}

abbrev pub votes_in : Option (List Address) → List Address
votes_in none = []
votes_in (some votes) = votes

-- The addresses that have confirmed a call.
abbrev pub recorded : {Msg : Type 0} → State Msg → ℕ → List Address
recorded s id = votes_in (lookup id s.votes)

-- What the vote list of a call is after one more vote, or one less.
more-GoodVotes :
    (a : Address) (o : Option (List Address))
    → GoodVotes o
    → elem a (votes_in o) ≡ false
    → GoodVotes (some (votes_in o ++ a ∷ []))
more-GoodVotes a none g h = (omega arith, (refl, tt))
more-GoodVotes a (some votes) g h =
    (omega (arith, length-append votes (a ∷ [])), Distinct-snoc a votes g.1 h)

less-GoodVotes :
    (a : Address) (o : Option (List Address))
    → GoodVotes o
    → elem a (votes_in o) ≡ true
    → (length (votes_in o) == 1) ≡ false
    → GoodVotes (some (remove_first a (votes_in o)))
less-GoodVotes a none g h many = cc
less-GoodVotes a (some votes) g h many =
    (ground (arith, length-remove_first a votes h, g.0), remove_first-Distinct a votes g.1)

module _ {Msg : Type 0} where
  -- A confirmation of a stored call adds the address to the recorded ones, or is refused and
  -- changes nothing: the call was decided, or the address is recorded already.
  pub store_vote_cases :
      (c : Call Msg) (a : Address) (s : State Msg)
      → lookup c.id s.calls ≡ some c
      → (((can_be_voted c ≢ none) ⊎ (elem a (recorded s c.id) ≡ true))
          × (store_vote c a s ≡ ((store_vote c a s).0, s))
          × ((store_vote c a s).0 ≢ ok tt))
        ⊎ ((can_be_voted c ≡ none)
            × (elem a (recorded s c.id) ≡ false)
            × (store_vote c a s ≡ (ok tt, set_votes c.id (recorded s c.id ++ a ∷ []) s)))
  unfolding store_vote has_call
  store_vote_cases c a s e = elim (Option-cases (lookup c.id s.votes)) [
    | inl no_votes ↦ ground arith
    | inr (votes, some_votes) ↦ ground arith
  ]

  -- A revocation removes the address from the recorded ones, the last one together with the
  -- call's place in the queue, or is refused and changes nothing.
  pub revoke_vote_cases :
      (c : Call Msg) (a : Address) (s : State Msg)
      → lookup c.id s.calls ≡ some c
      → (((can_be_voted c ≢ none) ⊎ (elem a (recorded s c.id) ≡ false))
          × (revoke_vote c a s ≡ ((revoke_vote c a s).0, s))
          × ((revoke_vote c a s).0 ≢ ok tt))
        ⊎ (((can_be_voted c ≡ none)
              × (elem a (recorded s c.id) ≡ true)
              × ((length (recorded s c.id) == 1) ≡ true)
              × (revoke_vote c a s ≡ (
                ok tt,
                record (remove_votes c.id s) {
                  queue = remove_call_from_queue c.id c.height s.queue;
                },
              )))
            ⊎ ((can_be_voted c ≡ none)
                × (elem a (recorded s c.id) ≡ true)
                × ((length (recorded s c.id) == 1) ≡ false)
                × (revoke_vote c a s
                    ≡ (ok tt, set_votes c.id (remove_first a (recorded s c.id)) s))))
  unfolding revoke_vote has_call
  revoke_vote_cases c a s e = elim (Option-cases (lookup c.id s.votes)) [
    | inl no_votes ↦ ground arith
    | inr (votes, some_votes) ↦ ground arith
  ]

module _ {App Msg : Type 0} (app : Interface App Msg) where
  set_votes-Inv :
      (id : ℕ) (c : Call Msg) (votes : List Address) (s : State Msg)
      → Inv app s
      → lookup id s.calls ≡ some c
      → GoodVotes (some votes)
      → Inv app (set_votes id votes s)
  unfolding next_call_id
  set_votes-Inv id c votes s v e g = record {
    items = v.items;
    once = v.once;
    keyed = v.keyed;
    fresh = v.fresh;
    unvoted = λ k h. ground (arith, lookup-insert id k votes s.votes, v.unvoted k h, v.fresh k h);
    good = λ k. ground (arith, lookup-insert id k votes s.votes, v.good k, g);
    named = v.named;
  }

  drop_votes-Inv :
      (id height : ℕ) (s : State Msg)
      → Inv app s
      → Inv app (record (remove_votes id s) { queue = remove_call_from_queue id height s.queue })
  unfolding next_call_id
  drop_votes-Inv id height s v = record {
    items = remove_call_from_queue-All (IsItem app s.calls) id height s.queue v.items;
    once = remove_call_from_queue-Distinct id height s.queue v.once;
    keyed = v.keyed;
    fresh = v.fresh;
    unvoted = λ k h. ground (arith, lookup-erase id k s.votes, v.unvoted k h);
    good = λ k. ground (arith, lookup-erase id k s.votes, v.good k);
    named = v.named;
  }

  abbrev Keeps : Result Error (Unit {0}) × State Msg → Type 0
  Keeps r = Inv app r.1

  store_vote-Inv :
      (c : Call Msg) (a : Address) (s : State Msg)
      → Inv app s
      → lookup c.id s.calls ≡ some c
      → Inv app (store_vote c a s).1
  store_vote-Inv c a s v e = elim (store_vote_cases c a s e) [
    | inl same ↦ subst (Inv app) (sym (ap (λ r. r.1) same.1)) v
    | inr (_, new, done) ↦ subst (Inv app) (sym (ap (λ r. r.1) done)) (
        set_votes-Inv c.id c (recorded s c.id ++ a ∷ []) s v e
          (more-GoodVotes a (lookup c.id s.votes) (v.good c.id) new))
  ]

  revoke_vote-Inv :
      (c : Call Msg) (a : Address) (s : State Msg)
      → Inv app s
      → lookup c.id s.calls ≡ some c
      → Inv app (revoke_vote c a s).1
  revoke_vote-Inv c a s v e = elim (revoke_vote_cases c a s e) [
    | inl same ↦ subst (Inv app) (sym (ap (λ r. r.1) same.1)) v
    | inr (inl (_, old, last, done)) ↦
        subst (Inv app) (sym (ap (λ r. r.1) done)) (drop_votes-Inv c.id c.height s v)
    | inr (inr (_, old, many, done)) ↦ subst (Inv app) (sym (ap (λ r. r.1) done)) (
        set_votes-Inv c.id c (remove_first a (recorded s c.id)) s v e
          (less-GoodVotes a (lookup c.id s.votes) (v.good c.id) old many))
  ]

  pub keyed_lem :
      (k : ℕ) (c : Call Msg) (s : State Msg)
      → Inv app s
      → lookup k s.calls ≡ some c
      → lookup c.id s.calls ≡ some c
  keyed_lem k c s v e = ground (arith, v.keyed k)

  pub confirm_call-Inv :
      (id : ℕ) (a : Address) (s : State Msg) → Inv app s → Inv app (confirm_call id a s).1
  unfolding confirm_call
  confirm_call-Inv id a s v = elim (Option-cases (lookup id s.calls)) [
    | inl missing ↦ rw (missing, confirm_call) v
    | inr (c, e) ↦ rw (e, confirm_call) (store_vote-Inv c a s v (keyed_lem id c s v e))
  ]

  pub revoke_confirmation-Inv :
      (id : ℕ) (a : Address) (s : State Msg) → Inv app s → Inv app (revoke_confirmation id a s).1
  unfolding revoke_confirmation
  revoke_confirmation-Inv id a s v = elim (Option-cases (lookup id s.calls)) [
    | inl missing ↦ rw (missing, revoke_confirmation) v
    | inr (c, e) ↦ rw (e, revoke_confirmation) (revoke_vote-Inv c a s v (keyed_lem id c s v e))
  ]
