-- ===== src/Poa/Invariant/Steps.antt =====
-- The invariant of the x/poa store, and what each method does to the list of validators.
use blockchain_relay_layer.Base.{
  subst, ◌≢◌, ℕ, ◌≤◌, ◌≡◌, inl, inr, Bool, true, none, some, List, [], ◌∷◌, ◌++◌, length,
  length-append, arith, Option-cases,
}
use blockchain_relay_layer.Base.Map.{lookup, lookup-insert, lookup-erase, insert, erase}
use blockchain_relay_layer.Base.Action.{Result, ok, err, panic}
use blockchain_relay_layer.Poa.Types.{
  Address, Error, Validator, validate, new_validator, default_max_validators,
}
use blockchain_relay_layer.Poa.Keeper.{
  State, get_validator_amount, get_validators, has_validator, add_validator_with,
  remove_validator_with, drop_address,
}
use blockchain_relay_layer.Poa.Invariant.Lookup.{
  find, AllDifferent, Drops, drop_address-Drops, find-append,
}

pub record Inv (s : State) : Type 0 where
  pub counted : get_validator_amount s ≡ length (get_validators s)
  pub different : AllDifferent (get_validators s)
  pub indexed : (a : Address) → lookup a s.validators ≡ find a (get_validators s)
  pub few : length (get_validators s) ≤ s.params.max_validators
  pub small : s.params.max_validators ≤ default_max_validators

-- The outcome of `addValidator`: the validator is appended, or nothing changes.
abbrev pub Adds : Address → List ℕ → Bool → State → Result Error (Unit {0}) × State → Type 0
Adds a eth limits s (ok _, s') =
    (get_validators s' ≡ get_validators s ++ new_validator a eth ∷ [])
    × (find a (get_validators s) ≡ none)
    × (validate (new_validator a eth) ≡ none)
    × (limits ≡ true → length (get_validators s') ≤ s.params.max_validators)
    × (s'.params ≡ s.params)
    × (get_validator_amount s' ≡ length (get_validators s'))
    × ((b : Address) → lookup b s'.validators ≡ find b (get_validators s'))
Adds a eth limits s (err e, s') = s' ≡ s
Adds a eth limits s (panic, s') = ⊥

add-indexed :
    (a b : Address) (eth : List ℕ) (s : State)
    → Inv s
    → find a (get_validators s) ≡ none
    → lookup b (insert a (new_validator a eth) s.validators)
      ≡ find b (get_validators s ++ new_validator a eth ∷ [])
add-indexed a b eth s v new = ground (
  arith,
  lookup-insert a b (new_validator a eth) s.validators,
  find-append b (get_validators s) (new_validator a eth ∷ []),
  v.indexed b,
)

pub add_validator_with-Adds :
    (a : Address) (eth : List ℕ) (limits : Bool) (s : State)
    → Inv s
    → Adds a eth limits s (add_validator_with a eth limits s)
unfolding add_validator_with has_validator get_validators get_validator_amount
add_validator_with-Adds a eth limits s v =
    let indexed =
      λ (b : Address) (h : find a (get_validators s) ≡ none). add-indexed a b eth s v h in
    ground
      (arith, v.indexed a, length-append (get_validators s) (new_validator a eth ∷ []), indexed)

-- The outcome of `removeValidator`: the first validator of the address leaves, or nothing changes.
abbrev pub Removes : Address → Bool → State → Result Error (Unit {0}) × State → Type 0
Removes a limits s (ok _, s') =
    (drop_address a (get_validators s) ≡ some (get_validators s'))
    × (find a (get_validators s) ≢ none)
    × (limits ≡ true → s.params.min_validators ≤ length (get_validators s'))
    × (s'.params ≡ s.params)
    × (get_validator_amount s' ≡ length (get_validators s'))
    × ((b : Address) → lookup b s'.validators ≡ find b (get_validators s'))
Removes a limits s (err e, s') = s' ≡ s
Removes a limits s (panic, s') = ⊥

remove-indexed :
    (a b : Address) (s : State) (r : List Validator)
    → Inv s
    → drop_address a (get_validators s) ≡ some r
    → lookup b (erase a s.validators) ≡ find b r
remove-indexed a b s r v e = ground (
  arith,
  lookup-erase a b s.validators,
  v.indexed b,
  (subst (Drops a (get_validators s)) e (drop_address-Drops a (get_validators s) v.different)).2 b,
)

pub remove_validator_with-Removes :
    (a : Address) (limits : Bool) (s : State)
    → Inv s
    → Removes a limits s (remove_validator_with a limits s)
unfolding remove_validator_with has_validator get_validators get_validator_amount
remove_validator_with-Removes a limits s v =
    elim (Option-cases (drop_address a (get_validators s))) [
      | inl e ↦ ground (
        arith,
        v.indexed a,
        subst (Drops a (get_validators s)) e (drop_address-Drops a (get_validators s) v.different),
      )
      | inr (r, e) ↦
          let dropped =
            subst (Drops a (get_validators s)) e
              (drop_address-Drops a (get_validators s) v.different) in
          let indexed = λ (b : Address). remove-indexed a b s r v e in
          ground (arith, v.indexed a, dropped.0, indexed)
    ]
