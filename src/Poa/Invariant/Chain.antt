-- ===== src/Poa/Invariant/Chain.antt =====
-- x/poa: genesis states, taken and exported.
use mathlib.Core.List.{append-nil, append_assoc}
use blockchain_relay_layer.Base.{
  ap, sym, ◌∙◌, ◌↔◌, ℕ, suc, ◌+◌, ◌≤◌, ◌≡◌, refl, true, false, none, List, [], ◌∷◌, ◌++◌, length,
  length-append, arith, elem,
}
use blockchain_relay_layer.Base.Map.{lookup-empty}
use blockchain_relay_layer.Base.Action.{Result, ok, err, panic}
use blockchain_relay_layer.Poa.Types.{Address, Error, Validator, Params, validate, valid_params}
use blockchain_relay_layer.Poa.Keeper.{
  State, get_validators, get_validator_amount, add_validator, add_validator_with, has_validator,
}
use blockchain_relay_layer.Poa.Genesis.{
  GenesisState, validate_validators, validate_genesis, init_validators, init_genesis,
  export_genesis,
}
use blockchain_relay_layer.Poa.Invariant.Lookup.{find-append, find}
use blockchain_relay_layer.Poa.Invariant.Steps.{Inv, Adds, add_validator_with-Adds}
use blockchain_relay_layer.Poa.Invariant.Methods.{add-Inv}

-- The module's store before genesis.
abbrev pub empty_state : Params → State
empty_state p = record { validators = []; list = none; count = none; params = p }

empty_state-Inv : (p : Params) → p.max_validators ≤ 11 → Inv (empty_state p)
unfolding get_validators get_validator_amount
empty_state-Inv p h = record {
  counted = refl;
  different = tt;
  indexed = λ a. lookup-empty a;
  few = omega arith;
  small = h;
}

add_validator_succeeds :
    (v : Validator) (s : State)
    → Inv s
    → validate v ≡ none
    → find v.address (get_validators s) ≡ none
    → suc (length (get_validators s)) ≤ s.params.max_validators
    → (add_validator v.address v.eth_address s).0 ≡ ok tt
unfolding add_validator add_validator_with has_validator
add_validator_succeeds v s i valid new room =
    ground (arith, i.indexed v.address, i.counted, i.small)

-- The set of addresses met so far is that of the validators added so far.
abbrev Met : List ℕ → State → Type 0
Met seen s = (a : Address) → (elem a seen ≡ false) ↔ (find a (get_validators s) ≡ none)

Met-cons :
    (v : Validator) (seen : List ℕ) (s s' : State)
    → Met seen s
    → get_validators s' ≡ get_validators s ++ v ∷ []
    → Met (v.address ∷ seen) s'
Met-cons v seen s s' m e a = (
  ground (arith, e, find-append a (get_validators s) (v ∷ []), (m a).0),
  ground (arith, e, find-append a (get_validators s) (v ∷ []), (m a).1),
)

-- A run of `InitGenesis` from `s` that appends `vs`.
abbrev Appends : List Validator → State → Type 0
Appends vs s =
    (s' : State) × (init_validators vs s ≡ (ok tt, s'))
    × Inv s'
    × (get_validators s' ≡ get_validators s ++ vs)
    × (s'.params ≡ s.params)

init_step :
    (v : Validator) (vs : List Validator) (s s' : State)
    → add_validator v.address v.eth_address s ≡ (ok tt, s')
    → get_validators s' ≡ get_validators s ++ v ∷ []
    → s'.params ≡ s.params
    → Appends vs s'
    → Appends (v ∷ vs) s
unfolding init_validators
init_step v vs s s' e l p (t, run, i, l', p') = (
  t,
  ground (arith, e, run),
  i,
  l' ∙ ap (λ x. x ++ vs) l ∙ append_assoc (get_validators s) (v ∷ []) vs,
  p' ∙ p,
)

init_validators-Appends :
    (seen : List ℕ) (vs : List Validator) (s : State)
    → Inv s
    → Met seen s
    → validate_validators seen vs ≡ true
    → length (get_validators s) + length vs ≤ s.params.max_validators
    → Appends vs s
unfolding init_validators validate_validators
init_validators-Appends seen [] s i m h room =
    (s, refl, i, sym (append-nil (get_validators s)), refl)
init_validators-Appends seen (v ∷ vs) s i m h room =
    go (add_validator v.address v.eth_address s) refl
      (add_validator_succeeds v s i (ground arith) new (omega arith))
      (unfold add_validator in add_validator_with-Adds v.address v.eth_address true s i)
      (λ s' i' m' room'.
        init_validators-Appends (v.address ∷ seen) vs s' i' m' (ground arith) room')
  where
    new : find v.address (get_validators s) ≡ none
    new = (m v.address).0 (ground arith)

    go :
        (r : Result Error (Unit {0}) × State)
        → add_validator v.address v.eth_address s ≡ r
        → r.0 ≡ ok tt
        → Adds v.address v.eth_address true s r
        → ((s' : State)
            → Inv s'
            → Met (v.address ∷ seen) s'
            → length (get_validators s') + length vs ≤ s'.params.max_validators
            → Appends vs s')
        → Appends (v ∷ vs) s
    go (ok u, s') e f a rec = init_step v vs s s' e a.0 a.4 (
        rec s' (add-Inv v.address v.eth_address true s s' i (λ x. cc) a)
          (Met-cons v seen s s' m a.0)
          (ground (arith, ap length a.0, length-append (get_validators s) (v ∷ []), a.4)))
    go (err x, s') e f a rec = cc
    go (panic, s') e f a rec = cc

-- A genesis state that `Validate` accepts with its count check is taken by `InitGenesis` without a
-- panic; the state reached satisfies the invariant, and `ExportGenesis` gives the genesis back.
pub export_genesis-init_genesis :
    (g : GenesisState) (p : Params)
    → validate_genesis false g ≡ true
    → (s : State) × (init_genesis g (empty_state p) ≡ (ok tt, s)) × Inv s × (export_genesis s ≡ g)
unfolding validate_genesis valid_params init_genesis export_genesis get_validators
export_genesis-init_genesis g p h =
    let (s, run, i, l, q) =
      init_validators-Appends [] g.validators (empty_state g.parameters)
        (empty_state-Inv g.parameters (ground arith)) (λ a. (λ e. refl, λ e. refl)) (ground arith)
        (ground arith) in
    (s, run, i, λ k. record { parameters = q k; validators = l k })
