-- ===== src/Poa/Keeper.antt =====
-- x/poa/internal/keeper: counter.go, list.go, validator.go and params.go.
use blockchain_relay_layer.Base.{
  ℕ, ◌+◌, ◌/◌, ◌%◌, Bool, true, false, not, ◌&&◌, Option, none, some, List, [], ◌∷◌, ◌++◌, ltb,
  ◌==◌, if◌then◌else◌, length,
}
use blockchain_relay_layer.Base.Map.{Map, lookup, has, insert, erase}
use blockchain_relay_layer.Base.Action.{Action, Result, ok, err, and_then}
use blockchain_relay_layer.Poa.Types.{
  Address, Validator, Params, Error, validator_exists, validator_not_exists, max_validators_reached,
  min_validators_reached, validate, new_validator,
}

-- The module's store: one record per validator, the list and the counter, and the parameters.
-- `none` is a key that is not set.
pub record State : Type 0 where
  pub validators : Map Validator
  pub list : Option (List Validator)
  pub count : Option ℕ
  pub params : Params

abbrev pub Method : Type 0 → Type 0
Method = Action State Error

-- `uint16` wraps around.
abbrev pub u16 : ℕ → ℕ
u16 n = n % 65536

-- counter.go
unfoldable pub get_validator_amount : State → ℕ
get_validator_amount s = elim s.count [ none ↦ 0 | some n ↦ n ]

unfoldable pub get_enough_confirmations : State → ℕ
get_enough_confirmations s = get_validator_amount s / 2 + 1

abbrev pub increase_validators_amount : State → State
increase_validators_amount s = record s { count = some (u16 (get_validator_amount s + 1)) }

abbrev pub decrease_validators_amount : State → State
decrease_validators_amount s = record s { count = some (u16 (get_validator_amount s + 65535)) }

-- list.go
unfoldable pub get_validators : State → List Validator
get_validators s = elim s.list [ none ↦ [] | some l ↦ l ]

abbrev pub add_validator_to_list : Validator → State → State
add_validator_to_list v s = record s { list = some (get_validators s ++ v ∷ []) }

-- The list without the first validator of that address, if there is one.
unfoldable pub drop_address : Address → List Validator → Option (List Validator)
drop_address a [] = none
drop_address a (v ∷ vs) =
    if v.address == a
    then some vs
    else elim (drop_address a vs) [ none ↦ none | some r ↦ some (v ∷ r) ]

abbrev pub remove_validator_from_list : Address → State → State
remove_validator_from_list a s = elim (drop_address a (get_validators s)) [
  | none ↦ s
  | some rest ↦
      if ltb 1 (length (get_validators s))
      then record s { list = some rest }
      else record s { list = none }
]

-- validator.go
unfoldable pub has_validator : State → Address → Bool
has_validator s a = has a s.validators

unfoldable pub get_validator : Address → State → Result Error Validator
get_validator a s = elim (lookup a s.validators) [ none ↦ err validator_not_exists | some v ↦ ok v ]

-- `addValidator`
unfoldable pub add_validator_with : Address → List ℕ → Bool → Method (Unit {0})
add_validator_with a eth check_limits s = elim (validate (new_validator a eth)) [
  | some e ↦ (err e, s)
  | none ↦
      if has_validator s a
      then (err validator_exists, s)
      else if check_limits && ltb s.params.max_validators (u16 (get_validator_amount s + 1))
      then (err max_validators_reached, s)
      else let v = new_validator a eth in
        let stored = record s { validators = insert a v s.validators } in
        (ok tt, increase_validators_amount (add_validator_to_list v stored))
]

-- `removeValidator`
unfoldable pub remove_validator_with : Address → Bool → Method (Unit {0})
remove_validator_with a check_limits s =
    if not (has_validator s a)
    then (err validator_not_exists, s)
    else if check_limits && ltb (u16 (get_validator_amount s + 65535)) s.params.min_validators
    then (err min_validators_reached, s)
    else let deleted = record s { validators = erase a s.validators } in
      (ok tt, decrease_validators_amount (remove_validator_from_list a deleted))

-- `AddValidator`
unfoldable pub add_validator : Address → List ℕ → Method (Unit {0})
add_validator a eth = add_validator_with a eth true

-- `RemoveValidator`
unfoldable pub remove_validator : Address → Method (Unit {0})
remove_validator a = remove_validator_with a true

-- `ReplaceValidator`
unfoldable pub replace_validator : Address → Address → List ℕ → Method (Unit {0})
replace_validator old new eth s =
    and_then (remove_validator_with old false s) λ _. add_validator_with new eth false
