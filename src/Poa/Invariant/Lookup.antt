-- ===== src/Poa/Invariant/Lookup.antt =====
-- Looking an address up in the list of validators, and the list without an address.
use blockchain_relay_layer.Base.{
  suc, ◌≡◌, refl, inl, inr, true, false, Option, none, some, List, [], ◌∷◌, ◌++◌, ◌==◌,
  if◌then◌else◌, length, arith, Bool-cases,
}
use blockchain_relay_layer.Poa.Types.{Address, Validator}
use blockchain_relay_layer.Poa.Keeper.{drop_address}

-- The first validator of that address.
abbrev pub find : Address → List Validator → Option Validator
find a [] = none
find a (v ∷ vs) = if v.address == a then some v else find a vs

-- No two validators of the list have one address.
abbrev pub AllDifferent : List Validator → Type 0
AllDifferent [] = Unit
AllDifferent (v ∷ vs) = (find v.address vs ≡ none) × AllDifferent vs

abbrev pub or_else : Option Validator → Option Validator → Option Validator
or_else none o = o
or_else (some v) o = some v

pub find-append :
    (a : Address) (xs ys : List Validator) → find a (xs ++ ys) ≡ or_else (find a xs) (find a ys)
find-append a [] ys = refl
find-append a (x ∷ xs) ys = ground (arith, find-append a xs ys)

pub snoc-AllDifferent :
    (v : Validator) (xs : List Validator)
    → AllDifferent xs
    → find v.address xs ≡ none
    → AllDifferent (xs ++ v ∷ [])
snoc-AllDifferent v [] d h = (refl, tt)
snoc-AllDifferent v (x ∷ xs) d h =
    ground (arith, snoc-AllDifferent v xs d.1, find-append x.address xs (v ∷ []))

-- What `drop_address` returns, by whether the address is in the list.
abbrev pub Drops : Address → List Validator → Option (List Validator) → Type 0
Drops a xs none = find a xs ≡ none
Drops a xs (some r) =
    (suc (length r) ≡ length xs)
    × AllDifferent r
    × ((b : Address) → find b r ≡ (if a == b then none else find b xs))

find_ne :
    (a b : Address) (v : Validator) (vs r : List Validator)
    → find b r ≡ (if a == b then none else find b vs)
    → (v.address == a) ≡ false
    → find b (v ∷ r) ≡ (if a == b then none else find b (v ∷ vs))
find_ne a b v vs r h ne = ground arith

find_self :
    (a b : Address) (v : Validator) (vs : List Validator)
    → (v.address == a) ≡ true
    → find v.address vs ≡ none
    → find b vs ≡ (if a == b then none else find b (v ∷ vs))
find_self a b v vs e h = ground arith

drop_cons-Drops :
    (a : Address) (v : Validator) (vs : List Validator) (o : Option (List Validator))
    → (v.address == a) ≡ false
    → find v.address vs ≡ none
    → Drops a vs o
    → Drops a (v ∷ vs) (elim o [ none ↦ none | some r ↦ some (v ∷ r) ])
drop_cons-Drops a v vs none ne fresh d = ground arith
drop_cons-Drops a v vs (some r) ne fresh d =
    (ground arith, (ground (arith, d.2 v.address), d.1), λ b. find_ne a b v vs r (d.2 b) ne)

pub drop_address-Drops :
    (a : Address) (xs : List Validator) → AllDifferent xs → Drops a xs (drop_address a xs)
unfolding drop_address
drop_address-Drops a [] d = refl
drop_address-Drops a (v ∷ vs) d = elim (Bool-cases (v.address == a)) [
  | inl e ↦ rw e (refl, d.1, λ b. find_self a b v vs e d.0)
  | inr ne ↦ rw ne (drop_cons-Drops a v vs (drop_address a vs) ne d.0 (drop_address-Drops a vs d.1))
]
