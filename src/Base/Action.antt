-- ===== src/Base/Action.antt =====
-- A keeper's method reads and writes the state, and returns a value, an error, or panics. What was
-- written before an error stays written, as in the Go code.
use mathlib.Core.Bool.{Bool, true, false}
use mathlib.Core.Path.{◌≡◌, refl}
use mathlib.Core.Logic.{◌⊎◌, inl, inr}

pub data Result (E A : Type 0) : Type 0 where
  ok : A → Result E A
  err : E → Result E A
  panic : Result E A

abbrev pub Action : Type 0 → Type 0 → Type 0 → Type 0
Action S E A = S → Result E A × S

-- What follows a call: `if err := m(); err != nil { return err }; k`.
abbrev pub and_then : {S E A B : Type 0} → Result E A × S → (A → Action S E B) → Result E B × S
and_then (ok a, s) k = k a s
and_then (err e, s) k = (err e, s)
and_then (panic, s) k = (panic, s)

abbrev pub is_ok : {E A : Type 0} → Result E A → Bool
is_ok (ok a) = true
is_ok (err e) = false
is_ok panic = false

pub Result-cases :
    {E A : Type 0} (r : Result E A)
    → ((a : A) × (r ≡ ok a)) ⊎ (((e : E) × (r ≡ err e)) ⊎ (r ≡ panic))
Result-cases (ok a) = inl (a, refl)
Result-cases (err e) = inr (inl (e, refl))
Result-cases panic = inr (inr refl)
