-- ===== src/Base/Lists.antt =====
-- Lists over the native numbers.
use Prim.Native.Nat.{ℕ, zero, suc, ◌+◌, ◌≤◌}
use mathlib.Core.Path.{◌≡◌, refl, ap}
use mathlib.Core.Bool.{Bool, true, false}
use mathlib.Core.List.{List, [], ◌∷◌, ◌++◌}
use native.Mathlib.Omega.{arith}
use blockchain_relay_layer.Base.Tests.{if◌then◌else◌, ◌==◌}

module _ {ℓ} {A : Type ℓ} where
  abbrev pub length : List A → ℕ
  length [] = 0
  length (x ∷ xs) = suc (length xs)

  abbrev pub take : ℕ → List A → List A
  take n [] = []
  take zero (x ∷ xs) = []
  take (suc n) (x ∷ xs) = x ∷ take n xs

  abbrev pub drop : ℕ → List A → List A
  drop n [] = []
  drop zero (x ∷ xs) = x ∷ xs
  drop (suc n) (x ∷ xs) = drop n xs

  pub take_all : (n : ℕ) (xs : List A) → length xs ≤ n → take n xs ≡ xs
  take_all n [] h = refl
  take_all zero (x ∷ xs) h = absurd (omega arith)
  take_all (suc n) (x ∷ xs) h = ap (λ l. x ∷ l) (take_all n xs (omega arith))

  pub take-append-drop : (m n : ℕ) (xs : List A) → take m xs ++ take n (drop m xs) ≡ take (m + n) xs
  take-append-drop m n [] = refl
  take-append-drop zero zero (x ∷ xs) = refl
  take-append-drop zero (suc n) (x ∷ xs) = let e : 0 + suc n ≡ suc n = omega arith in rw e refl
  take-append-drop (suc m) n (x ∷ xs) =
      let e : suc m + n ≡ suc (m + n) = omega arith in
      rw e (ap (λ l. x ∷ l) (take-append-drop m n xs))

  pub length-append : (xs ys : List A) → length (xs ++ ys) ≡ length xs + length ys
  length-append [] ys = omega arith
  length-append (x ∷ xs) ys = omega (arith, length-append xs ys)

-- Every element has the property.
abbrev pub All {ℓ κ} : {A : Type ℓ} → (A → Type κ) → List A → Type κ
All P [] = Unit
All P (x ∷ xs) = P x × All P xs

pub All-append {ℓ κ} :
    {A : Type ℓ} (P : A → Type κ) (xs ys : List A) → All P xs → All P ys → All P (xs ++ ys)
All-append P [] ys h k = k
All-append P (x ∷ xs) ys h k = (h.0, All-append P xs ys h.1 k)

pub All-map {ℓ κ μ} :
    {A : Type ℓ} {P : A → Type κ} {Q : A → Type μ} (f : (x : A) → P x → Q x) (xs : List A)
    → All P xs
    → All Q xs
All-map f [] h = tt
All-map f (x ∷ xs) h = (f x h.0, All-map f xs h.1)

-- Membership of a number, as the code's loops with `Equals` decide it.
abbrev pub elem : ℕ → List ℕ → Bool
elem a [] = false
elem a (x ∷ xs) = if x == a then true else elem a xs

-- No number twice.
abbrev pub Distinct : List ℕ → Type 0
Distinct [] = Unit
Distinct (x ∷ xs) = (elem x xs ≡ false) × Distinct xs

pub elem-append :
    (a : ℕ) (xs ys : List ℕ) → elem a (xs ++ ys) ≡ (if elem a xs then true else elem a ys)
elem-append a [] ys = refl
elem-append a (x ∷ xs) ys = ground (arith, elem-append a xs ys)

pub Distinct-snoc :
    (a : ℕ) (xs : List ℕ) → Distinct xs → elem a xs ≡ false → Distinct (xs ++ a ∷ [])
Distinct-snoc a [] d h = (refl, tt)
Distinct-snoc a (x ∷ xs) d h = ground (arith, Distinct-snoc a xs d.1, elem-append x xs (a ∷ []))

-- `append(list[:i], list[i+1:]...)` at the first index of `a`.
abbrev pub remove_first : ℕ → List ℕ → List ℕ
remove_first a [] = []
remove_first a (x ∷ xs) = if x == a then xs else x ∷ remove_first a xs

pub elem-remove_first_ne :
    (a b : ℕ) (xs : List ℕ) → (a == b) ≡ false → elem a (remove_first b xs) ≡ elem a xs
elem-remove_first_ne a b [] h = refl
elem-remove_first_ne a b (x ∷ xs) h = ground (arith, elem-remove_first_ne a b xs h)

pub elem-remove_first_self :
    (a : ℕ) (xs : List ℕ) → Distinct xs → elem a (remove_first a xs) ≡ false
elem-remove_first_self a [] d = refl
elem-remove_first_self a (x ∷ xs) d = ground (arith, elem-remove_first_self a xs d.1)

pub length-remove_first :
    (a : ℕ) (xs : List ℕ) → elem a xs ≡ true → suc (length (remove_first a xs)) ≡ length xs
length-remove_first a [] h = ground arith
length-remove_first a (x ∷ xs) h = ground (arith, length-remove_first a xs)

elem-remove_first_none :
    (a b : ℕ) (xs : List ℕ) → elem a xs ≡ false → elem a (remove_first b xs) ≡ false
elem-remove_first_none a b [] h = refl
elem-remove_first_none a b (x ∷ xs) h = ground (arith, elem-remove_first_none a b xs)

pub remove_first-Distinct : (a : ℕ) (xs : List ℕ) → Distinct xs → Distinct (remove_first a xs)
remove_first-Distinct a [] d = tt
remove_first-Distinct a (x ∷ xs) d =
    ground (arith, remove_first-Distinct a xs d.1, elem-remove_first_none x a xs)
