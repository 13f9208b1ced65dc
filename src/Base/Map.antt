-- ===== src/Base/Map.antt =====
-- A part of a key-value store whose values have one type: an association list over the keys.
-- An iterator visits the keys in the order of their bytes, so a new key is put in that order.
use Prim.Native.Nat.{ℕ}
use mathlib.Core.Path.{◌≡◌, refl, sym, ap, ◌∙◌}
use mathlib.Core.Bool.{Bool, true, false, ◌&&◌, not}
use mathlib.Core.Option.{Option, none, some}
use mathlib.Core.List.{List, [], ◌∷◌, ◌++◌, map, append_assoc, append-nil}
use native.Mathlib.Omega.{arith}
use mathlib.Core.Logic.{inl, inr}
use blockchain_relay_layer.Base.Tests.{ltb, if◌then◌else◌, ◌==◌, Bool-cases}
use blockchain_relay_layer.Base.Lists.{All, All-append}

abbrev pub Map {ℓ} : Type ℓ → Type ℓ
Map V = List (ℕ × V)

module _ {ℓ} {V : Type ℓ} where
  -- `store.Get`
  unfoldable pub lookup : ℕ → Map V → Option V
  lookup key [] = none
  lookup key ((i, x) ∷ store) = if i == key then some x else lookup key store

  -- `store.Has`
  abbrev pub has : ℕ → Map V → Bool
  has key store = elim (lookup key store) [ none ↦ false | some _ ↦ true ]

  -- `store.Delete`
  unfoldable pub erase : ℕ → Map V → Map V
  erase key [] = []
  erase key ((i, x) ∷ store) = if i == key then erase key store else (i, x) ∷ erase key store

  -- `store.Set`, where `before` is the order of the keys' bytes: a key that is there keeps its place.
  unfoldable pub insert_by : (ℕ → ℕ → Bool) → ℕ → V → Map V → Map V
  insert_by before key new [] = (key, new) ∷ []
  insert_by before key new ((i, x) ∷ store) =
      let rest = insert_by before key new store in
      if i == key
      then (key, new) ∷ store
      else if before key i && not (has key store)
      then (key, new) ∷ (i, x) ∷ store
      else (i, x) ∷ rest

  -- `store.Set` where the keys are ordered as the numbers are: big-endian numbers, and texts, whose
  -- numbers stand for their order.
  abbrev pub insert : ℕ → V → Map V → Map V
  insert = insert_by ltb

  -- The values of an iterator over the part.
  abbrev pub values : Map V → List V
  values = map λ p. p.1

  pub lookup-empty : (key : ℕ) → lookup key [] ≡ none
  unfolding lookup
  lookup-empty key = refl

  pub lookup-erase :
      (key at_key : ℕ) (store : Map V)
      → lookup at_key (erase key store) ≡ (if key == at_key then none else lookup at_key store)
  unfolding lookup erase
  lookup-erase key at_key [] = ground arith
  lookup-erase key at_key ((i, x) ∷ store) = ground (arith, lookup-erase key at_key store)

  pub lookup-insert_by :
      (before : ℕ → ℕ → Bool) (key at_key : ℕ) (new : V) (store : Map V)
      → lookup at_key (insert_by before key new store)
        ≡ (if key == at_key then some new else lookup at_key store)
  unfolding lookup insert_by
  lookup-insert_by before key at_key new [] = refl
  lookup-insert_by before key at_key new ((i, x) ∷ store) =
      ground (arith, lookup-insert_by before key at_key new store)

  pub lookup-insert :
      (key at_key : ℕ) (new : V) (store : Map V)
      → lookup at_key (insert key new store)
        ≡ (if key == at_key then some new else lookup at_key store)
  lookup-insert key at_key new store = lookup-insert_by ltb key at_key new store

  -- A new key stands somewhere among the others, which keep their places.
  pub values-insert_by :
      (before : ℕ → ℕ → Bool) (key : ℕ) (new : V) (store : Map V)
      → lookup key store ≡ none
      → (xs : List V) × (ys : List V) × (values store ≡ xs ++ ys)
        × (values (insert_by before key new store) ≡ xs ++ new ∷ ys)
  unfolding lookup insert_by
  values-insert_by before key new [] h = ([], [], refl, refl)
  values-insert_by before key new ((i, x) ∷ store) h = elim (Bool-cases (i == key)) [
    | inl e ↦ absurd (ground arith)
    | inr e ↦ elim (Bool-cases (before key i && not (has key store))) [
      | inl f ↦ ([], x ∷ values store, refl, rw (e, f) refl)
      | inr f ↦
          let (xs, ys, was, now) = values-insert_by before key new store (ground (arith, h, e)) in
          (x ∷ xs, ys, ap (λ l. x ∷ l) was, rw (e, f) (ap (λ l. x ∷ l) now))
    ]
  ]

  -- No key of the store stands after the key.
  abbrev pub AllBefore : (ℕ → ℕ → Bool) → ℕ → Map V → Type 0
  AllBefore before key = All λ p. (p.0 == key ≡ false) × (before key p.0 ≡ false)

  -- A key after all others stands last.
  pub insert_by_last :
      (before : ℕ → ℕ → Bool) (key : ℕ) (new : V) (store : Map V)
      → AllBefore before key store
      → insert_by before key new store ≡ store ++ (key, new) ∷ []
  unfolding insert_by
  insert_by_last before key new [] h = refl
  insert_by_last before key new ((i, x) ∷ store) h =
      ground (arith, h.0, insert_by_last before key new store h.1)

  -- A list of values, stored one after the other under their keys.
  abbrev pub insert_all_by : (ℕ → ℕ → Bool) → (V → ℕ) → List V → Map V → Map V
  insert_all_by before key [] store = store
  insert_all_by before key (x ∷ xs) store =
      insert_all_by before key xs (insert_by before (key x) x store)

-- The keys ascend: each stands before all that follow.
abbrev pub Ascending : (ℕ → ℕ → Bool) → List ℕ → Type 0
Ascending before [] = Unit
Ascending before (k ∷ ks) =
    All (λ j. (k == j ≡ false) × (before j k ≡ false)) ks × Ascending before ks

module _ {ℓ} {V : Type ℓ} where
  AllBefore-snoc :
      (before : ℕ → ℕ → Bool) (key : ℕ) (x : V) (store : Map V) (ks : List ℕ)
      → All (λ j. (key == j ≡ false) × (before j key ≡ false)) ks
      → All (λ k. AllBefore before k store) ks
      → All (λ k. AllBefore before k (store ++ (key, x) ∷ [])) ks
  AllBefore-snoc before key x store [] d h = tt
  AllBefore-snoc before key x store (k ∷ ks) d h = (
    All-append (λ p. (p.0 == k ≡ false) × (before k p.0 ≡ false)) store ((key, x) ∷ []) h.0
        (d.0, tt),
    AllBefore-snoc before key x store ks d.1 h.1,
  )

  -- Values whose keys ascend are stored in the order of the list.
  pub insert_all_by-Ascending :
      (before : ℕ → ℕ → Bool) (key : V → ℕ) (xs : List V) (store : Map V)
      → Ascending before (map key xs)
      → All (λ k. AllBefore before k store) (map key xs)
      → insert_all_by before key xs store ≡ store ++ map (λ x. (key x, x)) xs
  insert_all_by-Ascending before key [] store d h = sym (append-nil store)
  insert_all_by-Ascending before key (x ∷ xs) store d h =
      rw (insert_by_last before (key x) x store h.0) (
        insert_all_by-Ascending before key xs (store ++ (key x, x) ∷ []) d.1
          (AllBefore-snoc before (key x) x store (map key xs) d.0 h.1)
        ∙ append_assoc store ((key x, x) ∷ []) (map (λ y. (key y, y)) xs))

  -- In an empty store they are all that stands there, in the order of the list.
  pub values-insert_all :
      (before : ℕ → ℕ → Bool) (key : V → ℕ) (xs : List V)
      → Ascending before (map key xs)
      → values (insert_all_by before key xs []) ≡ xs
  values-insert_all before key xs d =
      ap values (insert_all_by-Ascending before key xs [] d (none_before (map key xs))) ∙ firsts xs
    where
      none_before : (ks : List ℕ) → All (λ k. AllBefore {V = V} before k []) ks
      none_before [] = tt
      none_before (k ∷ ks) = (tt, none_before ks)

      firsts : (ys : List V) → values (map (λ y. (key y, y)) ys) ≡ ys
      firsts [] = refl
      firsts (y ∷ ys) = ap (λ l. y ∷ l) (firsts ys)

pub ruleset map_laws = (arith, lookup-insert, lookup-erase, lookup-empty)
