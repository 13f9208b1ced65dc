-- ===== src/Helpers/Pages/Tiling.antt =====
-- helpers/input_parsers.go: the pages of a list, one after the other.
use mathlib.Core.List.{append-nil}
use blockchain_relay_layer.Base.{
  suc, false, some, ℕ, zero, suc, ◌+◌, ◌-◌, ◌*◌, ◌%◌, ◌≤◌, ◌<◌, ◌≡◌, refl, sym, ap, ◌∙◌, List, [],
  ◌∷◌, ◌++◌, length, take, drop, take_all, take-append-drop, ltb, leb, ◌==◌, if◌then◌else◌, arith,
  inl, inr, Bool-cases,
}
use blockchain_relay_layer.Base.Int.{pos}
use blockchain_relay_layer.Base.Action.{ok, panic}
use blockchain_relay_layer.Helpers.Pages.{
  uint64_values, page_bounds, paginate_slice, slice, page_of,
}

module _ {A : Type 0} (l : List A) (start limit : ℕ) where
  -- The part that the indices select.
  abbrev selected : List A
  selected =
      if leb (length l) start
      then []
      else if leb (length l) (start + limit)
      then take (length l - start) (drop start l)
      else take limit (drop start l)

  take_zero : (l : List A) → take 0 l ≡ []
  take_zero [] = refl
  take_zero (x ∷ xs) = refl

  selected_lem :
      slice
        (page_bounds (length l) start (start + limit)).0
        (page_bounds (length l) start (start + limit)).1
        l
      ≡ some selected
  unfolding page_bounds
  selected_lem = elim (Bool-cases (leb (length l) start)) [
    | inl e ↦ rw (e) (ap some (take_zero (drop 0 l)))
    | inr e ↦ elim (Bool-cases (leb (length l) (start + limit))) [
      | inl f ↦ rw (e, f) (let g : ltb (length l) start ≡ false = ground (arith, e) in rw (g) refl)
      | inr f ↦
          rw (e, f)
            (let g : ltb (start + limit) start ≡ false = ground (arith, e) in
              let h : start + limit - start ≡ limit = omega arith in rw (g, h) refl)
    ]
  ]

  take-append-selected : take start l ++ selected ≡ take (start + limit) l
  take-append-selected = elim (Bool-cases (leb (length l) start)) [
    | inl e ↦ rw (e) (
        append-nil (take start l)
        ∙ take_all start l (ground (arith, e))
        ∙ sym (take_all (start + limit) l (ground (arith, e))))
    | inr e ↦ elim (Bool-cases (leb (length l) (start + limit))) [
      | inl f ↦
          let total : start + (length l - start) ≡ length l = ground (arith, e) in
          rw (e, f)
            (take-append-drop start (length l - start) l
              ∙ ap (λ (n : ℕ). take n l) total
              ∙ take_all (length l) l (omega arith)
              ∙ sym (take_all (start + limit) l (ground (arith, f))))
      | inr f ↦ rw (e, f) (take-append-drop start limit l)
    ]
  ]

indices :
    (n page limit : ℕ)
    → 0 < page
    → 0 < limit
    → page < uint64_values
    → limit < uint64_values
    → (page - 1) * limit + limit < uint64_values
    → paginate_slice (pos n) page limit ≡ (
        if n == 0
        then ok (0, 0)
        else ok (page_bounds n ((page - 1) * limit) ((page - 1) * limit + limit)))
unfolding paginate_slice
indices n page limit p q p' q' h =
    let s : (page - 1) * limit % uint64_values ≡ (page - 1) * limit = omega arith in
    let e : (limit + (page - 1) * limit) % uint64_values ≡ (page - 1) * limit + limit =
      omega arith in
    rw (s, e) (ground arith)

shifted : (page limit : ℕ) → 0 < page → (page - 1) * limit + limit ≡ page * limit
shifted zero limit p = absurd (omega arith)
shifted (suc n) limit p = let e : suc n - 1 ≡ n = omega arith in rw (e) (grind arith)

factors_below :
    (page limit : ℕ)
    → 0 < page
    → 0 < limit
    → page * limit < uint64_values
    → (page < uint64_values) × (limit < uint64_values)
factors_below zero limit p q h = absurd (omega arith)
factors_below (suc m) zero p q h = absurd (omega arith)
factors_below (suc m) (suc n) p q h =
    let e : suc m * suc n ≡ m * n + m + n + 1 = grind arith in (omega arith, omega arith)

module _ {A : Type 0} where
  page_of_lem :
      (l : List A) (page limit : ℕ)
      → 0 < page
      → 0 < limit
      → page < uint64_values
      → limit < uint64_values
      → (page - 1) * limit + limit < uint64_values
      → page_of l page limit ≡ ok (selected l ((page - 1) * limit) limit)
  unfolding page_of
  page_of_lem [] page limit p q p' q' h =
      rw (page_of, indices 0 page limit p q p' q' h) (ground arith)
  page_of_lem (x ∷ xs) page limit p q p' q' h =
      let e : (length (x ∷ xs) == 0) ≡ false = ground arith in
      rw (page_of, indices (length (x ∷ xs)) page limit p q p' q' h, e)
        (rw (selected_lem (x ∷ xs) ((page - 1) * limit) limit) refl)

  -- Where the number of the last item of a page fits 64 bits, a page is given without an error, and
  -- the pages before it, followed by the page, are the beginning of the list up to that item.
  pub page_of_tiles :
      (l : List A) (page limit : ℕ)
      → 0 < page
      → 0 < limit
      → page * limit < uint64_values
      → (part : List A) × (page_of l page limit ≡ ok part)
        × (take ((page - 1) * limit) l ++ part ≡ take (page * limit) l)
  page_of_tiles l page limit p q h =
      let shift : (page - 1) * limit + limit ≡ page * limit = shifted page limit p in
      let (a, b) = factors_below page limit p q h in
      (
        selected l ((page - 1) * limit) limit,
        page_of_lem l page limit p q a b (rw (shift) h),
        take-append-selected l ((page - 1) * limit) limit ∙ ap (λ (n : ℕ). take n l) shift,
      )

  -- The last possible page of the greatest size panics on a list of three items or more.
  pub page_of_overflow :
      (l : List A) → 3 ≤ length l → page_of l (uint64_values - 1) (uint64_values - 1) ≡ panic
  unfolding page_of paginate_slice
  page_of_overflow l h =
      let e : (length l == 0) ≡ false = ground arith in
      let f : leb (length l) 2 ≡ false = ground arith in
      let g : leb (length l) 1 ≡ false = ground arith in
      rw (page_of, paginate_slice, e, page_bounds, f, g) refl
