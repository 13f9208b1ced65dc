-- ===== src/Oracle/Median.antt =====
-- x/oracle/internal/keeper/price.go: the medians lie in the middle of the posted prices.
use blockchain_relay_layer.Base.{
  ℕ, zero, suc, ◌+◌, ◌-◌, ◌/◌, ◌%◌, ◌≤◌, ◌<◌, ◌≡◌, refl, some, List, [], ◌∷◌, ◌==◌, ltb,
  if◌then◌else◌, length, arith, inl, inr, Bool-cases, All,
}
use blockchain_relay_layer.Oracle.Types.{PostedPrice}
use blockchain_relay_layer.Oracle.Prices.{
  SortBy, get_elem?, middle, middle_received_at, Medians, sorted_medians, medians,
}

-- How many prices are below or above a price.
abbrev pub count_below : (PostedPrice → ℕ) → ℕ → List PostedPrice → ℕ
count_below field m [] = 0
count_below field m (p ∷ ps) = (if ltb (field p) m then 1 else 0) + count_below field m ps

abbrev pub count_above : (PostedPrice → ℕ) → ℕ → List PostedPrice → ℕ
count_above field m [] = 0
count_above field m (p ∷ ps) = (if ltb m (field p) then 1 else 0) + count_above field m ps

abbrev pub Ascending : (PostedPrice → ℕ) → List PostedPrice → Type 0
Ascending field [] = Unit
Ascending field (p ∷ ps) = All (λ q. field p ≤ field q) ps × Ascending field ps

-- What the code relies on of `sort.Slice`: the prices are the same, in ascending order.
pub record SortLaws (sort_by : SortBy) : Type 0 where
  pub ascending :
      (field : PostedPrice → ℕ) (l : List PostedPrice) → Ascending field (sort_by field l)
  pub same_length :
      (field : PostedPrice → ℕ) (l : List PostedPrice) → length (sort_by field l) ≡ length l
  pub same_below :
      (field : PostedPrice → ℕ) (l : List PostedPrice) (m : ℕ)
      → count_below field m (sort_by field l) ≡ count_below field m l
  pub same_above :
      (field : PostedPrice → ℕ) (l : List PostedPrice) (m : ℕ)
      → count_above field m (sort_by field l) ≡ count_above field m l

module _ (field : PostedPrice → ℕ) where
  found :
      (l : List PostedPrice) (i : ℕ) → i < length l → (p : PostedPrice) × (get_elem? l i ≡ some p)
  found [] i h = absurd (omega arith)
  found (x ∷ xs) zero h = (x, refl)
  found (x ∷ xs) (suc i) h = found xs i (omega arith)

  none_below : (m : ℕ) (l : List PostedPrice) → All (λ q. m ≤ field q) l → count_below field m l ≡ 0
  none_below m [] h = refl
  none_below m (x ∷ xs) h = ground (arith, none_below m xs h.1)

  above_most : (m : ℕ) (l : List PostedPrice) → count_above field m l ≤ length l
  above_most m [] = omega arith
  above_most m (x ∷ xs) = ground (arith, above_most m xs)

  at_index :
      (l : List PostedPrice) (i m : ℕ) (p : PostedPrice)
      → All (λ q. m ≤ field q) l
      → get_elem? l i ≡ some p
      → m ≤ field p
  at_index [] i m p h e = absurd (ground (arith, e))
  at_index (x ∷ xs) zero m p h e = ground (arith, e)
  at_index (x ∷ xs) (suc i) m p h e = at_index xs i m p h.1 e

  -- At most the elements before an index are below a price that is no greater than the one there.
  below_index :
      (l : List PostedPrice) (i m : ℕ) (p : PostedPrice)
      → Ascending field l
      → get_elem? l i ≡ some p
      → m ≤ field p
      → count_below field m l ≤ i
  below_index [] i m p a e h = absurd (ground (arith, e))
  below_index (x ∷ xs) zero m p a e h =
      ground (arith, e, none_below (field x) xs a.0, lower m (field x) xs)
    where
      lower :
          (m n : ℕ) (l : List PostedPrice) → m ≤ n → count_below field m l ≤ count_below field n l
      lower m n [] h = omega arith
      lower m n (y ∷ ys) h = ground (arith, lower m n ys h)
  below_index (x ∷ xs) (suc i) m p a e h = ground (arith, below_index xs i m p a.1 e h)

  -- At most the elements after an index are above a price that is no less than the one there.
  above_index :
      (l : List PostedPrice) (i m : ℕ) (p : PostedPrice)
      → Ascending field l
      → get_elem? l i ≡ some p
      → field p ≤ m
      → count_above field m l + i + 1 ≤ length l
  above_index [] i m p a e h = absurd (ground (arith, e))
  above_index (x ∷ xs) zero m p a e h = ground (arith, e, above_most m xs)
  above_index (x ∷ xs) (suc i) m p a e h =
      ground (arith, above_index xs i m p a.1 e h, at_index xs i (field x) p a.0 e)

  in_order :
      (l : List PostedPrice) (i j : ℕ) (p q : PostedPrice)
      → Ascending field l
      → i < j
      → get_elem? l i ≡ some p
      → get_elem? l j ≡ some q
      → field p ≤ field q
  in_order [] i j p q a h e f = absurd (ground (arith, e))
  in_order (x ∷ xs) i zero p q a h e f = absurd (omega arith)
  in_order (x ∷ xs) zero (suc j) p q a h e f = ground (arith, e, at_index xs j (field x) q a.0 f)
  in_order (x ∷ xs) (suc i) (suc j) p q a h e f = in_order xs i j p q a.1 (omega arith) e f

  -- The middle of a sorted list of two elements or more.
  middle_lem :
      (l : List PostedPrice)
      → Ascending field l
      → 2 ≤ length l
      → (m : ℕ) × (middle field (length l) l ≡ some m)
        × (count_below field m l ≤ length l / 2)
        × (count_above field m l ≤ length l / 2)
  unfolding middle
  middle_lem l a h =
      let n = length l in
      let (y, f) = found l (n / 2) (omega arith) in
      elim (Bool-cases (n % 2 == 0)) [
        | inr odd ↦ (
          field y,
          rw (odd, f) refl,
          below_index l (n / 2) (field y) y a f (omega arith),
          ground (arith, odd, above_index l (n / 2) (field y) y a f),
        )
        | inl even ↦
            let (x, e) = found l (n / 2 - 1) (omega arith) in
            let le : field x ≤ field y = in_order l (n / 2 - 1) (n / 2) x y a (omega arith) e f in
            let m = (field x + field y) / 2 in
            (
              m,
              rw (even, e, f) refl,
              below_index l (n / 2) m y a f (omega arith),
              ground (arith, even, above_index l (n / 2 - 1) m x a e),
            )
      ]

module _ (sort_by : SortBy) (sort : SortLaws sort_by) (block_time : ℕ) where
  sorted_middle :
      (field : PostedPrice → ℕ) (raw : List PostedPrice)
      → 2 ≤ length raw
      → (m : ℕ) × (middle field (length raw) (sort_by field raw) ≡ some m)
        × (count_below field m raw ≤ length raw / 2)
        × (count_above field m raw ≤ length raw / 2)
  sorted_middle field raw h =
      let n = sort.same_length field raw in
      let (m, e, below, above) =
        middle_lem field (sort_by field raw) (sort.ascending field raw) (omega (arith, n)) in
      (
        m,
        rw (← n) e,
        rw (← sort.same_below field raw m, ← n) below,
        rw (← sort.same_above field raw m, ← n) above,
      )

  received :
      (raw : List PostedPrice)
      → 2 ≤ length raw
      → (t : ℕ) × (middle_received_at block_time (length raw) (sort_by (λ p. p.ask_price) raw)
          ≡ some t)
  unfolding middle_received_at
  received raw h = elim (Bool-cases (length raw % 2 == 0)) [
    | inl e ↦ (block_time, rw (e) refl)
    | inr e ↦
        let (p, f) =
          found (λ p. p.ask_price) (sort_by (λ p. p.ask_price) raw) (length raw / 2)
            (omega (arith, sort.same_length (λ p. p.ask_price) raw)) in
        (p.received_at, rw (e, f) refl)
  ]

  -- The medians of the posted prices, one or more, are computed without an index out of range, and
  -- lie in the middle: at most half of the prices, rounded down, have a lower ask price than the ask
  -- median, and at most half a higher one; and so it is with the bid prices.
  pub medians_in_middle :
      (raw : List PostedPrice)
      → 1 ≤ length raw
      → (m : Medians) × (medians sort_by block_time raw ≡ some m)
        × (count_below (λ p. p.ask_price) m.ask raw ≤ length raw / 2)
        × (count_above (λ p. p.ask_price) m.ask raw ≤ length raw / 2)
        × (count_below (λ p. p.bid_price) m.bid raw ≤ length raw / 2)
        × (count_above (λ p. p.bid_price) m.bid raw ≤ length raw / 2)
  unfolding medians sorted_medians
  medians_in_middle [] h = absurd (omega arith)
  medians_in_middle (p ∷ []) h = (
    record { ask = p.ask_price; bid = p.bid_price; at = p.received_at },
    refl,
    ground arith,
    ground arith,
    ground arith,
    ground arith,
  )
  medians_in_middle (p ∷ q ∷ r) h =
      let raw = p ∷ q ∷ r in
      let two : 2 ≤ length raw = omega arith in
      let (a, e, ab, aa) = sorted_middle (λ x. x.ask_price) raw two in
      let (b, f, bb, ba) = sorted_middle (λ x. x.bid_price) raw two in
      let (t, g) = received raw two in
      (
        record { ask = a; bid = b; at = t },
        rw (medians, sorted_medians, e, f, g) refl,
        ab,
        aa,
        bb,
        ba,
      )
