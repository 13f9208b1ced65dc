-- ===== src/Orderbook/Depth/Found.antt =====
-- `getCrossPoint` of pq_curves.go on curves with some point that has both volumes.
use blockchain_relay_layer.Base.{
  ℕ, ◌+◌, ◌/◌, ◌<◌, ◌≡◌, ◌⊎◌, refl, List, [], ◌∷◌, ◌==◌, if◌then◌else◌, arith, Bool, true, false,
  ◌&&◌, ◌∙◌, Bool-cases, inl, inr, ap, sym, ==→eq, Option, none, some,
}
use blockchain_relay_layer.Orderbook.Curves.{SdItem, supply_demand_balance}
use blockchain_relay_layer.Orderbook.Clearance.{
  SortSlice, has_volumes, corridor, clearance_price, Crossing, find_crossing, less_diff,
  first_with_volumes, or_zero_item, closest, get_cross_point, same_balance,
}
use blockchain_relay_layer.Orderbook.Depth.Points.{any_volumes, is_priced, all_priced}

-- The same elements in another order.
pub data Rearranged : List SdItem → List SdItem → Type 0 where
  same : {c : List SdItem} → Rearranged c c
  keep : {i : SdItem} {c c' : List SdItem} → Rearranged c c' → Rearranged (i ∷ c) (i ∷ c')
  exchange : {i j : SdItem} {c : List SdItem} → Rearranged (i ∷ j ∷ c) (j ∷ i ∷ c)
  chain : {c c' c'' : List SdItem} → Rearranged c c' → Rearranged c' c'' → Rearranged c c''

-- `sort.Slice` of Go's library rearranges the slice.
abbrev pub Rearranges : SortSlice → Type 0
Rearranges sort_slice =
    (less : SdItem → SdItem → Bool) (c : List SdItem) → Rearranged (sort_slice less c) c

any_volumes-Rearranged : {c c' : List SdItem} → Rearranged c c' → any_volumes c ≡ any_volumes c'
any_volumes-Rearranged same = refl
any_volumes-Rearranged (keep {i} r) =
    ap (λ v. if has_volumes i then true else v) (any_volumes-Rearranged r)
any_volumes-Rearranged (exchange {i} {j} {c}) = either (has_volumes i) (has_volumes j)
  where
    either :
        (a b : Bool)
        → (if a then true else if b then true else any_volumes c)
          ≡ (if b then true else if a then true else any_volumes c)
    either true true = refl
    either true false = refl
    either false b = refl
any_volumes-Rearranged (chain r s) = any_volumes-Rearranged r ∙ any_volumes-Rearranged s

all_priced-Rearranged : {c c' : List SdItem} → Rearranged c c' → all_priced c ≡ all_priced c'
all_priced-Rearranged same = refl
all_priced-Rearranged (keep {i} r) = ap (λ v. is_priced i && v) (all_priced-Rearranged r)
all_priced-Rearranged (exchange {i} {j} {c}) = both (is_priced i) (is_priced j)
  where
    both : (a b : Bool) → (a && (b && all_priced c)) ≡ (b && (a && all_priced c))
    both true b = refl
    both false true = refl
    both false false = refl
all_priced-Rearranged (chain r s) = all_priced-Rearranged r ∙ all_priced-Rearranged s

-- A point with a price and both volumes.
abbrev pub IsFound : SdItem → Type 0
IsFound i = (0 < i.price) × (0 < i.supply) × (0 < i.demand)

found : (i : SdItem) → has_volumes i ≡ true → is_priced i ≡ true → IsFound i
found i v p = ground arith

at_price :
    (i : SdItem) (p : ℕ)
    → has_volumes i ≡ true
    → (i.supply ≡ 0) ⊎ (0 < p)
    → IsFound (record i { price = p })
at_price i p v h = ground arith

first-IsFound :
    (c : List SdItem)
    → any_volumes c ≡ true
    → all_priced c ≡ true
    → IsFound (or_zero_item (first_with_volumes c))
unfolding first_with_volumes
first-IsFound [] v p = absurd (ground arith)
first-IsFound (i ∷ c) v p = elim (Bool-cases (has_volumes i)) [
  | inl e ↦ rw (e) (found i e (ground (arith, p)))
  | inr e ↦ rw (e) (first-IsFound c (ground (arith, v, e)) (ground (arith, p)))
]

-- The last point of a corridor, if there is one, has the supply of the first.
SameSupply : SdItem → Option SdItem → Type 0
SameSupply left none = Unit
SameSupply left (some i) = (i.supply ≡ left.supply) × (is_priced i ≡ true)

corridor-SameSupply :
    (left : SdItem) (right : Option SdItem) (c : List SdItem)
    → SameSupply left right
    → all_priced c ≡ true
    → SameSupply left (corridor left right c)
unfolding corridor SameSupply
corridor-SameSupply left right [] h p = h
corridor-SameSupply left right (i ∷ c) h p = elim (Bool-cases (left.supply == i.supply)) [
  | inr e ↦ rw (e) h
  | inl e ↦ elim (Bool-cases (left.demand == i.demand)) [
    | inr f ↦ rw (e, f) h
    | inl f ↦
        rw (e, f)
          (corridor-SameSupply left (some i) c
            (sym (==→eq left.supply i.supply e), ground (arith, p)) (ground (arith, p)))
  ]
]

clearance_price_positive :
    (left : SdItem) (right : Option SdItem)
    → is_priced left ≡ true
    → SameSupply left right
    → (left.supply ≡ 0) ⊎ (0 < clearance_price left right)
unfolding SameSupply
clearance_price_positive left none p h = elim (Bool-cases (left.supply == 0)) [
  | inl e ↦ inl (==→eq left.supply 0 e)
  | inr e ↦ inr (ground (arith, p, e))
]
clearance_price_positive left (some i) p (e, q) = elim (Bool-cases (left.supply == 0)) [
  | inl z ↦ inl (==→eq left.supply 0 z)
  | inr z ↦ inr (half (ground (arith, p, z)) (ground (arith, q, e, z)))
]
  where
    half : 0 < left.price → 0 < i.price → 0 < (left.price + i.price) / 2
    half a b = omega arith

-- The points of a crossing have a price if they have a supply, and so has the crossing.
GoodCrossing : Option Crossing → Type 0
GoodCrossing none = Unit
GoodCrossing (some x) =
    (is_priced x.previous ≡ true)
    × (is_priced x.current ≡ true)
    × ((x.current.supply ≡ 0) ⊎ (0 < x.crossing_price))

find_crossing-GoodCrossing :
    (previous : SdItem) (c : List SdItem)
    → is_priced previous ≡ true
    → all_priced c ≡ true
    → GoodCrossing (find_crossing previous c)
unfolding find_crossing GoodCrossing SameSupply
find_crossing-GoodCrossing previous [] p q = tt
find_crossing-GoodCrossing previous (i ∷ c) p q =
    elim (Bool-cases (same_balance (supply_demand_balance previous) (supply_demand_balance i))) [
      | inl e ↦ rw (e) (find_crossing-GoodCrossing i c (first_priced q) (rest_priced q))
      | inr e ↦ rw (e) (
        p,
        first_priced q,
        clearance_price_positive i (corridor i none c) (first_priced q)
            (corridor-SameSupply i none c tt (rest_priced q)),
      )
    ]
  where
    first_priced : all_priced (i ∷ c) ≡ true → is_priced i ≡ true
    first_priced q = ground arith

    rest_priced : all_priced (i ∷ c) ≡ true → all_priced c ≡ true
    rest_priced q = ground arith

module _ (sort_slice : SortSlice) (lawful : Rearranges sort_slice) where
  closest-IsFound :
      (c : List SdItem)
      → any_volumes c ≡ true
      → all_priced c ≡ true
      → IsFound (closest sort_slice c)
  unfolding closest
  closest-IsFound c v p =
      let r = lawful less_diff c in
      first-IsFound (sort_slice less_diff c) (any_volumes-Rearranged r ∙ v)
        (all_priced-Rearranged r ∙ p)

  crossed-IsFound :
      (c : List SdItem) (o : Option Crossing)
      → GoodCrossing o
      → IsFound (closest sort_slice c)
      → IsFound (elim o [
        | none ↦ closest sort_slice c
        | some x ↦
            if has_volumes x.current
            then record x.current { price = x.crossing_price }
            else if has_volumes x.previous
            then x.previous
            else closest sort_slice c
      ])
  unfolding GoodCrossing
  crossed-IsFound c none g f = f
  crossed-IsFound c (some x) (p, q, s) f = elim (Bool-cases (has_volumes x.current)) [
    | inl e ↦ rw (e) (at_price x.current x.crossing_price e s)
    | inr e ↦ elim (Bool-cases (has_volumes x.previous)) [
      | inl h ↦ rw (e, h) (found x.previous h p)
      | inr h ↦ rw (e, h) f
    ]
  ]

  -- Where some point has both volumes, and the points with a supply have a price, the cross point
  -- has a price and both volumes.
  pub get_cross_point-IsFound :
      (i : SdItem) (c : List SdItem)
      → any_volumes (i ∷ c) ≡ true
      → all_priced (i ∷ c) ≡ true
      → IsFound (get_cross_point sort_slice i c)
  unfolding get_cross_point
  get_cross_point-IsFound i c v p = elim (Bool-cases ((i.supply == i.demand) && has_volumes i)) [
    | inl e ↦ rw (e) (found i (ground (arith, e)) (ground (arith, p)))
    | inr e ↦ rw (e) (
        crossed-IsFound (i ∷ c) (find_crossing i c)
          (find_crossing-GoodCrossing i c (ground (arith, p)) (ground (arith, p)))
          (closest-IsFound (i ∷ c) v p))
  ]
