-- ===== src/Markets/Listed.antt =====
-- x/markets/internal/keeper/market.go: the listed markets, and what a new one changes.
use blockchain_relay_layer.Base.{
  ℕ, ◌≡◌, refl, sym, ap, subst, ◌∙◌, Bool, true, false, Option, none, some, List, [], ◌∷◌, ◌++◌,
  ◌==◌, leb, ◌&&◌, if◌then◌else◌, arith, inl, inr, Bool-cases, Option-cases, ◌⊎◌,
}
use blockchain_relay_layer.Base.Map.{lookup, has, insert_by, lookup-insert_by, values-insert_by}
use blockchain_relay_layer.Base.Action.{ok, err}
use blockchain_relay_layer.Ccstorage.Types.{Currency, Name}
use blockchain_relay_layer.Ccstorage.Keeper as Currencies
use blockchain_relay_layer.Markets.Types.{
  market_exists, wrong_asset_denom, Market, new_market_extended,
}
use blockchain_relay_layer.Markets.Keeper.{
  State, get_extended, get_list, is_listed, key_before, next_id, set, add,
}

abbrev pub below_next : ℕ → Option ℕ → Bool
below_next id none = false
below_next id (some last) = leb id last

-- What stands under a key: a market with that id, no later than the last one, of two currencies
-- that are registered.
abbrev pub is_sound : Currencies.State → State → ℕ → Option Market → Bool
is_sound c s id none = true
is_sound c s id (some m) =
    (m.id == id)
    && below_next id s.last_market_id
    && has m.base_asset_denom c.currencies
    && has m.quote_asset_denom c.currencies

-- No pair of denoms has two markets.
abbrev pub Unpaired : List Market → Type 0
Unpaired [] = Unit
Unpaired (m ∷ ms) = (is_listed m.base_asset_denom m.quote_asset_denom ms ≡ false) × Unpaired ms

pub record IsValid (c : Currencies.State) (s : State) : Type 0 where
  pub sound : (id : ℕ) → is_sound c s id (lookup id s.markets) ≡ true
  pub unpaired : Unpaired (get_list s)

is_listed-insert :
    (b q : Name) (m : Market) (xs ys : List Market)
    → is_listed b q (xs ++ m ∷ ys)
      ≡ (if is_listed b q (xs ++ ys) then true else is_listed b q (m ∷ []))
is_listed-insert b q m [] ys = ground arith
is_listed-insert b q m (n ∷ xs) ys = ground (arith, is_listed-insert b q m xs ys)

Unpaired-insert :
    (m : Market) (xs ys : List Market)
    → Unpaired (xs ++ ys)
    → is_listed m.base_asset_denom m.quote_asset_denom (xs ++ ys) ≡ false
    → Unpaired (xs ++ m ∷ ys)
Unpaired-insert m [] ys u h = (h, u)
Unpaired-insert m (n ∷ xs) ys u h = ground (
  arith,
  Unpaired-insert m xs ys u.1,
  is_listed-insert n.base_asset_denom n.quote_asset_denom m xs ys,
)

module _ (c : Currencies.State) where
  next_id-free : (s : State) → IsValid c s → lookup (next_id s) s.markets ≡ none
  unfolding next_id
  next_id-free s v = ground (arith, v.sound (next_id s))

  -- The state after a market is added.
  abbrev with_market : Market → State → State
  with_market m s = record (set m s) { last_market_id = some m.id }

  abbrev pub new_market : Name → Name → State → Market
  new_market base quote s = record {
    id = next_id s;
    base_asset_denom = base;
    quote_asset_denom = quote;
  }

  with_market-IsValid :
      (base quote : Name) (s : State)
      → IsValid c s
      → is_listed base quote (get_list s) ≡ false
      → has base c.currencies ≡ true
      → has quote c.currencies ≡ true
      → IsValid c (with_market (new_market base quote s) s)
  unfolding next_id
  with_market-IsValid base quote s v h b q = record {
    sound = λ id. ground (
      arith,
      v.sound id,
      lookup-insert_by key_before (next_id s) id (new_market base quote s) s.markets,
    );
    unpaired =
        let m = new_market base quote s in
        let (xs, ys, was, now) =
          values-insert_by key_before (next_id s) m s.markets (next_id-free s v) in
        rw (now) (
          Unpaired-insert m xs ys (subst Unpaired was v.unpaired)
            (ap (λ l. is_listed base quote l) (sym was) ∙ h));
  }

  -- An attempt to create a market keeps the list sound, whatever it returns.
  pub add-IsValid : (base quote : Name) (s : State) → IsValid c s → IsValid c (add c base quote s).1
  unfolding add
  add-IsValid base quote s v = elim (Bool-cases (is_listed base quote (get_list s))) [
    | inl e ↦ rw (e) v
    | inr e ↦ elim (Bool-cases (has base c.currencies)) [
      | inr f ↦ rw (e, f) v
      | inl f ↦ elim (Bool-cases (has quote c.currencies)) [
        | inr g ↦ rw (e, f, g) v
        | inl g ↦ rw (e, f, g) (with_market-IsValid base quote s v e f g)
      ]
    ]
  ]

  -- The market, its currencies and the state of a call that succeeds.
  abbrev pub Added : Name → Name → State → Type 0
  Added base quote s =
      let m = new_market base quote s in
      (b : Currency) × (q : Currency) × (s' : State) × (lookup base c.currencies ≡ some b)
      × (lookup quote c.currencies ≡ some q)
      × (add c base quote s ≡ (ok m, s'))
      × (xs : List Market) × (ys : List Market) × (get_list s ≡ xs ++ ys)
      × (get_list s' ≡ xs ++ m ∷ ys)
      × (get_extended s' c m.id ≡ ok (new_market_extended m b q))

  added :
      (base quote : Name) (s : State) (b q : Currency)
      → IsValid c s
      → is_listed base quote (get_list s) ≡ false
      → lookup base c.currencies ≡ some b
      → lookup quote c.currencies ≡ some q
      → Added base quote s
  unfolding add get_extended
  added base quote s b q v e f g =
      let m = new_market base quote s in
      let found : lookup m.id (insert_by key_before m.id m s.markets) ≡ some m =
        ground (arith, lookup-insert_by key_before m.id m.id m s.markets) in
      let (xs, ys, was, now) = values-insert_by key_before m.id m s.markets (next_id-free s v) in
      (
        b,
        q,
        with_market m s,
        f,
        g,
        ground (arith, e, f, g),
        xs,
        ys,
        was,
        now,
        rw (get_extended, found, g, f) refl,
      )

  -- What `add` does on every branch, from a sound list: a pair that is listed is refused, and so is
  -- one with a currency that is not registered, and then nothing changes; otherwise the new market,
  -- with the next id, stands among the others, which keep their places, and can be read with its
  -- currencies.
  pub add_cases :
      (base quote : Name) (s : State)
      → IsValid c s
      → ((is_listed base quote (get_list s) ≡ true) × (add c base quote s ≡ (err market_exists, s)))
        ⊎ (((is_listed base quote (get_list s) ≡ false)
              × (has base c.currencies && has quote c.currencies ≡ false)
              × (add c base quote s ≡ (err wrong_asset_denom, s)))
            ⊎ ((is_listed base quote (get_list s) ≡ false) × Added base quote s))
  unfolding add
  add_cases base quote s v = elim (Bool-cases (is_listed base quote (get_list s))) [
    | inl e ↦ inl (e, rw (e) refl)
    | inr e ↦ inr (elim (Option-cases (lookup base c.currencies)) [
      | inl f ↦ inl (e, ground (arith, f), ground (arith, e, f))
      | inr (b, f) ↦ elim (Option-cases (lookup quote c.currencies)) [
        | inl g ↦ inl (e, ground (arith, f, g), ground (arith, e, f, g))
        | inr (q, g) ↦ inr (e, added base quote s b q v e f g)
      ]
    ])
  ]
