-- ===== src/Ccstorage/Mirror.antt =====
-- x/ccstorage: the currencies and their copies in the virtual machine, and genesis states.
use blockchain_relay_layer.Base.{
  ==→eq, ◌≡◌, sym, ap, subst, ◌∙◌, Bool, true, Option, none, some, ◌==◌, if◌then◌else◌, arith,
  Option-cases, Bool-cases, inl, inr,
}
use blockchain_relay_layer.Base.Map.{Map, lookup, insert, lookup-insert}
use blockchain_relay_layer.Base.Int.{minus-plus, ℤ, pos, plus, minus}
use blockchain_relay_layer.Base.Action.{Result, ok, err, panic}
use blockchain_relay_layer.Sdk.Bank.{Coin}
use blockchain_relay_layer.Ccstorage.Types.{
  Name, Currency, CurrencyParams, new_currency, ResCurrencyInfo, std_currency_info,
}
use blockchain_relay_layer.Ccstorage.Keeper.{
  wrong_denom, Error, State, has_currency, get_currency, store_currency,
  store_res_std_currency_info, create_currency, increase_currency_supply, decrease_currency_supply,
}

abbrev pub copied : Option Currency → Option ResCurrencyInfo
copied none = none
copied (some c) = some (std_currency_info c)

abbrev pub denom_is : Option Currency → Name → Bool
denom_is none k = true
denom_is (some c) k = c.denom == k

-- A currency is stored under its denom, and the virtual machine has the same currencies.
pub record Mirrors (s : State) : Type 0 where
  pub keyed : (k : Name) → denom_is (lookup k s.currencies) k ≡ true
  pub same : (k : Name) → lookup k s.infos ≡ copied (lookup k s.currencies)

-- The state after a method; a panic undoes it.
abbrev pub Keeps : Result Error (Unit {0}) × State → Type 0
Keeps (ok _, s) = Mirrors s
Keeps (err _, s) = Mirrors s
Keeps (panic, s) = Unit

module _ (marshals : ResCurrencyInfo → Bool) where
  pub stored-Mirrors :
      (c : Currency) (s : State)
      → Mirrors s
      → Mirrors
          (record (store_currency c s) { infos = insert c.denom (std_currency_info c) s.infos })
  stored-Mirrors c s v = record {
    keyed = λ k. ground (arith, v.keyed k, lookup-insert c.denom k c s.currencies);
    same = λ k. ground (
      arith,
      v.same k,
      lookup-insert c.denom k c s.currencies,
      lookup-insert c.denom k (std_currency_info c) s.infos,
    );
  }

  update-Keeps :
      (c : Currency) (s : State)
      → Mirrors s
      → Keeps (store_res_std_currency_info marshals c (store_currency c s))
  unfolding store_res_std_currency_info
  update-Keeps c s v = elim (Bool-cases (marshals (std_currency_info c))) [
    | inl e ↦ rw (e) (stored-Mirrors c s v)
    | inr e ↦ rw (e) tt
  ]

  create_currency-Keeps :
      (p : CurrencyParams) (s : State) → Mirrors s → Keeps (create_currency marshals p s)
  unfolding create_currency
  create_currency-Keeps p s v = elim (Bool-cases (has_currency s p.denom)) [
    | inl e ↦ rw (e) v
    | inr e ↦ rw (e) (update-Keeps (new_currency p (pos 0)) s v)
  ]

  -- A change of a supply by `f`.
  changed : (ℤ → ℤ) → Currency → State → Result Error (Unit {0}) × State
  changed f c s =
      let c' = record c { supply = f c.supply } in
      store_res_std_currency_info marshals c' (store_currency c' s)

  increase_lem :
      (coin : Coin) (c : Currency) (s : State)
      → lookup coin.denom s.currencies ≡ some c
      → increase_currency_supply marshals coin s ≡ changed (λ z. plus z coin.amount) c s
  unfolding increase_currency_supply get_currency changed
  increase_lem coin c s e = ground (arith, e)

  increase_none :
      (coin : Coin) (s : State)
      → lookup coin.denom s.currencies ≡ none
      → increase_currency_supply marshals coin s ≡ (err wrong_denom, s)
  unfolding increase_currency_supply get_currency
  increase_none coin s e = ground (arith, e)

  decrease_lem :
      (coin : Coin) (c : Currency) (s : State)
      → lookup coin.denom s.currencies ≡ some c
      → decrease_currency_supply marshals coin s ≡ changed (λ z. minus z coin.amount) c s
  unfolding decrease_currency_supply get_currency changed
  decrease_lem coin c s e = ground (arith, e)

  decrease_none :
      (coin : Coin) (s : State)
      → lookup coin.denom s.currencies ≡ none
      → decrease_currency_supply marshals coin s ≡ (err wrong_denom, s)
  unfolding decrease_currency_supply get_currency
  decrease_none coin s e = ground (arith, e)

  changed-Keeps : (f : ℤ → ℤ) (c : Currency) (s : State) → Mirrors s → Keeps (changed f c s)
  unfolding changed
  changed-Keeps f c s v = update-Keeps (record c { supply = f c.supply }) s v

  -- In a store whose currencies stand under their denoms and are copied to the virtual machine, an
  -- increase and a decrease of a supply end in such a store again, or in a panic that undoes them.
  supply_changes-Keep :
      (coin : Coin) (s : State)
      → Mirrors s
      → Keeps (increase_currency_supply marshals coin s)
        × Keeps (decrease_currency_supply marshals coin s)
  supply_changes-Keep coin s v = elim (Option-cases (lookup coin.denom s.currencies)) [
    | inl e ↦
        (subst Keeps (sym (increase_none coin s e)) v, subst Keeps (sym (decrease_none coin s e)) v)
    | inr (c, e) ↦ (
      subst Keeps (sym (increase_lem coin c s e)) (changed-Keeps (λ z. plus z coin.amount) c s v),
      subst Keeps (sym (decrease_lem coin c s e)) (changed-Keeps (λ z. minus z coin.amount) c s v),
    )
  ]

  changed-currencies :
      (f : ℤ → ℤ) (c : Currency) (s s' : State)
      → changed f c s ≡ (ok tt, s')
      → s'.currencies ≡ insert c.denom (record c { supply = f c.supply }) s.currencies
  unfolding store_res_std_currency_info changed
  changed-currencies f c s s' h =
      elim (Bool-cases (marshals (std_currency_info (record c { supply = f c.supply })))) [
        | inl e ↦ ground arith
        | inr e ↦ absurd (ground arith)
      ]

  -- What is issued and withdrawn again: if an increase of a supply succeeds, and then a decrease by
  -- the same coin, every currency is what it was.
  decrease-increase :
      (coin : Coin) (s s' s'' : State)
      → Mirrors s
      → increase_currency_supply marshals coin s ≡ (ok tt, s')
      → decrease_currency_supply marshals coin s' ≡ (ok tt, s'')
      → (k : Name) → lookup k s''.currencies ≡ lookup k s.currencies
  decrease-increase coin s s' s'' v up down k =
      elim (Option-cases (lookup coin.denom s.currencies)) [
        | inl e ↦ absurd (refused (sym up ∙ increase_none coin s e))
        | inr (c, e) ↦
            let m = coin.amount in
            let c' = record c { supply = plus c.supply m } in
            let own =
              ==→eq c.denom coin.denom
                (ap (λ o. denom_is o coin.denom) (sym e) ∙ v.keyed coin.denom) in
            let at =
              changed-currencies (λ z. plus z m) c s s' (sym (increase_lem coin c s e) ∙ up) in
            let e' = ap (lookup coin.denom) at ∙ found c c' s.currencies own in
            let at' =
              changed-currencies (λ z. minus z m) c' s' s''
                (sym (decrease_lem coin c' s' e') ∙ down) in
            restored c own e
              (ap (lookup k) at'
                ∙ lookup-insert c.denom k (record c { supply = minus (plus c.supply m) m })
                    s'.currencies)
              (ap (lookup k) at ∙ lookup-insert c.denom k c' s.currencies)
      ]
    where
      refused :
          {t : State}
          → ◌≡◌ {A = Result Error (Unit {0}) × State} (ok tt, s') (err wrong_denom, t)
          → ⊥
      refused h = cc

      found :
          (c c' : Currency) (m : Map Currency)
          → c.denom ≡ coin.denom
          → lookup coin.denom (insert c.denom c' m) ≡ some c'
      found c c' m h = ground (arith, h, lookup-insert c.denom coin.denom c' m)

      restored :
          (c : Currency)
          → c.denom ≡ coin.denom
          → lookup coin.denom s.currencies ≡ some c
          → lookup k s''.currencies ≡ (
              if c.denom == k
              then some (record c { supply = minus (plus c.supply coin.amount) coin.amount })
              else lookup k s'.currencies)
          → lookup k s'.currencies ≡ (
              if c.denom == k
              then some (record c { supply = plus c.supply coin.amount })
              else lookup k s.currencies)
          → lookup k s''.currencies ≡ lookup k s.currencies
      restored c own e a b = elim (Bool-cases (c.denom == k)) [
        | inl t ↦
            subst (λ x. lookup k s''.currencies ≡ lookup x s.currencies)
              (sym own ∙ ==→eq c.denom k t)
              (ground (arith, a, t, e, minus-plus c.supply coin.amount))
        | inr f ↦ ground (arith, a, b, f)
      ]

  -- The store after a supply was changed by `f`.
  abbrev pub Changes : (ℤ → ℤ) → Coin → State → State → Type 0
  Changes f coin s s' =
      Mirrors s'
      × (c : Currency) × (lookup coin.denom s.currencies ≡ some c)
      × (s'.currencies ≡ insert coin.denom (record c { supply = f c.supply }) s.currencies)

  changed-Changes :
      (f : ℤ → ℤ) (coin : Coin) (c : Currency) (s s' : State)
      → Mirrors s
      → lookup coin.denom s.currencies ≡ some c
      → changed f c s ≡ (ok tt, s')
      → Changes f coin s s'
  changed-Changes f coin c s s' v e h =
      let at : c.denom ≡ coin.denom = ground (arith, v.keyed coin.denom, e) in
      (
        subst Keeps h (changed-Keeps f c s v),
        c,
        e,
        changed-currencies f c s s' h
            ∙ ap (λ (n : Name). insert n (record c { supply = f c.supply }) s.currencies) at,
      )

  pub increase-Changes :
      (coin : Coin) (s s' : State)
      → Mirrors s
      → increase_currency_supply marshals coin s ≡ (ok tt, s')
      → Changes (λ z. plus z coin.amount) coin s s'
  increase-Changes coin s s' v h = elim (Option-cases (lookup coin.denom s.currencies)) [
    | inl e ↦ absurd (ground (arith, increase_none coin s e, h))
    | inr (c, e) ↦
        changed-Changes (λ z. plus z coin.amount) coin c s s' v e
          (sym (increase_lem coin c s e) ∙ h)
  ]

  pub decrease-Changes :
      (coin : Coin) (s s' : State)
      → Mirrors s
      → decrease_currency_supply marshals coin s ≡ (ok tt, s')
      → Changes (λ z. minus z coin.amount) coin s s'
  decrease-Changes coin s s' v h = elim (Option-cases (lookup coin.denom s.currencies)) [
    | inl e ↦ absurd (ground (arith, decrease_none coin s e, h))
    | inr (c, e) ↦
        changed-Changes (λ z. minus z coin.amount) coin c s s' v e
          (sym (decrease_lem coin c s e) ∙ h)
  ]
