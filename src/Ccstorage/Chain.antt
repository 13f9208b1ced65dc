-- ===== src/Ccstorage/Chain.antt =====
-- x/ccstorage: genesis states, taken and exported.
use blockchain_relay_layer.Base.{
  ◌≡◌, refl, ap, subst, ltb, ◌∙◌, Bool, true, false, none, List, [], ◌∷◌, map, elem, arith,
}
use blockchain_relay_layer.Base.Map.{
  values, values-insert_all, insert_all_by, Ascending, lookup, insert, lookup-insert, lookup-empty,
}
use blockchain_relay_layer.Base.Int.{pos}
use blockchain_relay_layer.Base.Action.{Result, ok, err, panic}
use blockchain_relay_layer.Ccstorage.Types.{
  Name, Currency, CurrencyParams, new_currency, ResCurrencyInfo, std_currency_info,
}
use blockchain_relay_layer.Ccstorage.Keeper.{
  Error, State, store_currency, create_currency, init_genesis, export_genesis, validate_genesis,
}
use blockchain_relay_layer.Ccstorage.Mirror.{Mirrors, stored-Mirrors}

abbrev pub no_currencies : State
no_currencies = record { currencies = []; infos = [] }

no_currencies-Mirrors : Mirrors no_currencies
unfolding lookup
no_currencies-Mirrors = record { keyed = λ k. refl; same = λ k. refl }

abbrev fresh_currency : CurrencyParams → Currency
fresh_currency p = new_currency p (pos 0)

abbrev pub without_contract : CurrencyParams → CurrencyParams
without_contract p = record p { contract_address = 0 }

-- What `export_genesis` reads of a currency.
exported_params :
    (ps : List CurrencyParams) (s : State)
    → values s.currencies ≡ map fresh_currency ps
    → export_genesis s ≡ map without_contract ps
unfolding export_genesis
exported_params ps s e = rw (e) (exported ps)
  where
    exported :
        (qs : List CurrencyParams)
        → map
            (λ (c : Currency).
              let p : CurrencyParams = record {
                denom = c.denom;
                decimals = c.decimals;
                contract_address = 0;
              } in
              p)
            (map fresh_currency qs)
          ≡ map without_contract qs
    exported [] = refl
    exported (q ∷ qs) = ap (λ l. without_contract q ∷ l) (exported qs)

module _ (marshals : ResCurrencyInfo → Bool)
    (writes : (p : CurrencyParams)
      → marshals (std_currency_info (new_currency p (pos 0))) ≡ true) where
  abbrev created : CurrencyParams → State → State
  created p s = record (store_currency (fresh_currency p) s) {
    infos = insert p.denom (std_currency_info (fresh_currency p)) s.infos;
  }

  create_currency_lem :
      (p : CurrencyParams) (s : State)
      → lookup p.denom s.currencies ≡ none
      → create_currency marshals p s ≡ (ok tt, created p s)
  unfolding create_currency
  create_currency_lem p s e = ground (arith, e, writes p)

  first_created :
      (p : CurrencyParams) (ps : List CurrencyParams) (s t : State)
      → create_currency marshals p s ≡ (ok tt, t)
      → init_genesis marshals (p ∷ ps) s ≡ init_genesis marshals ps t
  unfolding init_genesis
  first_created p ps s t e =
      ap
        (λ (r : Result Error (Unit {0}) × State).
          let out : Result Error (Unit {0}) × State = elim r.0 [
            | ok _ ↦ init_genesis marshals ps r.1
            | err _ ↦ (panic, r.1)
            | panic ↦ (panic, r.1)
          ] in
          out)
        e

  -- The currencies are stored one after the other.
  init_genesis_lem :
      (denom_filter : Name → Bool) (seen : List Name) (ps : List CurrencyParams) (s : State)
      → validate_genesis denom_filter seen ps ≡ true
      → Mirrors s
      → ((a : Name) → elem a seen ≡ false → lookup a s.currencies ≡ none)
      → (s' : State) × (init_genesis marshals ps s ≡ (ok tt, s'))
        × Mirrors s'
        × (s'.currencies
            ≡ insert_all_by ltb (λ (c : Currency). c.denom) (map fresh_currency ps) s.currencies)
  unfolding validate_genesis init_genesis
  init_genesis_lem denom_filter seen [] s h v new = (s, refl, v, refl)
  init_genesis_lem denom_filter seen (p ∷ ps) s h v new =
      let unseen = first_unseen h in
      let absent = new p.denom unseen in
      let t = created p s in
      let (s', run, v', l) =
        init_genesis_lem denom_filter (p.denom ∷ seen) ps t (rest_valid h)
          (stored-Mirrors marshals (fresh_currency p) s v)
          (λ a e.
            ground (arith, e, new a, lookup-insert p.denom a (fresh_currency p) s.currencies)) in
      (s', first_created p ps s t (create_currency_lem p s absent) ∙ run, v', l)
    where
      first_unseen : validate_genesis denom_filter seen (p ∷ ps) ≡ true → elem p.denom seen ≡ false
      first_unseen h = ground arith

      rest_valid :
          validate_genesis denom_filter seen (p ∷ ps) ≡ true
          → validate_genesis denom_filter (p.denom ∷ seen) ps ≡ true
      rest_valid h = ground arith

  -- A valid genesis state whose currencies stand in the order of their denoms, as an export writes
  -- them, is taken without an error or a panic where the virtual machine takes the resources;
  -- afterwards every currency has its copy there, and an export gives the same parameters in the
  -- same order, but each with an empty contract address.
  pub export-init_genesis :
      (denom_filter : Name → Bool) (ps : List CurrencyParams)
      → validate_genesis denom_filter [] ps ≡ true
      → Ascending ltb (map (λ p. p.denom) ps)
      → (s : State) × (init_genesis marshals ps no_currencies ≡ (ok tt, s))
        × Mirrors s
        × (export_genesis s ≡ map without_contract ps)
  export-init_genesis denom_filter ps h ascending =
      let (s, run, v, l) =
        init_genesis_lem denom_filter [] ps no_currencies h no_currencies-Mirrors
          (λ a e. lookup-empty a) in
      (
        s,
        run,
        v,
        exported_params ps s (
            ap values l
            ∙ values-insert_all ltb (λ (c : Currency). c.denom) (map fresh_currency ps)
                (subst (Ascending ltb) (denoms ps) ascending)),
      )
    where
      denoms :
          (qs : List CurrencyParams)
          → map (λ q. q.denom) qs ≡ map (λ (c : Currency). c.denom) (map fresh_currency qs)
      denoms [] = refl
      denoms (q ∷ qs) = ap (λ l. q.denom ∷ l) (denoms qs)
