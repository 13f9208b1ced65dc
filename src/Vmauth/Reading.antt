-- ===== src/Vmauth/Reading.antt =====
-- An account that is stored can be read again.
use blockchain_relay_layer.Base.{
  subst, inr, inl, ℕ, ◌≡◌, refl, Bool, true, false, some, List, [], ◌∷◌, ◌==◌, elem, Bool-cases,
  Option-cases, All, Distinct, arith,
}
use blockchain_relay_layer.Base.Action.{ok}
use blockchain_relay_layer.Sdk.Bank.{Coin}
use blockchain_relay_layer.Ccstorage.Types.{Name, ResCurrencyInfo, Currency}
use blockchain_relay_layer.Ccstorage.Balances.{
  Resources, Balance, get_account_balance_resources, denoms_of, coins_of,
}
use blockchain_relay_layer.Ccstorage.Synced.{
  amount_of_absent, amount_of, currency_names, get-set_balances, nonzero,
}
use blockchain_relay_layer.Vmauth.Keeper.{
  AccountOps, State, registered, store_account, set_account, reconcile, get_account,
}

-- Coins as the SDK has them: no denom twice, and no amount of zero.
pub record AreValid (coins : List Coin) : Type 0 where
  pub distinct : Distinct (denoms_of coins)
  pub positive : All (λ c. (c.amount == 0) ≡ false) coins

pub record AccountLaws {K : Type 0} (k : AccountOps K) : Type 0 where
  pub find-put : (a : ℕ) (coins : List Coin) (s : K) → k.find a (k.put a coins s) ≡ some coins
  pub same_coins :
      (xs ys : List Coin)
      → AreValid xs
      → AreValid ys
      → ((d : Name) → amount_of d xs ≡ amount_of d ys)
      → k.coins_equal xs ys ≡ some true

-- What is read are valid coins, of registered denoms only.
read_AreValid :
    (cs : List Currency) (addr : ℕ) (b : Resources)
    → elem 0 (currency_names cs) ≡ false
    → Distinct (currency_names cs)
    → (bs : List Balance) × (get_account_balance_resources cs addr b ≡ ok bs)
      × AreValid (coins_of bs)
      × ((d : Name) → elem d (currency_names cs) ≡ false → elem d (denoms_of (coins_of bs)) ≡ false)
unfolding get_account_balance_resources coins_of
read_AreValid [] addr b z u = ([], refl, record { distinct = tt; positive = tt }, λ d h. refl)
read_AreValid (c ∷ cs) addr b z u =
    let (bs, e, v, h) = read_AreValid cs addr b (ground (arith, z)) u.1 in
    elim (Option-cases (b addr c.denom)) [
      | inl n ↦ (bs, rw (get_account_balance_resources, n) e, v, λ d k. h d (ground (arith, k)))
      | inr (a, n) ↦
          let x : Balance = record { denom = c.denom; address = addr; value = a } in
          let got : get_account_balance_resources (c ∷ cs) addr b ≡ ok (x ∷ bs) =
            rw (get_account_balance_resources, n, nonzero c.denom (currency_names cs) z, e) refl in
          elim (Bool-cases (a == 0)) [
            | inl y ↦ (x ∷ bs, got, rw (y) v, λ d k. rw (y) (h d (ground (arith, k))))
            | inr y ↦ (
              x ∷ bs,
              got,
              rw (y)
                  (record { distinct = (h c.denom u.0, v.distinct); positive = (y, v.positive) }),
              λ d k. rw (y) (ground (arith, k, h d)),
            )
          ]
    ]

module _ {K : Type 0} (k : AccountOps K) (marshals_info : ResCurrencyInfo → Bool)
    (marshals : ℕ → Bool) where
  -- An account whose coins are those that the virtual machine holds is read as it is.
  get_account_unchanged :
      (addr : ℕ) (coins : List Coin) (s : State K) (bs : List Balance)
      → get_account_balance_resources (registered s) addr s.resources ≡ ok bs
      → k.find addr s.accounts ≡ some coins
      → k.coins_equal (coins_of bs) coins ≡ some true
      → get_account k marshals_info marshals addr s ≡ (ok (some coins), s)
  unfolding get_account reconcile
  get_account_unchanged addr coins s [] g f h = rw (get_account, g, f) refl
  get_account_unchanged addr coins s (x ∷ xs) g f h =
      rw (get_account, g, f) (rw (reconcile, h) refl)

  -- An account of the store whose new coins are valid, of registered denoms and of amounts that can
  -- be marshalled, where the registered denoms are different and not empty, is set without an error
  -- or a panic; and then a read gives exactly these coins, and leaves the state as it is.
  pub get-set_account :
      AccountLaws k
      → (addr : ℕ) (old coins : List Coin) (s : State K) → k.find addr s.accounts ≡ some old
      → marshals 0 ≡ true
      → All (λ c. marshals c.amount ≡ true) coins
      → AreValid coins
      → elem 0 (currency_names (registered s)) ≡ false
      → Distinct (currency_names (registered s))
      → ((d : Name)
          → elem d (denoms_of coins) ≡ true
          → elem d (currency_names (registered s)) ≡ true)
      → (s' : State K) × (set_account k marshals_info marshals addr coins s ≡ (ok tt, s'))
        × (get_account k marshals_info marshals addr s' ≡ (ok (some coins), s'))
  unfolding set_account store_account
  get-set_account l addr old coins s f m ms v z u r =
      let cs = registered s in
      let (b, bs, e, g, h) =
        get-set_balances marshals cs addr coins s.resources m ms v.distinct z in
      let (bs', g', v', _) = read_AreValid cs addr b z u in
      let same_read : bs' ≡ bs = ground (arith, g, g') in
      let same : k.coins_equal (coins_of bs) coins ≡ some true =
        l.same_coins (coins_of bs) coins (subst (λ x. AreValid (coins_of x)) same_read v') v
          λ d. ground (arith, h d, r d, amount_of_absent d coins) in
      let s' = record s { resources = b; accounts = k.put addr coins s.accounts } in
      (
        s',
        rw (set_account, f, store_account, e) refl,
        get_account_unchanged addr coins s' bs g (l.find-put addr coins s.accounts) same,
      )
