-- ===== src/Ccstorage/Synced.antt =====
-- What the virtual machine reads of an account after its balances are written.
use blockchain_relay_layer.Base.{
  Option, inr, ==_refl, Option-cases, inl, All, Distinct, ℕ, ◌≡◌, refl, Bool, true, false, none,
  some, List, [], ◌∷◌, map, ◌==◌, if◌then◌else◌, elem, Bool-cases, arith,
}
use blockchain_relay_layer.Base.Action.{ok}
use blockchain_relay_layer.Sdk.Bank.{Coin}
use blockchain_relay_layer.Ccstorage.Types.{Name, Currency}
use blockchain_relay_layer.Ccstorage.Balances.{
  Balance, Resources, put_value, new_balance, filled_balances, empty_balances, denoms_of,
  write_filled, write_empty, set_account_balance_resources, get_account_balance_resources, coins_of,
}

-- The amount of a denom among coins, 0 where there is none.
unfoldable pub amount_of : Name → List Coin → ℕ
amount_of d [] = 0
amount_of d (c ∷ cs) = if c.denom == d then c.amount else amount_of d cs

abbrev pub value_of : Option ℕ → ℕ
value_of none = 0
value_of (some v) = v

-- What the virtual machine holds for an account, 0 where it has no resource.
abbrev pub value_at : ℕ → Name → Resources → ℕ
value_at a d b = value_of (b a d)

abbrev pub currency_names : List Currency → List Name
currency_names cs = map (λ c. c.denom) cs

module _ (marshals : ℕ → Bool) where
  -- The writes of coins of different denoms give each denom its amount, and leave the others.
  write_filled_lem :
      (addr : ℕ) (coins : List Coin) (b : Resources)
      → All (λ c. marshals c.amount ≡ true) coins
      → Distinct (denoms_of coins)
      → (b' : Resources) × (write_filled marshals (filled_balances addr coins) b ≡ (ok tt, b'))
        × ((d : Name)
            → b' addr d ≡ (if elem d (denoms_of coins) then some (amount_of d coins) else b addr d))
  unfolding write_filled filled_balances new_balance amount_of
  write_filled_lem addr [] b m u = (b, refl, λ d. refl)
  write_filled_lem addr (c ∷ cs) b m u =
      let (b', e, h) =
        write_filled_lem addr cs (put_value addr c.denom (some c.amount) b) m.1 u.1 in
      (b', rw (m.0) e, λ d. ground (arith, h d, u.0, ==_refl addr))

  -- The writes of the empty balances leave the coins' denoms, and empty the other registered ones.
  write_empty_lem :
      (addr : ℕ) (coins : List Coin) (registered : List Currency) (b : Resources)
      → marshals 0 ≡ true
      → (b' : Resources) × (write_empty marshals (empty_balances addr coins registered) b
          ≡ (ok tt, b'))
        × ((d : Name)
            → value_at addr d b' ≡ (
                if elem d (denoms_of coins)
                then value_at addr d b
                else if elem d (currency_names registered)
                then 0
                else value_at addr d b))
  unfolding write_empty empty_balances new_balance
  write_empty_lem addr coins [] b m = (b, refl, λ d. ground (arith))
  write_empty_lem addr coins (c ∷ cs) b m = elim (Bool-cases (elem c.denom (denoms_of coins))) [
    | inl k ↦
        let (b', e, h) = write_empty_lem addr coins cs b m in
        (b', rw (k) e, λ d. ground (arith, h d, k))
    | inr k ↦ elim (Option-cases (b addr c.denom)) [
      | inl n ↦
          let (b', e, h) = write_empty_lem addr coins cs b m in
          (b', rw (k, n) e, λ d. ground (arith, h d, k, n))
      | inr (v, n) ↦
          let (b', e, h) = write_empty_lem addr coins cs (put_value addr c.denom (some 0) b) m in
          (b', rw (k, n, m) e, λ d. ground (arith, h d, k, n, ==_refl addr))
    ]
  ]

pub nonzero : (x : ℕ) (xs : List ℕ) → elem 0 (x ∷ xs) ≡ false → (x == 0) ≡ false
nonzero x xs z = ground (arith, z)

pub amount_of_absent :
    (d : Name) (coins : List Coin) → elem d (denoms_of coins) ≡ false → amount_of d coins ≡ 0
unfolding amount_of
amount_of_absent d [] h = refl
amount_of_absent d (c ∷ cs) h = ground (arith, amount_of_absent d cs, h)

-- The balances that are read, as coins, are what the virtual machine holds in the registered denoms.
get_balances_lem :
    (registered : List Currency) (addr : ℕ) (b : Resources)
    → elem 0 (currency_names registered) ≡ false
    → (bs : List Balance) × (get_account_balance_resources registered addr b ≡ ok bs)
      × ((d : Name)
          → amount_of d (coins_of bs)
            ≡ (if elem d (currency_names registered) then value_at addr d b else 0))
unfolding get_account_balance_resources coins_of amount_of
get_balances_lem [] addr b z = ([], refl, λ d. refl)
get_balances_lem (c ∷ cs) addr b z =
    let (bs, e, h) = get_balances_lem cs addr b (ground (arith, z)) in
    elim (Option-cases (b addr c.denom)) [
      | inl n ↦ (bs, rw (get_account_balance_resources, n) e, λ d. ground (arith, h d, n))
      | inr (v, n) ↦ (
        record { denom = c.denom; address = addr; value = v } ∷ bs,
        rw (get_account_balance_resources, n, nonzero c.denom (currency_names cs) z, e) refl,
        λ d. ground (arith, h d, n),
      )
    ]

-- Where every amount can be marshalled, the coins are of different denoms and no registered denom
-- is empty, the balances of an account can be written and read again without an error, and then
-- hold, in every registered denom, exactly the account's coins, and nothing in any other denom.
pub get-set_balances :
    (marshals : ℕ → Bool) (registered : List Currency) (addr : ℕ) (coins : List Coin)
    (b : Resources)
    → marshals 0 ≡ true
    → All (λ c. marshals c.amount ≡ true) coins
    → Distinct (denoms_of coins)
    → elem 0 (currency_names registered) ≡ false
    → (b' : Resources) × (bs : List Balance) × (set_account_balance_resources marshals registered
          addr coins b
        ≡ (ok tt, b'))
      × (get_account_balance_resources registered addr b' ≡ ok bs)
      × ((d : Name)
          → amount_of d (coins_of bs)
            ≡ (if elem d (currency_names registered) then amount_of d coins else 0))
unfolding set_account_balance_resources
get-set_balances marshals registered addr coins b m ms u z =
    let (b1, e1, h1) = write_filled_lem marshals addr coins b ms u in
    let (b2, e2, h2) = write_empty_lem marshals addr coins registered b1 m in
    let (bs, e, h) = get_balances_lem registered addr b2 z in
    (
      b2,
      bs,
      rw (set_account_balance_resources, e1) e2,
      e,
      λ d. ground (arith, h d, h2 d, h1 d, amount_of_absent d coins),
    )
