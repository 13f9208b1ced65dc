-- ===== src/Currencies/Supply.antt =====
-- x/currencies: the supply of a currency, the totals of the supply module and the accounts.
use blockchain_relay_layer.Base.{
  ==→eq, subst, ℕ, suc, ◌+◌, ◌-◌, ◌≤◌, ◌≡◌, refl, sym, ap, ◌∙◌, Bool, true, false, Option, none,
  some, ◌==◌, ltb, if◌then◌else◌, arith, inl, inr, Bool-cases, Option-cases,
}
use blockchain_relay_layer.Base.Map.{Map, lookup, has, insert, lookup-insert}
use blockchain_relay_layer.Base.Int.{ℤ, pos, plus, minus}
use blockchain_relay_layer.Base.Action.{ok, is_ok, Result-cases}
use blockchain_relay_layer.Sdk.Bank.{Coin, BankOps, BankLaws, amount_in, amount_at}
use blockchain_relay_layer.Ccstorage.Types.{Name, Currency, ResCurrencyInfo}
use blockchain_relay_layer.Ccstorage.Keeper as Ccstorage
use blockchain_relay_layer.Ccstorage.Mirror.{decrease-Changes, increase-Changes, Mirrors}
use blockchain_relay_layer.Currencies.Types.{Address, Withdraw, State}
use blockchain_relay_layer.Currencies.Keeper.{
  get_next_withdraw_id, new_withdraw, increase_supply, issue_currency, decrease_supply,
  withdraw_currency, account_supply, pay_issue,
}

abbrev pub SupplyIs : Option Currency → ℕ → Type 0
SupplyIs none t = Unit
SupplyIs (some c) t = c.supply ≡ pos t

-- The supply of every currency is the total of the supply module, and the virtual machine has the
-- same currencies: what the invariant `total-supply` is for.
pub record IsBalanced {B : Type 0} (s : State B) : Type 0 where
  pub supplies : (n : ℕ) → SupplyIs (lookup n s.ccs.currencies) (s.total n)
  pub mirrors : Mirrors s.ccs

module _ {B : Type 0} (k : BankOps B) (banned : Address → Bool)
    (marshals : ResCurrencyInfo → Bool) where
  increase_supply_lem :
      (coin : Coin) (s t : State B)
      → increase_supply k banned marshals coin s ≡ (ok tt, t)
      → (ccs : Ccstorage.State) × (Ccstorage.increase_currency_supply marshals coin s.ccs
          ≡ (ok tt, ccs))
        × (t ≡ record s { ccs = ccs; total = λ n. s.total n + amount_in coin n })
  unfolding increase_supply
  increase_supply_lem coin s t run =
      let ccs = (Ccstorage.increase_currency_supply marshals coin s.ccs).1 in
      elim (Result-cases (Ccstorage.increase_currency_supply marshals coin s.ccs).0) [
        | inr (inl (x, h)) ↦ absurd (ground (arith, h, run))
        | inr (inr h) ↦ absurd (ground (arith, h, run))
        | inl (u, h) ↦
            let done : increase_supply k banned marshals coin s
                ≡ (ok tt, record s { ccs = ccs; total = λ n. s.total n + amount_in coin n }) =
              rw (increase_supply, h) refl in
            (ccs, ground (arith, h), ap (λ r. r.1) (sym run ∙ done))
      ]

  -- What a payment that succeeds has done.
  abbrev Paid : Coin → Address → State B → State B → Type 0
  Paid coin payee s t =
      (b : B) × (mid : Ccstorage.State) × (ccs : Ccstorage.State) × (k.add_coin payee coin s.bank
        ≡ some b)
      × (account_supply k banned marshals (k.has_account payee s.bank) coin s.ccs ≡ (ok tt, mid))
      × (Ccstorage.increase_currency_supply marshals coin mid ≡ (ok tt, ccs))
      × (t ≡ record s { ccs = ccs; bank = b; total = λ n. s.total n + amount_in coin n })

  pay_issue_lem :
      (coin : Coin) (payee : Address) (s t : State B)
      → pay_issue k banned marshals coin payee s ≡ (ok tt, t)
      → Paid coin payee s t
  unfolding pay_issue
  pay_issue_lem coin payee s t run =
      let supply = account_supply k banned marshals (k.has_account payee s.bank) coin s.ccs in
      elim (Option-cases (k.add_coin payee coin s.bank)) [
        | inl a ↦ absurd (ground (arith, a, run))
        | inr (b, a) ↦ elim (Result-cases supply.0) [
          | inr (inl (x, h)) ↦ absurd (ground (arith, a, h, run))
          | inr (inr h) ↦ absurd (ground (arith, a, h, run))
          | inl (u, h) ↦
              let paid : supply ≡ (ok tt, supply.1) = ground (arith, h) in
              let first : pay_issue k banned marshals coin payee s
                  ≡ increase_supply k banned marshals coin (record s { ccs = supply.1; bank = b }) =
                rw (pay_issue, a, paid) refl in
              let (ccs, up, after) =
                increase_supply_lem coin (record s { ccs = supply.1; bank = b }) t
                  (sym first ∙ run) in
              (b, supply.1, ccs, a, paid, up, after)
        ]
      ]

  -- The issue is new, is stored, and is paid.
  issued :
      (id : Name) (coin : Coin) (payee : Address) (s t : State B)
      → issue_currency k banned marshals id coin payee s ≡ (ok tt, t)
      → (has id s.issues ≡ false)
        × Paid coin payee
            (record s { issues = insert id (record { coin = coin; payee = payee }) s.issues })
            t
  unfolding issue_currency
  issued id coin payee s t run = elim (Bool-cases (banned payee)) [
    | inl e ↦ absurd (ground (arith, e, run))
    | inr e ↦ elim (Bool-cases (has id s.issues)) [
      | inl f ↦ absurd (ground (arith, e, f, run))
      | inr f ↦ elim (Result-cases (Ccstorage.get_currency s.ccs coin.denom)) [
        | inr (inl (x, g)) ↦ absurd (ground (arith, e, f, g, run))
        | inr (inr g) ↦ absurd (ground (arith, e, f, g, run))
        | inl (c, g) ↦
            let stored = record s {
              issues = insert id (record { coin = coin; payee = payee }) s.issues;
            } in
            let paid : issue_currency k banned marshals id coin payee s
                ≡ pay_issue k banned marshals coin payee stored =
              rw (issue_currency, e, f, g) refl in
            (f, pay_issue_lem coin payee stored t (sym paid ∙ run))
      ]
    ]
  ]

  -- The state after the withdraw is stored, the account has paid and the supply is lower.
  abbrev after_withdraw : Withdraw → B → Ccstorage.State → State B → State B
  after_withdraw w b ccs s = record s {
    withdraws = insert w.id w s.withdraws;
    last_withdraw_id = some w.id;
    ccs = ccs;
    bank = b;
    total = λ n. s.total n - amount_in w.coin n;
  }

  -- What a withdraw that succeeds has done.
  abbrev Withdrawn : Withdraw → State B → State B → Type 0
  Withdrawn w s t =
      (b : B) × (ccs : Ccstorage.State) × (w.coin.amount ≤ s.total w.coin.denom)
      × (k.subtract_coin w.spender w.coin s.bank ≡ some b)
      × (Ccstorage.decrease_currency_supply marshals w.coin s.ccs ≡ (ok tt, ccs))
      × (t ≡ after_withdraw w b ccs s)

  withdrawn :
      (timestamp : ℕ) (tx_hash : Name) (coin : Coin) (spender : Address) (recipient chain_id : Name)
      (s t : State B)
      → withdraw_currency k banned marshals timestamp tx_hash coin spender recipient chain_id s
        ≡ (ok tt, t)
      → Withdrawn (new_withdraw timestamp tx_hash coin spender recipient chain_id s) s t
  unfolding withdraw_currency decrease_supply
  withdrawn timestamp tx_hash coin spender recipient chain_id s t run =
      elim (Result-cases (Ccstorage.get_currency s.ccs coin.denom)) [
        | inr (inl (x, g)) ↦ absurd (ground (arith, g, run))
        | inr (inr g) ↦ absurd (ground (arith, g, run))
        | inl (c, g) ↦ elim (Option-cases (k.subtract_coin spender coin s.bank)) [
          | inl a ↦ absurd (ground (arith, g, a, run))
          | inr (b, a) ↦
              elim (Result-cases (Ccstorage.decrease_currency_supply marshals coin s.ccs).0) [
                | inr (inl (x, h)) ↦ absurd (ground (arith, g, a, h, run))
                | inr (inr h) ↦ absurd (ground (arith, g, a, h, run))
                | inl (u, h) ↦ elim (Bool-cases (ltb (s.total coin.denom) coin.amount)) [
                  | inl l ↦ absurd (ground (arith, g, a, h, l, run))
                  | inr l ↦
                      let w = new_withdraw timestamp tx_hash coin spender recipient chain_id s in
                      let ccs = (Ccstorage.decrease_currency_supply marshals coin s.ccs).1 in
                      let done : withdraw_currency k banned marshals timestamp tx_hash coin spender
                            recipient chain_id s
                          ≡ (ok tt, after_withdraw w b ccs s) =
                        rw (withdraw_currency, decrease_supply, g, a, h, l) refl in
                      (
                        b,
                        ccs,
                        ground (arith, l),
                        a,
                        ground (arith, h),
                        ap (λ r. r.1) (sym run ∙ done),
                      )
                ]
              ]
        ]
      ]

-- The supply of a currency that one coin changes, and of every other.
supply_changed :
    (f : ℤ → ℤ) (denom n x y : ℕ) (c : Currency) (m m' : Map Currency)
    → lookup denom m ≡ some c
    → m' ≡ insert denom (record c { supply = f c.supply }) m
    → SupplyIs (lookup n m) x
    → (if denom == n then f (pos x) else pos y) ≡ pos y
    → SupplyIs (lookup n m') (if denom == n then y else x)
supply_changed f denom n x y c m m' e g h own =
    rw (g, lookup-insert denom n (record c { supply = f c.supply }) m)
      (elim (Bool-cases (denom == n)) [
        | inr d ↦ rw (d) h
        | inl d ↦
            let at : denom ≡ n = ==→eq denom n d in
            let found : lookup n m ≡ some c = ap (λ (j : ℕ). lookup j m) (sym at) ∙ e in
            let was : c.supply ≡ pos x = subst (λ o. SupplyIs o x) found h in
            rw (d) (ap f was ∙ (rw (d) at own))
      ])

plus_pos : (x a : ℕ) → plus (pos x) a ≡ pos (x + a)
unfolding plus
plus_pos x a = refl

minus_pos : (x a : ℕ) → a ≤ x → minus (pos x) a ≡ pos (x - a)
unfolding minus
minus_pos x a h = ground arith

module _ {B : Type 0} (k : BankOps B) (bank : BankLaws k) (banned : Address → Bool)
    (marshals : ResCurrencyInfo → Bool) where
  -- An increase adds the coin to its supply and leaves the others.
  increased_supplies :
      (coin : Coin) (c c' : Ccstorage.State) (x : ℕ → ℕ)
      → Mirrors c
      → ((n : ℕ) → SupplyIs (lookup n c.currencies) (x n))
      → Ccstorage.increase_currency_supply marshals coin c ≡ (ok tt, c')
      → Mirrors c' × ((n : ℕ) → SupplyIs (lookup n c'.currencies) (x n + amount_in coin n))
  increased_supplies coin c c' x v h up =
      let (mirrors, cur, e, f) = increase-Changes marshals coin c c' v up in
      let a = coin.amount in
      (
        mirrors,
        λ n.
            let total : (if coin.denom == n then x n + a else x n) ≡ x n + amount_in coin n =
              ground arith in
            subst (λ (y : ℕ). SupplyIs (lookup n c'.currencies) y) total
              (supply_changed (λ z. plus z a) coin.denom n (x n) (x n + a) cur c.currencies
                c'.currencies e f (h n) (ground (arith, plus_pos (x n) a))),
      )

  Paid-IsBalanced :
      (coin : Coin) (payee : Address) (s t : State B)
      → IsBalanced s
      → k.has_account payee s.bank ≡ true
      → Paid k banned marshals coin payee s t
      → IsBalanced t
  unfolding account_supply
  Paid-IsBalanced coin payee s t v known (b, mid, ccs, add, paid, up, after) =
      let kept : account_supply k banned marshals (k.has_account payee s.bank) coin s.ccs
          ≡ (ok tt, s.ccs) =
        rw (known, account_supply) refl in
      let same : mid ≡ s.ccs = ap (λ r. r.1) (sym paid ∙ kept) in
      let (mirrors, supplies) =
        increased_supplies coin s.ccs ccs s.total v.mirrors v.supplies
          (ap (Ccstorage.increase_currency_supply marshals coin) (sym same) ∙ up) in
      rw (after) (record { supplies = supplies; mirrors = mirrors })

  Withdrawn-IsBalanced :
      (w : Withdraw) (s t : State B)
      → IsBalanced s
      → Withdrawn k banned marshals w s t
      → IsBalanced t
  Withdrawn-IsBalanced w s t v (b, ccs, enough, paid, down, after) =
      let coin = w.coin in
      let (mirrors, c, e, f) = decrease-Changes marshals coin s.ccs ccs v.mirrors down in
      rw (after) (record {
        supplies = λ n.
            withdrawn_supply n coin c s.total s.ccs.currencies ccs.currencies enough e f
              (v.supplies n);
        mirrors = mirrors;
      })
    where
      withdrawn_supply :
          (n : ℕ) (coin : Coin) (c : Currency) (total : ℕ → ℕ) (m m' : Map Currency)
          → coin.amount ≤ total coin.denom
          → lookup coin.denom m ≡ some c
          → m' ≡ insert coin.denom (record c { supply = minus c.supply coin.amount }) m
          → SupplyIs (lookup n m) (total n)
          → SupplyIs (lookup n m') (total n - amount_in coin n)
      withdrawn_supply n coin c total m m' enough e f h =
          let a = coin.amount in
          let total_at : (coin.denom == n) ≡ true → a ≤ total n =
            λ d. subst (λ (j : ℕ). a ≤ total j) (==→eq coin.denom n d) enough in
          let own : (if coin.denom == n then minus (pos (total n)) a else pos (total n - a))
              ≡ pos (total n - a) =
            elim (Bool-cases (coin.denom == n)) [
              | inl d ↦ rw (d) (minus_pos (total n) a (total_at d))
              | inr d ↦ rw (d) refl
            ] in
          let left : (if coin.denom == n then total n - a else total n)
              ≡ total n - amount_in coin n =
            elim (Bool-cases (coin.denom == n)) [
              | inl d ↦ rw (d) refl
              | inr d ↦ rw (d) (omega arith)
            ] in
          subst (λ (x : ℕ). SupplyIs (lookup n m') x) left
            (supply_changed (λ z. minus z a) coin.denom n (total n) (total n - a) c m m' e f h own)

  -- An issue that succeeds, to a payee who has an account, was not made before under its id: it adds
  -- the coin to the payee's balance, to the total of the supply module and to the supply of the
  -- currency, and changes no other balance; where totals and supplies agreed, they agree again; and a
  -- second issue with that id, of any coin to anyone, fails and changes nothing.
  pub issue_once :
      (id : Name) (coin coin' : Coin) (payee payee' : Address) (s t : State B)
      → IsBalanced s
      → k.has_account payee s.bank ≡ true
      → issue_currency k banned marshals id coin payee s ≡ (ok tt, t)
      → (has id s.issues ≡ false)
        × ((a n : ℕ) → k.balance_of a n t.bank ≡ k.balance_of a n s.bank + amount_at payee coin a n)
        × ((n : ℕ) → t.total n ≡ s.total n + amount_in coin n)
        × IsBalanced t
        × (is_ok (issue_currency k banned marshals id coin' payee' t).0 ≡ false)
        × ((issue_currency k banned marshals id coin' payee' t).1 ≡ t)
  unfolding issue_currency
  issue_once id coin coin' payee payee' s t v known run =
      let (new, p) = issued k banned marshals id coin payee s t run in
      let (b, mid, ccs, add, paid, up, after) = p in
      let stored = record s {
        issues = insert id (record { coin = coin; payee = payee }) s.issues;
      } in
      let seen : has id t.issues ≡ true =
        rw (after)
          (ground (arith, lookup-insert id id (record { coin = coin; payee = payee }) s.issues)) in
      (
        new,
        λ a n. rw (after) (bank.add_balance payee coin s.bank b a n add),
        λ n. rw (after) refl,
        Paid-IsBalanced coin payee stored t (record { supplies = v.supplies; mirrors = v.mirrors })
            known p,
        ground (arith, seen),
        ground (arith, seen),
      )

  -- A withdraw that succeeds is stored under the next id, takes the coin from the spender's balance,
  -- from the total and from the supply, and changes no other balance; where totals and supplies
  -- agreed, they agree again.
  pub withdraw_lem :
      (timestamp : ℕ) (tx_hash : Name) (coin : Coin) (spender : Address) (recipient chain_id : Name)
      (s t : State B)
      → IsBalanced s
      → withdraw_currency k banned marshals timestamp tx_hash coin spender recipient chain_id s
        ≡ (ok tt, t)
      → (lookup (get_next_withdraw_id s) t.withdraws
          ≡ some (new_withdraw timestamp tx_hash coin spender recipient chain_id s))
        × (get_next_withdraw_id t ≡ suc (get_next_withdraw_id s))
        × ((a n : ℕ)
            → k.balance_of a n t.bank + amount_at spender coin a n ≡ k.balance_of a n s.bank)
        × ((n : ℕ) → t.total n + amount_in coin n ≡ s.total n)
        × IsBalanced t
  unfolding get_next_withdraw_id
  withdraw_lem timestamp tx_hash coin spender recipient chain_id s t v run =
      let w = new_withdraw timestamp tx_hash coin spender recipient chain_id s in
      let (b, ccs, enough, paid, down, after) =
        withdrawn k banned marshals timestamp tx_hash coin spender recipient chain_id s t run in
      (
        rw (after) (ground (arith, lookup-insert w.id w.id w s.withdraws)),
        rw (after) refl,
        λ a n. rw (after) (bank.subtract_balance spender coin s.bank b a n paid),
        λ n. rw (after) (elim (Bool-cases (coin.denom == n)) [
          | inr d ↦ rw (d) (omega arith)
          | inl d ↦
              let same = ap s.total (==→eq coin.denom n d) in rw (d) (omega (arith, same, enough))
        ]),
        Withdrawn-IsBalanced w s t v (b, ccs, enough, paid, down, after),
      )
