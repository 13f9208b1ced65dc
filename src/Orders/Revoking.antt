-- ===== src/Orders/Revoking.antt =====
-- x/orders: what an order's owner gets back, and the orders that cannot be revoked.
use blockchain_relay_layer.Base.{
  ℕ, ◌+◌, ◌≤◌, ◌≡◌, refl, sym, ap, ◌∙◌, none, some, List, [], ◌∷◌, ◌==◌, arith, inl, inr,
  Bool-cases, Option-cases, ==_refl,
}
use blockchain_relay_layer.Base.Map.{lookup, lookup-insert, lookup-erase}
use blockchain_relay_layer.Base.Action.{ok, err}
use blockchain_relay_layer.Sdk.{DecOps, DecLaws}
use blockchain_relay_layer.Sdk.Bank.{Coin, BankOps, BankLaws, amount_at}
use blockchain_relay_layer.Ccstorage.Types.{Name}
use blockchain_relay_layer.Ccstorage.Keeper as Currencies
use blockchain_relay_layer.Markets.Keeper as Markets
use blockchain_relay_layer.Orders.Types.{Error, Address, Direction, Order, OrderFill, lock_coin}
use blockchain_relay_layer.Orders.Keeper.{
  State, next_id, get_list, place_order, post_order, unlock_order_coins, revoke_order,
  revoke_expired, end_blocker, execute_order_fills, execute_order_fill, settle_fill,
}
use blockchain_relay_layer.Orders.Amounts.{locked_by, locked_by-le}
use blockchain_relay_layer.Orders.Cases.{
  with_order, without_order, post_order_cases, place_order_cases, revoke_order_cases,
  revoke_expired_cases, execute_order_fill_cases, execute_order_fills_cases,
}
use blockchain_relay_layer.Orders.Solvency.{IsSolvent, post_order-IsSolvent}

module _ {B : Type 0} (d : DecOps) (k : BankOps B) (laws : DecLaws d) (bank : BankLaws k) where
  -- Where the module account holds what the orders have locked, an order of the store whose locked
  -- coin can be computed can be revoked: the call succeeds, removes the order, and adds exactly that
  -- coin to its owner's balance.
  pub revoke_succeeds :
      (id : ℕ) (o : Order) (coin : Coin) (s : State B)
      → IsSolvent d k s
      → lookup id s.orders ≡ some o
      → lock_coin d o ≡ ok coin
      → (b : B) × (revoke_order d k id s ≡ (ok tt, without_order d k id b s))
        × ((a n : ℕ) → k.balance_of a n b ≡ k.balance_of a n s.bank + amount_at o.owner coin a n)
  unfolding revoke_order unlock_order_coins
  revoke_succeeds id o coin s v e c =
      let held : coin.amount ≤ k.locked_of coin.denom s.bank = covered in
      elim (Option-cases (k.unlock_coin o.owner coin s.bank)) [
        | inl f ↦ absurd (bank.unlock_succeeds o.owner coin s.bank held f)
        | inr (b, f) ↦
            (b, ground (arith, e, c, f), λ a n. bank.unlock_balance o.owner coin s.bank b a n f)
      ]
    where
      covered : coin.amount ≤ k.locked_of coin.denom s.bank
      covered =
          let amount : locked_by d coin.denom (lookup id s.orders) ≡ coin.amount =
            rw (e, c, ==_refl coin.denom) refl in
          omega (arith, locked_by-le d coin.denom id s.orders, v.backed coin.denom)

  -- What a call that posts an order has done.
  abbrev Posted : Order → State B → State B → Type 0
  Posted o s t =
      (coin : Coin) × (b : B) × (o.id ≡ next_id s)
      × (lock_coin d o ≡ ok coin)
      × (k.lock_coin o.owner coin s.bank ≡ some b)
      × (t ≡ with_order d k o b s)

  placed :
      (o o' : Order) (s t : State B)
      → o'.id ≡ next_id s
      → place_order d k o' s ≡ (ok o, t)
      → Posted o s t
  placed o o' s t fresh run = elim (place_order_cases d k o' s) [
    | inr (bad, _) ↦ absurd (ground (arith, bad, run))
    | inl (coin, b, c, l, e) ↦
        let out = sym e ∙ run in
        let same : o' ≡ o = cc in
        let after : with_order d k o' b s ≡ t = ap (λ r. r.1) out in
        (
          coin,
          b,
          ap (λ (x : Order). x.id) (sym same) ∙ fresh,
          rw (← same) c,
          rw (← same) l,
          sym after ∙ ap (λ (x : Order). with_order d k x b s) same,
        )
  ]

  next_id-free : (s : State B) → IsSolvent d k s → lookup (next_id s) s.orders ≡ none
  unfolding next_id
  next_id-free s v = ground (arith, v.stored (next_id s))

  undone :
      (o : Order) (coin : Coin) (b : B) (s : State B)
      → IsSolvent d k s
      → IsSolvent d k (with_order d k o b s)
      → o.id ≡ next_id s
      → lock_coin d o ≡ ok coin
      → k.lock_coin o.owner coin s.bank ≡ some b
      → (u : State B) × (revoke_order d k o.id (with_order d k o b s) ≡ (ok tt, u))
        × ((a n : ℕ) → k.balance_of a n u.bank ≡ k.balance_of a n s.bank)
        × ((id : ℕ) → lookup id u.orders ≡ lookup id s.orders)
  undone o coin b s v w fresh c l =
      let t = with_order d k o b s in
      let found : lookup o.id t.orders ≡ some o =
        ground (arith, lookup-insert o.id o.id o s.orders) in
      let (b', run, paid) = revoke_succeeds o.id o coin t w found c in
      (
        without_order d k o.id b' t,
        run,
        λ a n. omega (arith, paid a n, bank.lock_balance o.owner coin s.bank b a n l),
        λ id. ground (
          arith,
          fresh,
          next_id-free s v,
          lookup-erase o.id id t.orders,
          lookup-insert o.id id o s.orders,
        ),
      )

  -- An order that was just posted can be revoked, and then every balance and every order of the store
  -- is what it was before the order was posted.
  pub revoke-post :
      (asset_code : Name → Name → Name) (ms : Markets.State) (cs : Currencies.State)
      (block_time : ℕ) (owner : Address) (code : Name) (side : Direction) (price quantity ttl : ℕ)
      (o : Order) (s t : State B)
      → IsSolvent d k s
      → post_order d k asset_code ms cs block_time owner code side price quantity ttl s ≡ (ok o, t)
      → (u : State B) × (revoke_order d k o.id t ≡ (ok tt, u))
        × ((a n : ℕ) → k.balance_of a n u.bank ≡ k.balance_of a n s.bank)
        × ((id : ℕ) → lookup id u.orders ≡ lookup id s.orders)
  revoke-post asset_code ms cs block_time owner code side price quantity ttl o s t v run =
      let (coin, b, fresh, c, l, after) = posted in
      rw (after) (undone o coin b s v (rw (← after) still) fresh c l)
    where
      posted : Posted o s t
      posted =
          elim (post_order_cases d k asset_code ms cs block_time owner code side price quantity ttl
            s) [
              | inr (bad, _) ↦ absurd (ground (arith, bad, run))
              | inl (o', fresh, e) ↦ placed o o' s t fresh (sym e ∙ run)
            ]

      still : IsSolvent d k t
      still = rw (← ap (λ r. r.1) run) (
          post_order-IsSolvent d k laws bank asset_code ms cs block_time owner code side price
            quantity ttl s v)

  revoke_order-keeps :
      (id j : ℕ) (o : Order) (e : Error) (s : State B)
      → lookup id s.orders ≡ some o
      → lock_coin d o ≡ err e
      → lookup id (revoke_order d k j s).1.orders ≡ some o
  revoke_order-keeps id j o e s f c = elim (revoke_order_cases d k j s) [
    | inr (_, same) ↦ rw (same) f
    | inl (o', coin, b, f', c', l, g) ↦ rw (g) (elim (Bool-cases (j == id)) [
      | inr x ↦ ground (arith, x, f, lookup-erase j id s.orders)
      | inl x ↦
          let at : j ≡ id = ground arith in
          let same : o' ≡ o = cc in
          absurd (ground (arith, c, c', ap (λ (y : Order). lock_coin d y) same))
    ])
  ]

  revoke_expired-keeps :
      (id now : ℕ) (o : Order) (e : Error) (os : List Order) (s : State B)
      → lookup id s.orders ≡ some o
      → lock_coin d o ≡ err e
      → lookup id (revoke_expired d k now os s).1.orders ≡ some o
  unfolding revoke_expired
  revoke_expired-keeps id now o e [] s f c = f
  revoke_expired-keeps id now o e (x ∷ os) s f c = elim (revoke_expired_cases d k now x os s) [
    | inl g ↦ rw (g) (revoke_expired-keeps id now o e os s f c)
    | inr (inl g) ↦ rw (g) (revoke_order-keeps id x.id o e s f c)
    | inr (inr g) ↦ rw (g) (
        revoke_expired-keeps id now o e os (revoke_order d k x.id s).1
          (revoke_order-keeps id x.id o e s f c) c)
  ]

  -- An order whose locked coin cannot be computed, such as a bid of which too little is left, is
  -- never revoked: the call returns the error, and the ends of blocks leave the order where it is,
  -- however long it has expired.
  pub unlockable_order_stays :
      (id now : ℕ) (o : Order) (e : Error) (s : State B)
      → lookup id s.orders ≡ some o
      → lock_coin d o ≡ err e
      → (revoke_order d k id s ≡ (err e, s)) × (lookup id (end_blocker d k now s).1.orders ≡ some o)
  unfolding revoke_order unlock_order_coins end_blocker
  unlockable_order_stays id now o e s f c =
      (ground (arith, f, c), revoke_expired-keeps id now o e (get_list s) s f c)

  locked-execute_order_fill :
      (block_time : ℕ) (f : OrderFill) (s : State B) (n : ℕ)
      → k.locked_of n (execute_order_fill d k block_time f s).1.bank ≡ k.locked_of n s.bank
  unfolding settle_fill
  locked-execute_order_fill block_time f s n =
      let (b, same, out) = execute_order_fill_cases d k bank block_time f s in
      elim out [
        | inl e ↦ rw (e) (same n)
        | inr e ↦ elim (Bool-cases (f.quantity_unfilled == 0)) [
          | inl z ↦ rw (e, z) (same n)
          | inr z ↦ rw (e, z) (same n)
        ]
      ]

  -- The fills never pay out of the module account: it holds the same after them as before, in every
  -- denom.
  pub locked-execute_order_fills :
      (block_time : ℕ) (fs : List OrderFill) (s : State B) (n : ℕ)
      → k.locked_of n (execute_order_fills d k block_time fs s).1.bank ≡ k.locked_of n s.bank
  unfolding execute_order_fills
  locked-execute_order_fills block_time [] s n = refl
  locked-execute_order_fills block_time (f ∷ fs) s n =
      elim (execute_order_fills_cases d k block_time f fs s) [
        | inl e ↦ rw (e) (locked-execute_order_fill block_time f s n)
        | inr e ↦ rw (e) (
            locked-execute_order_fills block_time fs (execute_order_fill d k block_time f s).1 n
            ∙ locked-execute_order_fill block_time f s n)
      ]
