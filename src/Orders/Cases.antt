-- ===== src/Orders/Cases.antt =====
-- x/orders/internal/keeper: how each method of the keeper can end.
use blockchain_relay_layer.Base.{
  ◌==◌, ℕ, ◌≡◌, refl, ◌∙◌, false, none, some, List, [], ◌∷◌, arith, inl, inr, Bool-cases,
  Option-cases, ◌⊎◌,
}
use blockchain_relay_layer.Base.Map.{lookup, insert, erase}
use blockchain_relay_layer.Base.Action.{Result, ok, is_ok, Result-cases}
use blockchain_relay_layer.Sdk.{DecOps}
use blockchain_relay_layer.Sdk.Bank.{Coin, BankOps, BankLaws}
use blockchain_relay_layer.Ccstorage.Types.{Name}
use blockchain_relay_layer.Ccstorage.Keeper as Currencies
use blockchain_relay_layer.Markets.Types.{MarketsReq, new_markets_filter}
use blockchain_relay_layer.Markets.Keeper as Markets
use blockchain_relay_layer.Orders.Types.{
  Address, Direction, new_order, Address, Error, Order, OrderFill, lock_coin,
  validate_price_quantity, fill_coin, refund_coin,
}
use blockchain_relay_layer.Orders.Keeper.{
  is_expired, execute_order_fills, revoke_expired, handle_msg_cancel_order, State, next_id,
  post_order, lock_order_coins, unlock_order_coins, place_order, revoke_order, execute_order_fill,
  settle_fill,
}

-- A call that fails changes nothing.
abbrev pub Fails : {S E A : Type 0} → Result E A × S → S → Type 0
Fails {E = E} {A = A} (out, s') s = (is_ok out ≡ false) × (s' ≡ s)

module _ {B : Type 0} (d : DecOps) (k : BankOps B) where
  abbrev pub Locks : Order → State B → Type 0
  Locks o s =
      (coin : Coin) × (b : B) × (lock_coin d o ≡ ok coin)
      × (k.lock_coin o.owner coin s.bank ≡ some b)
      × (lock_order_coins d k o s ≡ (ok tt, record s { bank = b }))

  lock_order_coins_cases :
      (o : Order) (s : State B) → Locks o s ⊎ Fails (lock_order_coins d k o s) s
  unfolding lock_order_coins
  lock_order_coins_cases o s = elim (Result-cases (lock_coin d o)) [
    | inl (coin, e) ↦ elim (Option-cases (k.lock_coin o.owner coin s.bank)) [
      | inl f ↦ inr (ground (arith, e, f))
      | inr (b, f) ↦ inl (coin, b, e, f, ground (arith, e, f))
    ]
    | inr (inl (x, e)) ↦ inr (ground (arith, e))
    | inr (inr e) ↦ inr (ground (arith, e))
  ]

  abbrev pub Unlocks : Order → State B → Type 0
  Unlocks o s =
      (coin : Coin) × (b : B) × (lock_coin d o ≡ ok coin)
      × (k.unlock_coin o.owner coin s.bank ≡ some b)
      × (unlock_order_coins d k o s ≡ (ok tt, record s { bank = b }))

  pub unlock_order_coins_cases :
      (o : Order) (s : State B) → Unlocks o s ⊎ Fails (unlock_order_coins d k o s) s
  unfolding unlock_order_coins
  unlock_order_coins_cases o s = elim (Result-cases (lock_coin d o)) [
    | inl (coin, e) ↦ elim (Option-cases (k.unlock_coin o.owner coin s.bank)) [
      | inl f ↦ inr (ground (arith, e, f))
      | inr (b, f) ↦ inl (coin, b, e, f, ground (arith, e, f))
    ]
    | inr (inl (x, e)) ↦ inr (ground (arith, e))
    | inr (inr e) ↦ inr (ground (arith, e))
  ]

  -- The state after an order is placed.
  abbrev pub with_order : Order → B → State B → State B
  with_order o b s = record s {
    orders = insert o.id o s.orders;
    last_order_id = some o.id;
    bank = b;
  }

  abbrev pub Places : Order → State B → Type 0
  Places o s =
      (coin : Coin) × (b : B) × (lock_coin d o ≡ ok coin)
      × (k.lock_coin o.owner coin s.bank ≡ some b)
      × (place_order d k o s ≡ (ok o, with_order o b s))

  pub place_order_cases : (o : Order) (s : State B) → Places o s ⊎ Fails (place_order d k o s) s
  unfolding place_order
  place_order_cases o s = elim (Result-cases (validate_price_quantity d o)) [
    | inl (u, e) ↦ elim (lock_order_coins_cases o s) [
      | inl (coin, b, c, l, f) ↦ inl (coin, b, c, l, ground (arith, e, f))
      | inr f ↦ inr (ground (arith, e, f))
    ]
    | inr (inl (x, e)) ↦ inr (ground (arith, e))
    | inr (inr e) ↦ inr (ground (arith, e))
  ]

  -- The order that a call makes.
  abbrev pub Posts : Result Error Order × State B → State B → Type 0
  Posts out s = (o : Order) × (o.id ≡ next_id s) × (out ≡ place_order d k o s)

  pub post_order_cases :
      (asset_code : Name → Name → Name) (ms : Markets.State) (cs : Currencies.State)
      (block_time : ℕ) (owner : Address) (code : Name) (side : Direction) (price quantity ttl : ℕ)
      (s : State B)
      → Posts (post_order d k asset_code ms cs block_time owner code side price quantity ttl s) s
        ⊎ Fails (post_order d k asset_code ms cs block_time owner code side price quantity ttl s) s
  unfolding post_order
  post_order_cases asset_code ms cs block_time owner code side price quantity ttl s =
      let filter : MarketsReq = record (new_markets_filter 1 1) { asset_code = code } in
      elim (Result-cases (Markets.get_list_filtered asset_code ms filter)) [
        | inr (inl (x, e)) ↦ inr (rw (post_order, e) (refl, refl))
        | inr (inr e) ↦ inr (rw (post_order, e) (refl, refl))
        | inl ([], e) ↦ inr (rw (post_order, e) (refl, refl))
        | inl (m ∷ l, e) ↦ elim (Result-cases (Markets.get_extended ms cs m.id)) [
          | inr (inl (x, g)) ↦ inr (rw (post_order, e, g) (refl, refl))
          | inr (inr g) ↦ inr (rw (post_order, e, g) (refl, refl))
          | inl (market, g) ↦ inl (
            new_order block_time (next_id s) owner market side price quantity ttl,
            refl,
            rw (post_order, e, g) refl,
          )
        ]
      ]

  -- The state after an order is revoked.
  abbrev pub without_order : ℕ → B → State B → State B
  without_order id b s = record s { orders = erase id s.orders; bank = b }

  abbrev pub Revokes : ℕ → State B → Type 0
  Revokes id s =
      (o : Order) × (coin : Coin) × (b : B) × (lookup id s.orders ≡ some o)
      × (lock_coin d o ≡ ok coin)
      × (k.unlock_coin o.owner coin s.bank ≡ some b)
      × (revoke_order d k id s ≡ (ok tt, without_order id b s))

  pub revoke_order_cases : (id : ℕ) (s : State B) → Revokes id s ⊎ Fails (revoke_order d k id s) s
  unfolding revoke_order
  revoke_order_cases id s = elim (Option-cases (lookup id s.orders)) [
    | inl e ↦ inr (ground (arith, e))
    | inr (o, e) ↦ elim (unlock_order_coins_cases o s) [
      | inl (coin, b, c, l, f) ↦ inl (o, coin, b, e, c, l, ground (arith, e, f))
      | inr f ↦ inr (ground (arith, e, f))
    ]
  ]

  pub handle_msg_cancel_order_cases :
      (owner : Address) (id : ℕ) (s : State B)
      → ((handle_msg_cancel_order d k owner id s).1 ≡ s)
        ⊎ ((handle_msg_cancel_order d k owner id s).1 ≡ (revoke_order d k id s).1)
  unfolding handle_msg_cancel_order
  handle_msg_cancel_order_cases owner id s = elim (Option-cases (lookup id s.orders)) [
    | inl e ↦ inl (ground (arith, e))
    | inr (o, e) ↦ elim (Bool-cases (o.owner == owner)) [
      | inr f ↦ inl (ground (arith, e, f))
      | inl f ↦ elim (Result-cases (revoke_order d k id s).0) [
        | inl (a, g) ↦ inr (ground (arith, e, f, g))
        | inr (inl (x, g)) ↦ inr (ground (arith, e, f, g))
        | inr (inr g) ↦ inr (ground (arith, e, f, g))
      ]
    ]
  ]

  pub revoke_expired_cases :
      (now : ℕ) (o : Order) (os : List Order) (s : State B)
      → ((revoke_expired d k now (o ∷ os) s).1 ≡ (revoke_expired d k now os s).1)
        ⊎ (((revoke_expired d k now (o ∷ os) s).1 ≡ (revoke_order d k o.id s).1)
            ⊎ ((revoke_expired d k now (o ∷ os) s).1
                ≡ (revoke_expired d k now os (revoke_order d k o.id s).1).1))
  unfolding revoke_expired
  revoke_expired_cases now o os s = elim (Bool-cases (is_expired now o)) [
    | inr e ↦ inl (ground (arith, e))
    | inl e ↦ elim (Result-cases (revoke_order d k o.id s).0) [
      | inl (a, f) ↦ inr (inr (ground (arith, e, f)))
      | inr (inl (x, f)) ↦ inr (inr (ground (arith, e, f)))
      | inr (inr f) ↦ inr (inl (ground (arith, e, f)))
    ]
  ]

  pub execute_order_fills_cases :
      (block_time : ℕ) (f : OrderFill) (fs : List OrderFill) (s : State B)
      → ((execute_order_fills d k block_time (f ∷ fs) s).1
          ≡ (execute_order_fill d k block_time f s).1)
        ⊎ ((execute_order_fills d k block_time (f ∷ fs) s).1
            ≡ (execute_order_fills d k block_time fs (execute_order_fill d k block_time f s).1).1)
  unfolding execute_order_fills
  execute_order_fills_cases block_time f fs s =
      elim (Result-cases (execute_order_fill d k block_time f s).0) [
        | inl (a, g) ↦ inr (ground (arith, g))
        | inr (inl (x, g)) ↦ inl (ground (arith, g))
        | inr (inr g) ↦ inl (ground (arith, g))
      ]

  -- One round of the fills: coins are added, and then the order is settled or the round ends.
  abbrev pub Fills : ℕ → OrderFill → State B → Type 0
  Fills block_time f s =
      (b : B) × ((n : ℕ) → k.locked_of n b ≡ k.locked_of n s.bank)
      × (((execute_order_fill d k block_time f s).1 ≡ record s { bank = b })
          ⊎ ((execute_order_fill d k block_time f s).1
              ≡ settle_fill block_time f (record s { bank = b })))

module _ {B : Type 0} (d : DecOps) (k : BankOps B) (bank : BankLaws k) where
  pub execute_order_fill_cases :
      (block_time : ℕ) (f : OrderFill) (s : State B) → Fills d k block_time f s
  unfolding execute_order_fill
  execute_order_fill_cases block_time f s = elim (Result-cases (fill_coin d f)) [
    | inr (inl (x, e)) ↦ (s.bank, λ n. refl, inl (ground (arith, e)))
    | inr (inr e) ↦ (s.bank, λ n. refl, inl (ground (arith, e)))
    | inl (coin, e) ↦ elim (Option-cases (k.add_coin f.order.owner coin s.bank)) [
      | inl a ↦ (s.bank, λ n. refl, inl (ground (arith, e, a)))
      | inr (b, a) ↦
          let same : (n : ℕ) → k.locked_of n b ≡ k.locked_of n s.bank =
            λ n. bank.add_locked f.order.owner coin s.bank b n a in
          elim (Result-cases (refund_coin d f)) [
            | inr (inl (x, g)) ↦ (b, same, inl (ground (arith, e, a, g)))
            | inr (inr g) ↦ (b, same, inl (ground (arith, e, a, g)))
            | inl (none, g) ↦ (b, same, inr (ground (arith, e, a, g)))
            | inl (some refund, g) ↦ elim (Option-cases (k.add_coin f.order.owner refund b)) [
              | inl h ↦ (b, same, inl (ground (arith, e, a, g, h)))
              | inr (b', h) ↦ (
                b',
                λ n. bank.add_locked f.order.owner refund b b' n h ∙ same n,
                inr (ground (arith, e, a, g, h)),
              )
            ]
          ]
    ]
  ]
