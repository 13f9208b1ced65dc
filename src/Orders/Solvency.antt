-- ===== src/Orders/Solvency.antt =====
-- x/orders: the module account against the orders of the store.
use blockchain_relay_layer.Base.{
  ◌∙◌, ℕ, ◌≤◌, ◌≡◌, refl, Bool, true, false, Option, none, some, List, [], ◌∷◌, map, elem, ◌==◌,
  ◌&&◌, arith, inl, inr, Bool-cases,
}
use blockchain_relay_layer.Base.Map.{Map, lookup, lookup-insert, lookup-erase}
use blockchain_relay_layer.Base.Action.{ok}
use blockchain_relay_layer.Sdk.{DecOps, DecLaws}
use blockchain_relay_layer.Sdk.Bank.{Coin, BankOps, BankLaws, amount_in}
use blockchain_relay_layer.Ccstorage.Types.{Name}
use blockchain_relay_layer.Ccstorage.Keeper as Currencies
use blockchain_relay_layer.Markets.Keeper as Markets
use blockchain_relay_layer.Markets.Listed.{below_next}
use blockchain_relay_layer.Orders.Types.{Address, Direction, Order, OrderFill, lock_coin}
use blockchain_relay_layer.Orders.Keeper.{
  State, set, next_id, get_list, settle_fill, place_order, post_order, revoke_order,
  handle_msg_cancel_order, revoke_expired, end_blocker, execute_order_fill, execute_order_fills,
}
use blockchain_relay_layer.Orders.Amounts.{
  coin_amount, locked_by, total_locked, total_locked-insert, total_locked-erase, Precise,
  lock_coin_mono,
}
use blockchain_relay_layer.Orders.Cases.{
  handle_msg_cancel_order_cases, with_order, without_order, post_order_cases, place_order_cases,
  revoke_order_cases, revoke_expired_cases, handle_msg_cancel_order_cases, execute_order_fill_cases,
  execute_order_fills_cases,
}

-- An order stands under its id, which is no later than the last one.
abbrev pub is_sound : Option ℕ → ℕ → Option Order → Bool
is_sound last id none = true
is_sound last id (some o) = (o.id == id) && below_next id last

-- A fill of an order that stands in the store, with no more left than there was.
abbrev pub IsFillOf : Map Order → OrderFill → Type 0
IsFillOf orders f =
    (lookup f.order.id orders ≡ some f.order)
    × (f.quantity_unfilled ≤ f.order.quantity)
    × Precise f.order.market

abbrev pub fill_ids : List OrderFill → List ℕ
fill_ids = map λ f. f.order.id

-- What is left of an order after a fill.
abbrev pub left_over : ℕ → OrderFill → Order
left_over block_time f = record f.order { quantity = f.quantity_unfilled; updated_at = block_time }

-- Fills of different orders.
abbrev pub AreFillsOf : Map Order → List OrderFill → Type 0
AreFillsOf orders [] = Unit
AreFillsOf orders (f ∷ fs) =
    IsFillOf orders f × (elem f.order.id (fill_ids fs) ≡ false) × AreFillsOf orders fs

module _ {B : Type 0} (d : DecOps) (k : BankOps B) where
  -- The module account holds, in every denom, what the orders of the store have locked.
  pub record IsSolvent (s : State B) : Type 0 where
    pub stored : (id : ℕ) → is_sound s.last_order_id id (lookup id s.orders) ≡ true
    pub backed : (n : ℕ) → total_locked d n s.orders ≤ k.locked_of n s.bank

module _ {B : Type 0} (d : DecOps) (k : BankOps B) (laws : DecLaws d) (bank : BankLaws k) where
  with_order-IsSolvent :
      (o : Order) (coin : Coin) (b : B) (s : State B)
      → IsSolvent d k s
      → o.id ≡ next_id s
      → lock_coin d o ≡ ok coin
      → k.lock_coin o.owner coin s.bank ≡ some b
      → IsSolvent d k (with_order d k o b s)
  unfolding next_id
  with_order-IsSolvent o coin b s v fresh c l = record {
    stored = λ id. ground (arith, v.stored id, lookup-insert o.id id o s.orders);
    backed = λ n.
        let amount : coin_amount n (lock_coin d o) ≡ amount_in coin n = rw (c) refl in
        omega (
          arith,
          total_locked-insert d n o.id o s.orders,
          bank.lock_locked o.owner coin s.bank b n l,
          v.backed n,
        );
  }

  pub place_order-IsSolvent :
      (o : Order) (s : State B)
      → IsSolvent d k s
      → o.id ≡ next_id s
      → IsSolvent d k (place_order d k o s).1
  place_order-IsSolvent o s v fresh = elim (place_order_cases d k o s) [
    | inl (coin, b, c, l, f) ↦ rw (f) (with_order-IsSolvent o coin b s v fresh c l)
    | inr (_, f) ↦ rw (f) v
  ]

  pub post_order-IsSolvent :
      (asset_code : Name → Name → Name) (ms : Markets.State) (cs : Currencies.State)
      (block_time : ℕ) (owner : Address) (code : Name) (side : Direction) (price quantity ttl : ℕ)
      (s : State B)
      → IsSolvent d k s
      → IsSolvent d k
          (post_order d k asset_code ms cs block_time owner code side price quantity ttl s).1
  post_order-IsSolvent asset_code ms cs block_time owner code side price quantity ttl s v =
      elim (post_order_cases d k asset_code ms cs block_time owner code side price quantity ttl s) [
        | inr (_, e) ↦ rw (e) v
        | inl (o, fresh, e) ↦ rw (e) (place_order-IsSolvent o s v fresh)
      ]

  without_order-IsSolvent :
      (id : ℕ) (o : Order) (coin : Coin) (b : B) (s : State B)
      → IsSolvent d k s
      → lookup id s.orders ≡ some o
      → lock_coin d o ≡ ok coin
      → k.unlock_coin o.owner coin s.bank ≡ some b
      → IsSolvent d k (without_order d k id b s)
  without_order-IsSolvent id o coin b s v e c l = record {
    stored = λ i. ground (arith, v.stored i, lookup-erase id i s.orders);
    backed = λ n.
        let amount : locked_by d n (lookup id s.orders) ≡ amount_in coin n = rw (e, c) refl in
        omega (
          arith,
          total_locked-erase d n id s.orders,
          bank.unlock_locked o.owner coin s.bank b n l,
          v.backed n,
        );
  }

  pub revoke_order-IsSolvent :
      (id : ℕ) (s : State B) → IsSolvent d k s → IsSolvent d k (revoke_order d k id s).1
  revoke_order-IsSolvent id s v = elim (revoke_order_cases d k id s) [
    | inl (o, coin, b, e, c, l, f) ↦ rw (f) (without_order-IsSolvent id o coin b s v e c l)
    | inr (_, f) ↦ rw (f) v
  ]

  pub handle_msg_cancel_order-IsSolvent :
      (owner : Address) (id : ℕ) (s : State B)
      → IsSolvent d k s
      → IsSolvent d k (handle_msg_cancel_order d k owner id s).1
  handle_msg_cancel_order-IsSolvent owner id s v =
      elim (handle_msg_cancel_order_cases d k owner id s) [
        | inl e ↦ rw (e) v
        | inr e ↦ rw (e) (revoke_order-IsSolvent id s v)
      ]

  revoke_expired-IsSolvent :
      (now : ℕ) (os : List Order) (s : State B)
      → IsSolvent d k s
      → IsSolvent d k (revoke_expired d k now os s).1
  unfolding revoke_expired
  revoke_expired-IsSolvent now [] s v = v
  revoke_expired-IsSolvent now (o ∷ os) s v = elim (revoke_expired_cases d k now o os s) [
    | inl e ↦ rw (e) (revoke_expired-IsSolvent now os s v)
    | inr (inl e) ↦ rw (e) (revoke_order-IsSolvent o.id s v)
    | inr (inr e) ↦ rw (e) (
        revoke_expired-IsSolvent now os (revoke_order d k o.id s).1
          (revoke_order-IsSolvent o.id s v))
  ]

  pub end_blocker-IsSolvent :
      (now : ℕ) (s : State B) → IsSolvent d k s → IsSolvent d k (end_blocker d k now s).1
  unfolding end_blocker
  end_blocker-IsSolvent now s v = revoke_expired-IsSolvent now (get_list s) s v

  with_bank-IsSolvent :
      (b : B) (s : State B)
      → IsSolvent d k s
      → ((n : ℕ) → k.locked_of n b ≡ k.locked_of n s.bank)
      → IsSolvent d k (record s { bank = b })
  with_bank-IsSolvent b s v same = record {
    stored = v.stored;
    backed = λ n. omega (arith, same n, v.backed n);
  }

  settle_fill-IsSolvent :
      (block_time : ℕ) (f : OrderFill) (s : State B)
      → IsSolvent d k s
      → IsFillOf s.orders f
      → IsSolvent d k (settle_fill block_time f s)
  unfolding settle_fill
  settle_fill-IsSolvent block_time f s v (e, l, p) = elim (Bool-cases (f.quantity_unfilled == 0)) [
    | inl z ↦ rw (z) (record {
      stored = λ i. ground (arith, v.stored i, lookup-erase f.order.id i s.orders);
      backed = λ n. omega (arith, total_locked-erase d n f.order.id s.orders, v.backed n);
    })
    | inr z ↦ rw (z) (partly block_time f s v (e, l, p))
  ]
    where
      partly :
          (block_time : ℕ) (f : OrderFill) (s : State B)
          → IsSolvent d k s
          → IsFillOf s.orders f
          → IsSolvent d k (set (left_over block_time f) s)
      partly block_time f s v (e, l, p) =
          let o = left_over block_time f in
          record {
            stored = λ i.
                ground (arith, v.stored i, v.stored f.order.id, e, lookup-insert o.id i o s.orders);
            backed = λ n.
                let was : locked_by d n (lookup f.order.id s.orders)
                    ≡ coin_amount n (lock_coin d f.order) =
                  rw (e) refl in
                omega (
                  arith,
                  total_locked-insert d n o.id o s.orders,
                  lock_coin_mono d laws f.order f.quantity_unfilled block_time n p l,
                  v.backed n,
                );
          }

  lookup-settle_fill :
      (block_time : ℕ) (f : OrderFill) (s : State B) (i : ℕ)
      → (f.order.id == i) ≡ false
      → lookup i (settle_fill block_time f s).orders ≡ lookup i s.orders
  unfolding settle_fill
  lookup-settle_fill block_time f s i h = elim (Bool-cases (f.quantity_unfilled == 0)) [
    | inl z ↦ rw (z) (ground (arith, h, lookup-erase f.order.id i s.orders))
    | inr z ↦
        rw (z) (ground (arith, h, lookup-insert f.order.id i (left_over block_time f) s.orders))
  ]

  AreFillsOf-settled :
      (block_time : ℕ) (f : OrderFill) (fs : List OrderFill) (s : State B)
      → elem f.order.id (fill_ids fs) ≡ false
      → AreFillsOf s.orders fs
      → AreFillsOf (settle_fill block_time f s).orders fs
  unfolding settle_fill
  AreFillsOf-settled block_time f [] s h a = tt
  AreFillsOf-settled block_time f (g ∷ fs) s h a =
      let apart : (f.order.id == g.order.id) ≡ false = ground (arith, h) in
      let later : elem f.order.id (fill_ids fs) ≡ false = ground (arith, h) in
      let ((e, l, p), fresh, r) = a in
      (
        (lookup-settle_fill block_time f s g.order.id apart ∙ e, l, p),
        fresh,
        AreFillsOf-settled block_time f fs s later r,
      )

  execute_order_fill-IsSolvent :
      (block_time : ℕ) (f : OrderFill) (fs : List OrderFill) (s : State B)
      → IsSolvent d k s
      → AreFillsOf s.orders (f ∷ fs)
      → IsSolvent d k (execute_order_fill d k block_time f s).1
        × AreFillsOf (execute_order_fill d k block_time f s).1.orders fs
  execute_order_fill-IsSolvent block_time f fs s v (first, fresh, rest) =
      let (b, same, out) = execute_order_fill_cases d k bank block_time f s in
      let paid = with_bank-IsSolvent b s v same in
      elim out [
        | inl e ↦ rw (e) (paid, rest)
        | inr e ↦ rw (e) (
          settle_fill-IsSolvent block_time f (record s { bank = b }) paid first,
          AreFillsOf-settled block_time f fs (record s { bank = b }) fresh rest,
        )
      ]

  pub execute_order_fills-IsSolvent :
      (block_time : ℕ) (fs : List OrderFill) (s : State B)
      → IsSolvent d k s
      → AreFillsOf s.orders fs
      → IsSolvent d k (execute_order_fills d k block_time fs s).1
  unfolding execute_order_fills
  execute_order_fills-IsSolvent block_time [] s v a = v
  execute_order_fills-IsSolvent block_time (f ∷ fs) s v a =
      let (next, rest) = execute_order_fill-IsSolvent block_time f fs s v a in
      elim (execute_order_fills_cases d k block_time f fs s) [
        | inl e ↦ rw (e) next
        | inr e ↦ rw (e) (
            execute_order_fills-IsSolvent block_time fs (execute_order_fill d k block_time f s).1
              next rest)
      ]
