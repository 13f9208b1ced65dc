-- ===== src/Orders/Keeper.antt =====
-- x/orders: the methods of internal/keeper/keeper.go, order.go and funds.go, handler.go, and the end
-- of a block (abci.go).
use blockchain_relay_layer.Base.{
  ltb, ℕ, suc, ◌+◌, Bool, true, false, Option, none, some, List, [], ◌∷◌, ◌==◌, leb, not,
  if◌then◌else◌,
}
use blockchain_relay_layer.Base.Map.{Map, values, lookup, insert, erase}
use blockchain_relay_layer.Base.Action.{Result, ok, err, panic, Action}
use blockchain_relay_layer.Sdk.{DecOps}
use blockchain_relay_layer.Sdk.Bank.{BankOps}
use blockchain_relay_layer.Ccstorage.Types.{Name}
use blockchain_relay_layer.Ccstorage.Keeper as Currencies
use blockchain_relay_layer.Markets.Types.{MarketsReq, new_markets_filter}
use blockchain_relay_layer.Markets.Keeper as Markets
use blockchain_relay_layer.Orders.Types.{
  Error, wrong_asset_code, market_failure, internal, wrong_order_id, wrong_owner, Address,
  Direction, Order, OrderFill, new_order, validate_price_quantity, lock_coin, fill_coin,
  refund_coin,
}

-- The orders by id, the last id, and the accounts of the bank.
pub record State (B : Type 0) : Type 0 where
  pub orders : Map Order
  pub last_order_id : Option ℕ
  pub bank : B

-- `now.Sub(order.CreatedAt) >= order.Ttl`
abbrev pub is_expired : ℕ → Order → Bool
is_expired now o =
    if ltb o.ttl 9_223_372_036_854_775_808
    then leb (o.created_at + o.ttl) now
    else leb (o.created_at + o.ttl) (now + 18_446_744_073_709_551_616)

module _ {B : Type 0} where
  unfoldable pub get : State B → ℕ → Result Error Order
  get s id = elim (lookup id s.orders) [ none ↦ err wrong_order_id | some o ↦ ok o ]

  -- `GetList`
  abbrev pub get_list : State B → List Order
  get_list s = values s.orders

  unfoldable pub next_id : State B → ℕ
  next_id s = elim s.last_order_id [ none ↦ 0 | some last ↦ suc last ]

  abbrev pub set : Order → State B → State B
  set o s = record s { orders = insert o.id o s.orders }

  abbrev pub del : ℕ → State B → State B
  del id s = record s { orders = erase id s.orders }

  -- The end of one round of `ExecuteOrderFills`.
  unfoldable pub settle_fill : ℕ → OrderFill → State B → State B
  settle_fill block_time f s =
      if f.quantity_unfilled == 0
      then del f.order.id s
      else set (record f.order { quantity = f.quantity_unfilled; updated_at = block_time }) s

module _ {B : Type 0} (d : DecOps) (k : BankOps B) where
  -- `LockOrderCoins`
  unfoldable pub lock_order_coins : Order → Action (State B) Error (Unit {0})
  lock_order_coins o s = elim (lock_coin d o) [
    | err e ↦ (err e, s)
    | panic ↦ (panic, s)
    | ok coin ↦ elim (k.lock_coin o.owner coin s.bank) [
      | none ↦ (err internal, s)
      | some b ↦ (ok tt, record s { bank = b })
    ]
  ]

  -- `UnlockOrderCoins`
  unfoldable pub unlock_order_coins : Order → Action (State B) Error (Unit {0})
  unlock_order_coins o s = elim (lock_coin d o) [
    | err e ↦ (err e, s)
    | panic ↦ (panic, s)
    | ok coin ↦ elim (k.unlock_coin o.owner coin s.bank) [
      | none ↦ (err internal, s)
      | some b ↦ (ok tt, record s { bank = b })
    ]
  ]

  -- The end of `PostOrder`, for an order that has been made.
  unfoldable pub place_order : Order → Action (State B) Error Order
  unfolding lock_order_coins
  place_order o s = elim (validate_price_quantity d o) [
    | err e ↦ (err e, s)
    | panic ↦ (panic, s)
    | ok _ ↦
        let (r, s') = lock_order_coins o s in
        elim r [
          | err e ↦ (err e, s')
          | panic ↦ (panic, s')
          | ok _ ↦ (ok o, record (set o s') { last_order_id = some o.id })
        ]
  ]

  -- `PostOrder`: the first market with the asset code, for a way to write that code.
  unfoldable pub post_order :
      (Name → Name → Name)
      → Markets.State
      → Currencies.State
      → ℕ
      → Address
      → Name
      → Direction
      → ℕ
      → ℕ
      → ℕ
      → Action (State B) Error Order
  unfolding place_order Markets.get_list_filtered Markets.get_extended
  post_order asset_code ms cs block_time owner code direction price quantity ttl_in_sec s =
      let filter : MarketsReq = record (new_markets_filter 1 1) { asset_code = code } in
      elim (Markets.get_list_filtered asset_code ms filter) [
        | err _ ↦ (err wrong_asset_code, s)
        | panic ↦ (panic, s)
        | ok [] ↦ (err wrong_asset_code, s)
        | ok (m ∷ _) ↦ elim (Markets.get_extended ms cs m.id) [
          | err _ ↦ (err market_failure, s)
          | panic ↦ (panic, s)
          | ok market ↦
              place_order
                (new_order block_time (next_id s) owner market direction price quantity ttl_in_sec)
                s
        ]
      ]

  -- `RevokeOrder`
  unfoldable pub revoke_order : ℕ → Action (State B) Error (Unit {0})
  unfolding unlock_order_coins
  revoke_order id s = elim (lookup id s.orders) [
    | none ↦ (err wrong_order_id, s)
    | some o ↦
        let (r, s') = unlock_order_coins o s in
        elim r [ ok _ ↦ (ok tt, del id s') | err e ↦ (err e, s') | panic ↦ (panic, s') ]
  ]

  -- `handleMsgCancelOrder`, for an order that can be marshalled.
  unfoldable pub handle_msg_cancel_order : Address → ℕ → Action (State B) Error Order
  unfolding revoke_order
  handle_msg_cancel_order owner id s = elim (lookup id s.orders) [
    | none ↦ (err wrong_order_id, s)
    | some o ↦
        if not (o.owner == owner)
        then (err wrong_owner, s)
        else let (r, s') = revoke_order id s in
          elim r [ ok _ ↦ (ok o, s') | err e ↦ (err e, s') | panic ↦ (panic, s') ]
  ]

  -- The loop of `EndBlocker` over the orders that stood at its start; an error is only logged.
  unfoldable pub revoke_expired : ℕ → List Order → Action (State B) Error (Unit {0})
  unfolding revoke_order
  revoke_expired now [] s = (ok tt, s)
  revoke_expired now (o ∷ os) s = elim (is_expired now o) [
    | false ↦ revoke_expired now os s
    | true ↦ elim (revoke_order o.id s).0 [
      | panic ↦ (panic, (revoke_order o.id s).1)
      | ok _ ↦ revoke_expired now os (revoke_order o.id s).1
      | err _ ↦ revoke_expired now os (revoke_order o.id s).1
    ]
  ]

  -- `EndBlocker`
  unfoldable pub end_blocker : ℕ → Action (State B) Error (Unit {0})
  unfolding revoke_expired
  end_blocker now s = revoke_expired now (get_list s) s

  -- One round of `ExecuteOrderFills`; an error is only logged, and ends the round.
  unfoldable pub execute_order_fill : ℕ → OrderFill → Action (State B) Error (Unit {0})
  unfolding settle_fill
  execute_order_fill block_time f s = elim (fill_coin d f) [
    | err _ ↦ (ok tt, s)
    | panic ↦ (panic, s)
    | ok coin ↦ elim (k.add_coin f.order.owner coin s.bank) [
      | none ↦ (panic, s)
      | some b ↦ elim (refund_coin d f) [
        | err _ ↦ (ok tt, record s { bank = b })
        | panic ↦ (panic, record s { bank = b })
        | ok none ↦ (ok tt, settle_fill block_time f (record s { bank = b }))
        | ok (some refund) ↦ elim (k.add_coin f.order.owner refund b) [
          | none ↦ (panic, record s { bank = b })
          | some b' ↦ (ok tt, settle_fill block_time f (record s { bank = b' }))
        ]
      ]
    ]
  ]

  -- `ExecuteOrderFills`
  unfoldable pub execute_order_fills : ℕ → List OrderFill → Action (State B) Error (Unit {0})
  unfolding execute_order_fill
  execute_order_fills block_time [] s = (ok tt, s)
  execute_order_fills block_time (f ∷ fs) s = elim (execute_order_fill block_time f s).0 [
    | panic ↦ (panic, (execute_order_fill block_time f s).1)
    | err e ↦ (err e, (execute_order_fill block_time f s).1)
    | ok _ ↦ execute_order_fills block_time fs (execute_order_fill block_time f s).1
  ]
