-- ===== src/Orders/Trace.antt =====
-- x/orders: the steps that messages and blocks take, in any order.
use blockchain_relay_layer.Base.{ℕ, refl, none, List, [], arith}
use blockchain_relay_layer.Base.Map.{lookup-empty}
use blockchain_relay_layer.Sdk.{DecOps, DecLaws}
use blockchain_relay_layer.Sdk.Bank.{BankOps, BankLaws}
use blockchain_relay_layer.Ccstorage.Types.{Name}
use blockchain_relay_layer.Ccstorage.Keeper as Currencies
use blockchain_relay_layer.Markets.Keeper as Markets
use blockchain_relay_layer.Orders.Types.{Address, Direction, OrderFill}
use blockchain_relay_layer.Orders.Keeper.{
  State, post_order, handle_msg_cancel_order, end_blocker, execute_order_fills,
}
use blockchain_relay_layer.Orders.Amounts.{total_locked}
use blockchain_relay_layer.Orders.Solvency.{
  AreFillsOf, IsSolvent, post_order-IsSolvent, handle_msg_cancel_order-IsSolvent,
  end_blocker-IsSolvent, execute_order_fills-IsSolvent,
}

module _ {B : Type 0} (d : DecOps) (k : BankOps B) where
  -- The markets and currencies may differ from step to step.
  pub data Step : State B → State B → Type 0 where
    post :
        (asset_code : Name → Name → Name) (ms : Markets.State) (cs : Currencies.State)
        (block_time : ℕ) (owner : Address) (code : Name) (side : Direction) (price quantity ttl : ℕ)
        (s : State B)
        → Step s (post_order d k asset_code ms cs block_time owner code side price quantity ttl s).1
    cancel :
        (owner : Address) (id : ℕ) (s : State B) → Step s (handle_msg_cancel_order d k owner id s).1
    block_end : (now : ℕ) (s : State B) → Step s (end_blocker d k now s).1
    fill :
        (block_time : ℕ) (fs : List OrderFill) (s : State B)
        → AreFillsOf s.orders fs
        → Step s (execute_order_fills d k block_time fs s).1

  pub data Reach (s : State B) : State B → Type 0 where
    here : Reach s s
    next : {t u : State B} → Reach s t → Step t u → Reach s u

module _ {B : Type 0} (d : DecOps) (k : BankOps B) (laws : DecLaws d) (bank : BankLaws k) where
  Step-IsSolvent : {s t : State B} → Step d k s t → IsSolvent d k s → IsSolvent d k t
  Step-IsSolvent (post asset_code ms cs block_time owner code side price quantity ttl s) v =
      post_order-IsSolvent d k laws bank asset_code ms cs block_time owner code side price quantity
        ttl s v
  Step-IsSolvent (cancel owner id s) v =
      handle_msg_cancel_order-IsSolvent d k laws bank owner id s v
  Step-IsSolvent (block_end now s) v = end_blocker-IsSolvent d k laws bank now s v
  Step-IsSolvent (fill block_time fs s a) v =
      execute_order_fills-IsSolvent d k laws bank block_time fs s v a

  pub Reach-IsSolvent : {s t : State B} → IsSolvent d k s → Reach d k s t → IsSolvent d k t
  Reach-IsSolvent v here = v
  Reach-IsSolvent v (next r st) = Step-IsSolvent st (Reach-IsSolvent v r)

  pub no_orders-IsSolvent :
      (b : B) → IsSolvent d k (record { orders = []; last_order_id = none; bank = b })
  unfolding total_locked
  no_orders-IsSolvent b = record {
    stored = λ id. rw (lookup-empty id) refl;
    backed = λ n. omega arith;
  }

  -- From a store without orders, through any sequence of posted and cancelled orders, ends of blocks
  -- and fills of stored orders with no more left than there was: each order stands under its own id,
  -- which is no later than the last one, and in every denom the module account holds at least what
  -- all the orders of the store have locked.
  pub reachable-IsSolvent :
      (b : B) {t : State B}
      → Reach d k (record { orders = []; last_order_id = none; bank = b }) t
      → IsSolvent d k t
  reachable-IsSolvent b r = Reach-IsSolvent (no_orders-IsSolvent b) r
