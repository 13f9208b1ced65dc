-- ===== src/Orderbook/History.antt =====
-- x/orderbook: the history of clearances (internal/keeper/history.go, genesis.go and squash.go,
-- internal/types/history.go), and the end of a block (abci.go).
use blockchain_relay_layer.Base.{
  ℕ, ◌/◌, Bool, Option, none, some, List, [], ◌∷◌, ◌==◌, ◌&&◌, ltb, leb, if◌then◌else◌,
}
use blockchain_relay_layer.Base.Action.{ok, err, panic, Action}
use blockchain_relay_layer.Sdk.{DecOps}
use blockchain_relay_layer.Sdk.Bank.{BankOps}
use blockchain_relay_layer.Orders.Types.{Error}
use blockchain_relay_layer.Orders.Keeper as Orders
use blockchain_relay_layer.Orderbook.Clearance.{SortSlice}
use blockchain_relay_layer.Orderbook.Matcher.{MatcherResult, process}
use blockchain_relay_layer.Orderbook.Pool.{pool_of}

-- The timestamp is in seconds.
pub record HistoryItem : Type 0 where
  pub market_id : ℕ
  pub clearance_price : ℕ
  pub bid_orders_count : ℕ
  pub ask_orders_count : ℕ
  pub bid_volume : ℕ
  pub ask_volume : ℕ
  pub matched_bid_volume : ℕ
  pub matched_ask_volume : ℕ
  pub timestamp : ℕ
  pub block_height : ℕ

-- `NewHistoryItem`, at a time in nanoseconds.
unfoldable pub new_history_item : DecOps → ℕ → ℕ → MatcherResult → HistoryItem
new_history_item d block_time block_height r = record {
  market_id = r.result_market_id;
  clearance_price = r.clearance_state.price;
  bid_orders_count = r.bid_orders_count;
  ask_orders_count = r.ask_orders_count;
  bid_volume = d.truncate_int r.clearance_state.max_bid_volume;
  ask_volume = d.truncate_int r.clearance_state.max_ask_volume;
  matched_bid_volume = d.truncate_int r.matched_bid_volume;
  matched_ask_volume = d.truncate_int r.matched_ask_volume;
  timestamp = block_time / 1_000_000_000;
  block_height = block_height;
}

-- The key of an item is its market and its height.
abbrev pub same_key : HistoryItem → HistoryItem → Bool
same_key x y = (x.market_id == y.market_id) && (x.block_height == y.block_height)

-- `SetHistoryItem`
unfoldable pub set_history_item : HistoryItem → List HistoryItem → List HistoryItem
set_history_item item [] = item ∷ []
set_history_item item (x ∷ xs) = if same_key x item then item ∷ xs else x ∷ set_history_item item xs

-- `GetHistoryItem`
unfoldable pub get_history_item : ℕ → ℕ → List HistoryItem → Option HistoryItem
get_history_item market height [] = none
get_history_item market height (x ∷ xs) =
    if (x.market_id == market) && (x.block_height == height)
    then some x
    else get_history_item market height xs

-- `GetHistoryItemsInBlockHeightRange`
unfoldable pub get_history_items_in_range : ℕ → ℕ → ℕ → List HistoryItem → List HistoryItem
get_history_items_in_range market start end [] = []
get_history_items_in_range market start end (x ∷ xs) =
    let rest = get_history_items_in_range market start end xs in
    if (x.market_id == market) && (leb start x.block_height && leb x.block_height end)
    then x ∷ rest
    else rest

-- The map of `PrepareForZeroHeight`: the latest item of each market.
unfoldable pub keep_latest : HistoryItem → List HistoryItem → List HistoryItem
keep_latest item [] = item ∷ []
keep_latest item (x ∷ xs) =
    if x.market_id == item.market_id
    then (if ltb x.block_height item.block_height then item else x) ∷ xs
    else x ∷ keep_latest item xs

unfoldable pub latest_items : List HistoryItem → List HistoryItem → List HistoryItem
unfolding keep_latest
latest_items kept [] = kept
latest_items kept (x ∷ xs) = latest_items (keep_latest x kept) xs

abbrev pub set_at_zero : List HistoryItem → List HistoryItem → List HistoryItem
set_at_zero [] store = store
set_at_zero (x ∷ xs) store = set_at_zero xs (set_history_item (record x { block_height = 0 }) store)

-- `store.Delete`
unfoldable pub delete_history_item : HistoryItem → List HistoryItem → List HistoryItem
delete_history_item item [] = []
delete_history_item item (x ∷ xs) =
    let rest = delete_history_item item xs in if same_key x item then rest else x ∷ rest

abbrev pub delete_items : List HistoryItem → List HistoryItem → List HistoryItem
delete_items [] store = store
delete_items (x ∷ xs) store = delete_items xs (delete_history_item x store)

-- `PrepareForZeroHeight`: every item is deleted, and the latest ones are stored at height 0.
unfoldable pub prepare_for_zero_height : List HistoryItem → List HistoryItem
unfolding latest_items set_history_item delete_history_item
prepare_for_zero_height items = set_at_zero (latest_items [] items) (delete_items items items)

pub record State (B : Type 0) : Type 0 where
  pub orders : Orders.State B
  pub history : List HistoryItem

module _ {B : Type 0} (sort_slice : SortSlice) (d : DecOps) (k : BankOps B) where
  -- The second loop of `EndBlocker`.
  unfoldable pub apply_results : ℕ → ℕ → List MatcherResult → Action (State B) Error (Unit {0})
  unfolding Orders.execute_order_fills new_history_item set_history_item
  apply_results block_time height [] s = (ok tt, s)
  apply_results block_time height (r ∷ rs) s =
      let t = Orders.execute_order_fills d k block_time r.order_fills s.orders in
      elim t.0 [
        | panic ↦ (panic, record s { orders = t.1 })
        | err e ↦ (err e, record s { orders = t.1 })
        | ok _ ↦ apply_results block_time height rs (record {
          orders = t.1;
          history = set_history_item (new_history_item d block_time height r) s.history;
        })
      ]

  -- `EndBlocker`
  unfoldable pub end_blocker : ℕ → ℕ → Action (State B) Error (Unit {0})
  unfolding pool_of process apply_results
  end_blocker block_time height s = elim (pool_of (Orders.get_list s.orders) []) [
    | err _ ↦ (panic, s)
    | panic ↦ (panic, s)
    | ok pool ↦ elim (process sort_slice d pool) [
      | err _ ↦ (panic, s)
      | panic ↦ (panic, s)
      | ok results ↦ apply_results block_time height results s
    ]
  ]
