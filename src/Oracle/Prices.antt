-- ===== src/Oracle/Prices.antt =====
-- x/oracle/internal/keeper/price.go: `SetCurrentPrices`, which the end of a block calls.
use blockchain_relay_layer.Base.{
  ℕ, zero, suc, ◌+◌, ◌-◌, ◌/◌, ◌%◌, Bool, false, Option, none, some, List, [], ◌∷◌, ◌==◌, ◌&&◌,
  ◌||◌, if◌then◌else◌, length,
}
use blockchain_relay_layer.Base.Map.{lookup, insert}
use blockchain_relay_layer.Base.Action.{ok, err, panic, Action}
use blockchain_relay_layer.Ccstorage.Types.{Name}
use blockchain_relay_layer.Oracle.Types.{Error, Asset, PostedPrice, CurrentPrice, State}
use blockchain_relay_layer.Oracle.Keeper.{get_raw_prices}

-- `sort.Slice` with a comparison of one field.
abbrev pub SortBy : Type 0
SortBy = (PostedPrice → ℕ) → List PostedPrice → List PostedPrice

abbrev pub get_elem? : List PostedPrice → ℕ → Option PostedPrice
get_elem? [] i = none
get_elem? (x ∷ xs) zero = some x
get_elem? (x ∷ xs) (suc i) = get_elem? xs i

-- The price in the middle of a sorted list of the length, or the mean of the two; `none` is an
-- index out of range.
unfoldable pub middle : (PostedPrice → ℕ) → ℕ → List PostedPrice → Option ℕ
middle field l prices =
    if l % 2 == 0
    then elim (get_elem? prices (l / 2 - 1)) [
      | none ↦ none
      | some x ↦ elim (get_elem? prices (l / 2)) [
        | none ↦ none
        | some y ↦ some ((field x + field y) / 2)
      ]
    ]
    else elim (get_elem? prices (l / 2)) [ none ↦ none | some x ↦ some (field x) ]

-- The time of the price in the middle: `rawPrices` is sorted by the ask price, since
-- `askRawPrices` is the same slice.
unfoldable pub middle_received_at : ℕ → ℕ → List PostedPrice → Option ℕ
middle_received_at block_time l prices =
    if l % 2 == 0
    then some block_time
    else elim (get_elem? prices (l / 2)) [ none ↦ none | some x ↦ some x.received_at ]

pub record Medians : Type 0 where
  pub ask : ℕ
  pub bid : ℕ
  pub at : ℕ

-- The medians of two prices or more.
unfoldable pub sorted_medians : SortBy → ℕ → List PostedPrice → Option Medians
unfolding middle middle_received_at
sorted_medians sort_by block_time raw =
    let asks = sort_by (λ p. p.ask_price) raw in
    let bids = sort_by (λ p. p.bid_price) raw in
    let l = length raw in
    elim (middle (λ p. p.ask_price) l asks) [
      | none ↦ none
      | some ask ↦ elim (middle (λ p. p.bid_price) l bids) [
        | none ↦ none
        | some bid ↦ elim (middle_received_at block_time l asks) [
          | none ↦ none
          | some at ↦ some (record { ask = ask; bid = bid; at = at })
        ]
      ]
    ]

unfoldable pub medians : SortBy → ℕ → List PostedPrice → Option Medians
unfolding sorted_medians
medians sort_by block_time [] = some (record { ask = 0; bid = 0; at = 0 })
medians sort_by block_time (p ∷ []) =
    some (record { ask = p.ask_price; bid = p.bid_price; at = p.received_at })
medians sort_by block_time (p ∷ q ∷ r) = sorted_medians sort_by block_time (p ∷ q ∷ r)

-- The code of the reversed pair and the reversed price, whose decimal arithmetic is not part of the
-- repository; `none` is a code that is no pair, at which the write to the storage of the virtual
-- machine panics.
pub record Reversal : Type 0 where
  pub reverse_code : Name → Option Name
  pub reverse_price : ℕ → ℕ

abbrev pub is_current : Option CurrentPrice → Medians → Bool
is_current none m = false
is_current (some old) m = (old.ask_price == m.ask) && (old.bid_price == m.bid)

-- The end of a round: the new price is stored, and written to the virtual machine in both
-- directions. `lcs.Marshal` does not refuse a price there: it takes 128 bits, and `ValidateBasic` lets
-- a posted price have 8 bytes at most.
unfoldable pub publish_price : Reversal → Name → Medians → Action State Error (Unit {0})
publish_price r code m s =
    let stored =
      insert code
        (record { asset_code = code; ask_price = m.ask; bid_price = m.bid; received_at = m.at })
        s.current_prices in
    elim (r.reverse_code code) [
      | none ↦ (panic, record s { current_prices = stored })
      | some reversed ↦ (
        ok tt,
        record s {
          current_prices = stored;
          vm_prices = insert reversed (r.reverse_price m.bid) (insert code m.ask s.vm_prices);
        },
      )
    ]

-- One round of `SetCurrentPrices`.
unfoldable pub set_current_price : SortBy → Reversal → ℕ → ℕ → Name → Action State Error (Unit {0})
unfolding medians publish_price
set_current_price sort_by r block_time height code s =
    elim (medians sort_by block_time (get_raw_prices s code height)) [
      | none ↦ (panic, s)
      | some m ↦
          if (m.ask == 0) || (m.bid == 0)
          then (ok tt, s)
          else if is_current (lookup code s.current_prices) m
          then (ok tt, s)
          else publish_price r code m s
    ]

unfoldable pub set_prices_of :
    SortBy → Reversal → ℕ → ℕ → List Asset → Action State Error (Unit {0})
unfolding set_current_price
set_prices_of sort_by r block_time height [] s = (ok tt, s)
set_prices_of sort_by r block_time height (a ∷ as_) s =
    let t = set_current_price sort_by r block_time height a.asset_code s in
    elim t.0 [
      | ok _ ↦ set_prices_of sort_by r block_time height as_ t.1
      | err e ↦ (err e, t.1)
      | panic ↦ (panic, t.1)
    ]

-- `SetCurrentPrices`, and `EndBlocker` of x/oracle/abci.go, since it returns no error.
unfoldable pub set_current_prices : SortBy → Reversal → ℕ → ℕ → Action State Error (Unit {0})
unfolding set_prices_of
set_current_prices sort_by r block_time height s =
    set_prices_of sort_by r block_time height s.assets s
