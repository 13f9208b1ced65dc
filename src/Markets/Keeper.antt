-- ===== src/Markets/Keeper.antt =====
-- x/markets/internal/keeper: market.go.
use blockchain_relay_layer.Base.{
  ℕ, zero, suc, ◌/◌, ◌%◌, ltb, Bool, true, false, Option, none, some, List, [], ◌∷◌, ◌==◌, ◌&&◌,
  not, if◌then◌else◌,
}
use mathlib.Core.List.{reverse}
use blockchain_relay_layer.Base.Map.{Map, values, lookup, insert_by}
use blockchain_relay_layer.Base.Action.{Result, ok, err, panic, Action}
use blockchain_relay_layer.Ccstorage.Types.{Name}
use blockchain_relay_layer.Ccstorage.Keeper as Currencies
use blockchain_relay_layer.Helpers.Pages.{page_of}
use blockchain_relay_layer.Markets.Types.{
  Error, wrong_id, market_exists, wrong_asset_denom, base_asset, quote_asset, Market,
  MarketExtended, new_market_extended, MarketsReq, filtered_out,
}

-- The decimal digits of a number, from the last one; a number has no more digits than itself, or one.
unfoldable pub digits : ℕ → ℕ → List ℕ
digits zero n = n % 10 ∷ []
digits (suc fuel) n = let rest = digits fuel (n / 10) in if ltb n 10 then n ∷ [] else n % 10 ∷ rest

-- Whether a text stands before another in the order of the bytes.
abbrev pub text_before : List ℕ → List ℕ → Bool
text_before [] [] = false
text_before [] (y ∷ ys) = true
text_before (x ∷ xs) [] = false
text_before (x ∷ xs) (y ∷ ys) =
    let rest = text_before xs ys in if ltb x y then true else if ltb y x then false else rest

-- The order of the keys `market:` with `id.String()`.
unfoldable pub key_before : ℕ → ℕ → Bool
unfolding digits
key_before a b = text_before (reverse (digits a a)) (reverse (digits b b))

-- The markets by id, in the order of the keys, so that market 10 stands before market 2.
pub record State : Type 0 where
  pub markets : Map Market
  pub last_market_id : Option ℕ

unfoldable pub get : State → ℕ → Result Error Market
get s id = elim (lookup id s.markets) [ none ↦ err wrong_id | some m ↦ ok m ]

-- `GetExtended`: a failure for the quote currency replaces one for the base currency.
unfoldable pub get_extended : State → Currencies.State → ℕ → Result Error MarketExtended
unfolding get Currencies.get_currency
get_extended s c id = elim (get s id) [
  | err e ↦ err e
  | panic ↦ panic
  | ok m ↦ elim (Currencies.get_currency c m.quote_asset_denom) [
    | err _ ↦ err quote_asset
    | panic ↦ panic
    | ok quote ↦ elim (Currencies.get_currency c m.base_asset_denom) [
      | err _ ↦ err base_asset
      | panic ↦ panic
      | ok base ↦ ok (new_market_extended m base quote)
    ]
  ]
]

-- `GetList`
abbrev pub get_list : State → List Market
get_list s = values s.markets

-- The search of `Add` for the pair of denoms.
abbrev pub is_listed : Name → Name → List Market → Bool
is_listed base quote [] = false
is_listed base quote (m ∷ ms) =
    if (m.base_asset_denom == base) && (m.quote_asset_denom == quote)
    then true
    else is_listed base quote ms

unfoldable pub next_id : State → ℕ
next_id s = elim s.last_market_id [ none ↦ 0 | some last ↦ suc last ]

abbrev pub set : Market → State → State
set m s = record s { markets = insert_by key_before m.id m s.markets }

-- `Add`
unfoldable pub add : Currencies.State → Name → Name → Action State Error Market
unfolding Currencies.has_currency
add c base quote s =
    let m : Market = record {
      id = next_id s;
      base_asset_denom = base;
      quote_asset_denom = quote;
    } in
    if is_listed base quote (get_list s)
    then (err market_exists, s)
    else if not (Currencies.has_currency c base)
    then (err wrong_asset_denom, s)
    else if not (Currencies.has_currency c quote)
    then (err wrong_asset_denom, s)
    else (ok m, record (set m s) { last_market_id = some m.id })

-- The test of `GetListFiltered`, for a way to write an asset code.
abbrev pub is_selected : (Name → Name → Name) → MarketsReq → Market → Bool
is_selected asset_code req m =
    if filtered_out req.base_asset_denom m.base_asset_denom
    then false
    else if filtered_out req.quote_asset_denom m.quote_asset_denom
    then false
    else not (filtered_out req.asset_code (asset_code m.base_asset_denom m.quote_asset_denom))

abbrev pub select : (Market → Bool) → List Market → List Market
select test [] = []
select test (m ∷ ms) = if test m then m ∷ select test ms else select test ms

-- `GetListFiltered`: an error of the pagination gives the empty list.
unfoldable pub get_list_filtered :
    (Name → Name → Name) → State → MarketsReq → Result Error (List Market)
get_list_filtered asset_code s req =
    elim (page_of (select (is_selected asset_code req) (get_list s)) req.page req.limit) [
      | ok l ↦ ok l
      | err _ ↦ ok []
      | panic ↦ panic
    ]
