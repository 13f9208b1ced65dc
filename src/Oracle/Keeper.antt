-- ===== src/Oracle/Keeper.antt =====
-- x/oracle/internal/keeper: asset.go, oracle.go and the posting half of price.go, and handler.go.
use blockchain_relay_layer.Base.{
  ◌||◌, ℕ, ◌+◌, ◌-◌, ◌*◌, Bool, true, Option, none, some, List, [], ◌∷◌, ◌++◌, ◌==◌, ltb, leb, not,
  if◌then◌else◌, elem,
}
use blockchain_relay_layer.Base.Map.{lookup, insert}
use blockchain_relay_layer.Base.Action.{Result, ok, err, panic, Action}
use blockchain_relay_layer.Ccstorage.Types.{Name}
use blockchain_relay_layer.Oracle.Types.{
  Error, asset_not_found, asset_exists, oracle_not_found, oracle_exists, not_nominee, invalid_asset,
  invalid_oracle, invalid_received_at, Oracle, Asset, PostedPrice, State,
}

-- `GetAsset`
unfoldable pub find_asset : Name → List Asset → Option Asset
find_asset code [] = none
find_asset code (a ∷ as_) = if a.asset_code == code then some a else find_asset code as_

-- `GetOracles`
unfoldable pub get_oracles : State → Name → Result Error (List Oracle)
unfolding find_asset
get_oracles s code = elim (find_asset code s.assets) [
  | none ↦ err oracle_not_found
  | some a ↦ ok a.oracles
]

-- `GetOracle`
unfoldable pub get_oracle : State → Name → Oracle → Result Error Oracle
unfolding get_oracles
get_oracle s code address = elim (get_oracles s code) [
  | err e ↦ err e
  | panic ↦ panic
  | ok oracles ↦ if elem address oracles then ok address else err oracle_not_found
]

-- The loop that `AddOracle`, `SetOracles` and `SetAsset` share: every asset with the code is
-- replaced.
abbrev pub update_assets : Name → (Asset → Asset) → List Asset → List Asset
update_assets code f [] = []
update_assets code f (a ∷ as_) =
    (if a.asset_code == code then f a else a) ∷ update_assets code f as_

-- The end of those methods.
unfoldable pub update_asset : Name → (Asset → Asset) → Action State Error (Unit {0})
unfolding find_asset
update_asset code f s = elim (find_asset code s.assets) [
  | none ↦ (err asset_not_found, s)
  | some _ ↦ (ok tt, record s { assets = update_assets code f s.assets })
]

-- `AddOracle`
unfoldable pub add_oracle : Name → Name → Oracle → Action State Error (Unit {0})
unfolding get_oracle update_asset
add_oracle nominee code address s =
    if not (elem nominee s.nominees)
    then (err not_nominee, s)
    else elim (get_oracle s code address) [
      | ok _ ↦ (err oracle_exists, s)
      | panic ↦ (panic, s)
      | err _ ↦ update_asset code (λ a. record a { oracles = a.oracles ++ address ∷ [] }) s
    ]

-- `SetOracles`
unfoldable pub set_oracles : Name → Name → List Oracle → Action State Error (Unit {0})
unfolding update_asset
set_oracles nominee code addresses s =
    if not (elem nominee s.nominees)
    then (err not_nominee, s)
    else update_asset code (λ a. record a { oracles = addresses }) s

-- `SetAsset`
unfoldable pub set_asset : Name → Asset → Action State Error (Unit {0})
unfolding update_asset
set_asset nominee asset s =
    if not (elem nominee s.nominees)
    then (err not_nominee, s)
    else update_asset asset.asset_code (λ _. asset) s

-- `AddAsset`
unfoldable pub add_asset : Name → Asset → Action State Error (Unit {0})
unfolding find_asset
add_asset nominee asset s =
    if not (elem nominee s.nominees)
    then (err not_nominee, s)
    else elim (find_asset asset.asset_code s.assets) [
      | some _ ↦ (err asset_exists, s)
      | none ↦ (ok tt, record s { assets = s.assets ++ asset ∷ [] })
    ]

-- What a key of a missing part holds.
abbrev pub or_empty : {V : Type 0} → Option (List V) → List V
or_empty none = []
or_empty (some l) = l

-- `GetRawPrices`
unfoldable pub get_raw_prices : State → Name → ℕ → List PostedPrice
get_raw_prices s code height = or_empty (lookup code (or_empty (lookup height s.raw_prices)))

-- The loop of `SetPrice`: the first price of the oracle is replaced, or the new one stands last.
unfoldable pub put_price : PostedPrice → List PostedPrice → List PostedPrice
put_price p [] = p ∷ []
put_price p (x ∷ xs) = if x.oracle_address == p.oracle_address then p ∷ xs else x ∷ put_price p xs

-- `checkPriceReceivedAtTimestamp`: times are in nanoseconds. `Sub` stops at the least and the greatest
-- duration; the least one, -2^63, is its own negation, and negative, so that it is below every
-- threshold. A threshold, of a `uint32` of seconds, is below 2^63.
unfoldable pub received_at_is_valid : State → ℕ → ℕ → Bool
received_at_is_valid s block_time received_at =
    let threshold = s.received_at_diff_in_s * 1_000_000_000 in
    if ltb 0 s.received_at_diff_in_s
    then leb 9_223_372_036_854_775_808 (received_at - block_time)
      || leb ((block_time - received_at) + (received_at - block_time)) threshold
    else true

-- `SetPrice`, for the time and the height of the block.
unfoldable pub set_price : ℕ → ℕ → PostedPrice → Action State Error PostedPrice
unfolding received_at_is_valid put_price get_raw_prices
set_price block_time height p s =
    let prices = put_price p (get_raw_prices s p.asset_code height) in
    if received_at_is_valid s block_time p.received_at
    then (
      ok p,
      record s {
        raw_prices =
            insert height (insert p.asset_code prices (or_empty (lookup height s.raw_prices)))
              s.raw_prices;
      },
    )
    else (err invalid_received_at, s)

-- `ValidatePostPrice`
unfoldable pub validate_post_price : State → Name → Oracle → Result Error (Unit {0})
unfolding find_asset get_oracle
validate_post_price s code from = elim (find_asset code s.assets) [
  | none ↦ err invalid_asset
  | some _ ↦ elim (get_oracle s code from) [
    | ok _ ↦ ok tt
    | err _ ↦ err invalid_oracle
    | panic ↦ panic
  ]
]

-- `handleMsgPostPrice`
unfoldable pub handle_msg_post_price : ℕ → ℕ → PostedPrice → Action State Error (Unit {0})
unfolding validate_post_price set_price
handle_msg_post_price block_time height p s =
    elim (validate_post_price s p.asset_code p.oracle_address) [
      | err e ↦ (err e, s)
      | panic ↦ (panic, s)
      | ok _ ↦ elim (get_oracle s p.asset_code p.oracle_address) [
        | err _ ↦ (err invalid_oracle, s)
        | panic ↦ (panic, s)
        | ok _ ↦
            let (r, s') = set_price block_time height p s in
            elim r [ ok _ ↦ (ok tt, s') | err e ↦ (err e, s') | panic ↦ (panic, s') ]
      ]
    ]
