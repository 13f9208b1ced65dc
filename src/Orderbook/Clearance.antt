-- ===== src/Orderbook/Clearance.antt =====
-- x/orderbook/internal/keeper/pq_curves.go: the crossing point of the curves, and the clearance
-- state that the fills follow.
use blockchain_relay_layer.Base.{
  ℕ, ◌+◌, ◌-◌, ◌/◌, Bool, true, false, not, ◌&&◌, ◌||◌, Option, none, some, List, [], ◌∷◌, ltb,
  ◌==◌, if◌then◌else◌,
}
use blockchain_relay_layer.Base.Action.{Result, ok, err, panic}
use blockchain_relay_layer.Sdk.{DecOps, one_dec, dec_of}
use blockchain_relay_layer.Orderbook.Curves.{
  SdItem, Error, internal, empty_curves, Balance, more_supply, balanced, more_demand,
  supply_demand_balance,
}

-- x/orderbook/internal/types/clearance_state.go; all fields but the price are decimals.
pub record ClearanceState : Type 0 where
  pub price : ℕ
  pub pro_rata : ℕ
  pub pro_rata_invert : ℕ
  pub max_bid_volume : ℕ
  pub max_ask_volume : ℕ

-- `==` on the results of `SupplyDemandBalance`
abbrev pub same_balance : Balance → Balance → Bool
same_balance more_supply more_supply = true
same_balance balanced balanced = true
same_balance more_demand more_demand = true
same_balance _ _ = false

-- Both volumes are there.
abbrev pub has_volumes : SdItem → Bool
has_volumes i = not (i.supply == 0) && not (i.demand == 0)

-- The inner loop: the last point of the "corridor" of points equal to `left`, if there is one.
unfoldable pub corridor : SdItem → Option SdItem → List SdItem → Option SdItem
corridor left right [] = right
corridor left right (i ∷ c) =
    let further = corridor left (some i) c in
    if not (left.supply == i.supply) || not (left.demand == i.demand) then right else further

abbrev pub clearance_price : SdItem → Option SdItem → ℕ
clearance_price left none = left.price
clearance_price left (some right) = (left.price + right.price) / 2

-- A crossing: the point before it, the point, and the clearance price.
pub record Crossing : Type 0 where
  pub previous : SdItem
  pub current : SdItem
  pub crossing_price : ℕ

-- The outer loop, from the point after `previous`.
unfoldable pub find_crossing : SdItem → List SdItem → Option Crossing
unfolding corridor supply_demand_balance
find_crossing previous [] = none
find_crossing previous (i ∷ c) =
    let further = find_crossing i c in
    if same_balance (supply_demand_balance previous) (supply_demand_balance i)
    then further
    else some (record {
      previous = previous;
      current = i;
      crossing_price = clearance_price i (corridor i none c);
    })

abbrev pub volume_diff : SdItem → ℕ
volume_diff i = if ltb i.demand i.supply then i.supply - i.demand else i.demand - i.supply

abbrev pub less_diff : SdItem → SdItem → Bool
less_diff a b = ltb (volume_diff a) (volume_diff b)

unfoldable pub first_with_volumes : List SdItem → Option SdItem
first_with_volumes [] = none
first_with_volumes (i ∷ c) = if has_volumes i then some i else first_with_volumes c

abbrev pub zero_item : SdItem
zero_item = record { price = 0; supply = 0; demand = 0 }

abbrev pub or_zero_item : Option SdItem → SdItem
or_zero_item none = zero_item
or_zero_item (some i) = i

-- `sort.Slice` orders equal elements as it likes: it is an argument.
abbrev pub SortSlice : Type 0
SortSlice = (SdItem → SdItem → Bool) → List SdItem → List SdItem

module _ (d : DecOps) where
  -- The state for a crossing point with a price and both volumes.
  abbrev pub clearance_of : SdItem → ClearanceState
  clearance_of p =
      let pro_rata = d.quo (dec_of p.supply) (dec_of p.demand) in
      let invert = d.quo one_dec pro_rata in
      record {
        price = p.price;
        pro_rata = pro_rata;
        pro_rata_invert = invert;
        max_bid_volume = dec_of (d.round_int (d.mul (dec_of p.demand) pro_rata));
        max_ask_volume = dec_of (d.round_int (d.mul (dec_of p.supply) invert));
      }

  -- The checks; the division of one by a `ProRata` of zero panics.
  abbrev pub check_cross_point : SdItem → Result Error ClearanceState
  check_cross_point p =
      if p.price == 0
      then err internal
      else if p.supply == 0
      then err internal
      else if p.demand == 0
      then err internal
      else if d.quo (dec_of p.supply) (dec_of p.demand) == 0
      then panic
      else ok (clearance_of p)

module _ (sort_slice : SortSlice) where
  -- Edge case 2: the least difference of the volumes, both of them there.
  unfoldable pub closest : List SdItem → SdItem
  unfolding first_with_volumes
  closest c = or_zero_item (first_with_volumes (sort_slice less_diff c))

  -- `getCrossPoint`, on a curve with the first point `i`
  unfoldable pub get_cross_point : SdItem → List SdItem → SdItem
  unfolding find_crossing closest
  get_cross_point i c =
      if (i.supply == i.demand) && has_volumes i then i else elim (find_crossing i c) [
        | none ↦ closest (i ∷ c)
        | some x ↦
            if has_volumes x.current
            then record x.current { price = x.crossing_price }
            else if has_volumes x.previous
            then x.previous
            else closest (i ∷ c)
      ]

  module _ (d : DecOps) where
    -- `GetClearanceState`
    unfoldable pub get_clearance_state : List SdItem → Result Error ClearanceState
    unfolding get_cross_point
    get_clearance_state [] = err empty_curves
    get_clearance_state (i ∷ c) = check_cross_point d (get_cross_point i c)
