-- ===== src/Orderbook/Depth.antt =====
-- The depth of a market: what is offered at most at a price, and asked for at least at it.
use blockchain_relay_layer.Base.{
  ℕ, ◌+◌, ◌≤◌, ◌<◌, List, [], ◌∷◌, leb, if◌then◌else◌, Bool, true, false,
}
use blockchain_relay_layer.Orders.Types.{Order}
use blockchain_relay_layer.Orderbook.Aggregates.{OrderAggregate}
pub mod Summed
pub mod Merged
pub mod Fixed
pub mod Points
pub mod Crossed
pub mod Sorted
pub mod Market
pub mod Found
pub mod Matched

abbrev pub supply_at : List Order → ℕ → ℕ
supply_at [] p = 0
supply_at (o ∷ os) p = (if leb o.price p then o.quantity else 0) + supply_at os p

abbrev pub demand_at : List Order → ℕ → ℕ
demand_at [] p = 0
demand_at (o ∷ os) p = (if leb p o.price then o.quantity else 0) + demand_at os p

-- The prices do not fall, from `low` on, and every quantity is positive.
abbrev pub Ascending : ℕ → List Order → Type 0
Ascending low [] = Unit
Ascending low (o ∷ os) = (low ≤ o.price) × (0 < o.quantity) × Ascending o.price os

-- The prices do not rise, from `high` on.
abbrev pub Descending : ℕ → List Order → Type 0
Descending high [] = Unit
Descending high (o ∷ os) = (o.price ≤ high) × (0 < o.quantity) × Descending o.price os

-- The prices of the aggregates rise, from `low` on, and every quantity is positive.
abbrev pub Rising : ℕ → List OrderAggregate → Type 0
Rising low [] = Unit
Rising low (a ∷ l) = (low ≤ a.price) × (0 < a.quantity) × Rising (1 + a.price) l

-- The quantity of the last aggregate up to a price, and of the first one from a price on.
abbrev pub step_up : ℕ → List OrderAggregate → ℕ → ℕ
step_up fill [] p = fill
step_up fill (a ∷ l) p = let next = step_up a.quantity l p in if leb a.price p then next else fill

abbrev pub step_down : ℕ → List OrderAggregate → ℕ → ℕ
step_down fill [] p = fill
step_down fill (a ∷ l) p =
    let next = step_down fill l p in if leb p a.price then a.quantity else next
