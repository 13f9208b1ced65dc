-- ===== src/Multisig/Invariant/Defs.antt =====
-- The invariant of the multi-signature store.
use blockchain_relay_layer.Base.{
  ℕ, ◌≤◌, ◌<◌, ◌≡◌, ◌≢◌, Bool, true, false, not, ◌&&◌, Option, none, some, List, map, ◌==◌, length,
  All, Distinct,
}
use blockchain_relay_layer.Base.Map.{Map, lookup, has}
use blockchain_relay_layer.Base.Action.{Result, panic}
use blockchain_relay_layer.Multisig.Types.{Interface, Call, Name, Address}
use blockchain_relay_layer.Multisig.Queue.{QueueItem}
use blockchain_relay_layer.Multisig.Keeper.{State, next_call_id}

abbrev pub is_some {ℓ} : {A : Type ℓ} → Option A → Bool
is_some none = false
is_some (some a) = true

abbrev pub ids : List QueueItem → List ℕ
ids = map λ q. q.call_id

-- A vote list is not empty, and nobody votes twice.
abbrev pub GoodVotes : Option (List Address) → Type 0
GoodVotes none = Unit
GoodVotes (some votes) = (0 < length votes) × Distinct votes

abbrev pub names_call : {Msg : Type 0} → Option ℕ → Map (Call Msg) → Bool
names_call none calls = true
names_call (some id) calls = has id calls

abbrev pub keyed_by : {Msg : Type 0} → Option (Call Msg) → ℕ → Bool
keyed_by none k = true
keyed_by (some c) k = c.id == k

module _ {App Msg : Type 0} (app : Interface App Msg) where
  -- A call that waits for its confirmations, and has a handler.
  abbrev pub live : Option (Call Msg) → Bool
  live none = false
  live (some c) = not c.approved && (not c.rejected && is_some (app.get_route (app.route c.msg)))

  abbrev pub has_height : Option (Call Msg) → ℕ → Bool
  has_height none height = false
  has_height (some c) height = c.height == height

  abbrev pub IsItem : Map (Call Msg) → QueueItem → Type 0
  IsItem calls q =
      (live (lookup q.call_id calls) ≡ true)
      × (has_height (lookup q.call_id calls) q.block_height ≡ true)

  pub record Inv (s : State Msg) : Type 0 where
    -- every queued call waits, at the height that its key says, and is queued once
    pub items : All (IsItem s.calls) s.queue
    pub once : Distinct (ids s.queue)
    -- a call is stored under its own ID
    pub keyed : (k : ℕ) → keyed_by (lookup k s.calls) k ≡ true
    -- the next ID is new
    pub fresh : (k : ℕ) → next_call_id s ≤ k → lookup k s.calls ≡ none
    pub unvoted : (k : ℕ) → next_call_id s ≤ k → lookup k s.votes ≡ none
    pub good : (k : ℕ) → GoodVotes (lookup k s.votes)
    -- a unique ID leads to a call
    pub named : (n : ℕ) → names_call (lookup n s.unique_ids) s.calls ≡ true

  -- What is asked of the rest of the application: handlers do not panic in its good states, and
  -- lead to good states.
  pub record Laws (IsGood : App → Type 0) : Type 0 where
    pub no_panic :
        (n : Name) (h : Msg → App → Result Name (Unit {0}) × App) (m : Msg) (a : App)
        → app.get_route n ≡ some h
        → IsGood a
        → (h m a).0 ≢ panic
    pub keeps :
        (n : Name) (h : Msg → App → Result Name (Unit {0}) × App) (m : Msg) (a : App)
        → app.get_route n ≡ some h
        → IsGood a
        → IsGood (h m a).1
