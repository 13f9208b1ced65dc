-- ===== src/Orderbook/Squash.antt =====
-- x/orderbook/internal/keeper/squash.go: the history that a restart keeps.
use blockchain_relay_layer.Base.{
  ==_refl, All, suc, ==→eq, ℕ, ◌≡◌, refl, sym, ap, ◌∙◌, Bool, true, false, Option, none, some, List,
  [], ◌∷◌, ◌==◌, ◌&&◌, ltb, leb, if◌then◌else◌, arith, inl, inr, Bool-cases,
}
use blockchain_relay_layer.Orderbook.History.{
  delete_items, delete_history_item, same_key, HistoryItem, set_history_item, get_history_item,
  keep_latest, latest_items, set_at_zero, prepare_for_zero_height,
}

-- The first item of a market with the greatest height.
abbrev pub later : Option HistoryItem → HistoryItem → HistoryItem
later none item = item
later (some x) item = if ltb x.block_height item.block_height then item else x

abbrev pub latest : ℕ → Option HistoryItem → List HistoryItem → Option HistoryItem
latest market kept [] = kept
latest market kept (x ∷ xs) =
    latest market (if x.market_id == market then some (later kept x) else kept) xs

-- Whether an item is of no greater height than the kept one.
abbrev pub not_later : Option HistoryItem → HistoryItem → Bool
not_later none x = false
not_later (some y) x = leb x.block_height y.block_height

-- No item of the market is later than the kept one.
abbrev pub none_later : ℕ → Option HistoryItem → List HistoryItem → Bool
none_later market kept [] = true
none_later market kept (x ∷ xs) =
    if x.market_id == market
    then not_later kept x && none_later market kept xs
    else none_later market kept xs

latest_mono :
    (market : ℕ) (kept : Option HistoryItem) (z : HistoryItem) (l : List HistoryItem)
    → not_later kept z ≡ true
    → not_later (latest market kept l) z ≡ true
latest_mono market kept z [] h = h
latest_mono market kept z (x ∷ xs) h =
    latest_mono market (if x.market_id == market then some (later kept x) else kept) z xs
      (kept_later (x.market_id == market) kept z x h)
  where
    kept_later :
        (b : Bool) (kept : Option HistoryItem) (z x : HistoryItem)
        → not_later kept z ≡ true
        → not_later (if b then some (later kept x) else kept) z ≡ true
    kept_later b none z x h = absurd (ground (arith, h))
    kept_later b (some y) z x h = ground (arith, h)

newest : (kept : Option HistoryItem) (x : HistoryItem) → not_later (some (later kept x)) x ≡ true
newest none x = ground arith
newest (some y) x = ground arith

latest_covers :
    (market : ℕ) (kept : Option HistoryItem) (l : List HistoryItem)
    → none_later market (latest market kept l) l ≡ true
latest_covers market kept [] = refl
latest_covers market kept (x ∷ xs) =
    let k : Option HistoryItem = if x.market_id == market then some (later kept x) else kept in
    covers_first (x.market_id == market) (latest market k xs) x xs (latest_covers market k xs)
      (own (x.market_id == market) kept x xs)
  where
    covers_first :
        (b : Bool) (o : Option HistoryItem) (x : HistoryItem) (xs : List HistoryItem)
        → none_later market o xs ≡ true
        → (if b then not_later o x else true) ≡ true
        → (if b then not_later o x && none_later market o xs else none_later market o xs) ≡ true
    covers_first true o x xs h k = ground (arith, h, k)
    covers_first false o x xs h k = h

    own :
        (b : Bool) (kept : Option HistoryItem) (x : HistoryItem) (xs : List HistoryItem)
        → (if b
            then not_later (latest market (if b then some (later kept x) else kept) xs) x
            else true)
          ≡ true
    own true kept x xs = latest_mono market (some (later kept x)) x xs (newest kept x)
    own false kept x xs = refl

-- The item of a market among the kept ones.
abbrev pub kept_for : ℕ → List HistoryItem → Option HistoryItem
kept_for market [] = none
kept_for market (x ∷ xs) = if x.market_id == market then some x else kept_for market xs

abbrev pub at_zero : Option HistoryItem → Option HistoryItem
at_zero none = none
at_zero (some x) = some (record x { block_height = 0 })

kept_for-keep_latest :
    (market : ℕ) (item : HistoryItem) (l : List HistoryItem)
    → kept_for market (keep_latest item l) ≡ (
        if item.market_id == market
        then some (later (kept_for market l) item)
        else kept_for market l)
unfolding keep_latest
kept_for-keep_latest market item [] = ground arith
kept_for-keep_latest market item (x ∷ xs) = ground (arith, kept_for-keep_latest market item xs)

kept_for-latest_items :
    (market : ℕ) (kept l : List HistoryItem)
    → kept_for market (latest_items kept l) ≡ latest market (kept_for market kept) l
unfolding latest_items
kept_for-latest_items market kept [] = refl
kept_for-latest_items market kept (x ∷ xs) =
    kept_for-latest_items market (keep_latest x kept) xs
    ∙ ap (λ o. latest market o xs) (kept_for-keep_latest market x kept)

-- No market twice.
abbrev OncePerMarket : List HistoryItem → Type 0
OncePerMarket [] = Unit
OncePerMarket (x ∷ xs) = (kept_for x.market_id xs ≡ none) × OncePerMarket xs

keep_latest-OncePerMarket :
    (item : HistoryItem) (l : List HistoryItem)
    → OncePerMarket l
    → OncePerMarket (keep_latest item l)
unfolding keep_latest
keep_latest-OncePerMarket item [] o = (refl, tt)
keep_latest-OncePerMarket item (x ∷ xs) o =
    ground (arith, keep_latest-OncePerMarket item xs o.1, kept_for-keep_latest x.market_id item xs)

latest_items-OncePerMarket :
    (kept l : List HistoryItem) → OncePerMarket kept → OncePerMarket (latest_items kept l)
unfolding latest_items
latest_items-OncePerMarket kept [] o = o
latest_items-OncePerMarket kept (x ∷ xs) o =
    latest_items-OncePerMarket (keep_latest x kept) xs (keep_latest-OncePerMarket x kept o)

get-set :
    (market : ℕ) (item : HistoryItem) (l : List HistoryItem)
    → get_history_item market 0 (set_history_item (record item { block_height = 0 }) l) ≡ (
        if item.market_id == market
        then some (record item { block_height = 0 })
        else get_history_item market 0 l)
unfolding get_history_item set_history_item
get-set market item [] = ground arith
get-set market item (x ∷ xs) = ground (arith, get-set market item xs)

get-set_at_zero :
    (market : ℕ) (l store : List HistoryItem)
    → OncePerMarket l
    → get_history_item market 0 (set_at_zero l store) ≡ (elim (kept_for market l) [
      | none ↦ get_history_item market 0 store
      | some x ↦ some (record x { block_height = 0 })
    ])
get-set_at_zero market [] store o = refl
get-set_at_zero market (x ∷ xs) store o =
    let rest =
      get-set_at_zero market xs (set_history_item (record x { block_height = 0 }) store) o.1 in
    elim (Bool-cases (x.market_id == market)) [
      | inl e ↦
          let at : x.market_id ≡ market = ==→eq x.market_id market e in
          let gone : kept_for market xs ≡ none = ap (λ (n : ℕ). kept_for n xs) (sym at) ∙ o.0 in
          ground (arith, e, rest, gone, get-set market x store)
      | inr e ↦ ground (arith, e, rest, get-set market x store)
    ]

get-set_above :
    (market height : ℕ) (item : HistoryItem) (l : List HistoryItem)
    → get_history_item market (suc height) (set_history_item (record item { block_height = 0 }) l)
      ≡ get_history_item market (suc height) l
unfolding get_history_item set_history_item
get-set_above market height item [] = ground arith
get-set_above market height item (x ∷ xs) = ground (arith, get-set_above market height item xs)

abbrev any_key : HistoryItem → List HistoryItem → Bool
any_key x [] = false
any_key x (k ∷ ks) = if same_key x k then true else any_key x ks

no_history : (market : ℕ) → get_history_item market 0 [] ≡ none
unfolding get_history_item
no_history market = refl

no_item : (market height : ℕ) → get_history_item market height [] ≡ none
unfolding get_history_item
no_item market height = refl

-- No item of the store is missed by the deletions.
abbrev Covers : List HistoryItem → List HistoryItem → Type 0
Covers keys store = All (λ x. any_key x keys ≡ true) store

delete-Covers :
    (item : HistoryItem) (keys store : List HistoryItem)
    → Covers (item ∷ keys) store
    → Covers keys (delete_history_item item store)
unfolding delete_history_item
delete-Covers item keys [] h = tt
delete-Covers item keys (x ∷ xs) h = ground (arith, h.0, delete-Covers item keys xs h.1)

delete_all : (keys store : List HistoryItem) → Covers keys store → delete_items keys store ≡ []
delete_all [] [] h = refl
delete_all [] (x ∷ xs) h = absurd (ground (arith, h.0))
delete_all (k ∷ keys) store h =
    delete_all keys (delete_history_item k store) (delete-Covers k keys store h)

Covers-cons :
    (item : HistoryItem) (keys store : List HistoryItem)
    → Covers keys store
    → Covers (item ∷ keys) store
Covers-cons item keys [] h = tt
Covers-cons item keys (x ∷ xs) h = (ground (arith, h.0), Covers-cons item keys xs h.1)

self_covered : (store : List HistoryItem) → Covers store store
self_covered [] = tt
self_covered (x ∷ xs) = (
  ground (arith, ==_refl x.market_id, ==_refl x.block_height),
  Covers-cons x xs xs (self_covered xs),
)

-- Items at height 0 leave the other heights alone.
above_zero :
    (market height : ℕ) (l store : List HistoryItem)
    → get_history_item market (suc height) (set_at_zero l store)
      ≡ get_history_item market (suc height) store
above_zero market height [] store = refl
above_zero market height (x ∷ xs) store =
    above_zero market height xs (set_history_item (record x { block_height = 0 }) store)
    ∙ get-set_above market height x store

-- A restart leaves for each market the latest of its history items, at height 0; there is no item at
-- any other height, and none of a market without history.
pub squash_keeps_latest :
    (market : ℕ) (items : List HistoryItem)
    → (get_history_item market 0 (prepare_for_zero_height items)
        ≡ at_zero (latest market none items))
      × ((height : ℕ) → get_history_item market (suc height) (prepare_for_zero_height items) ≡ none)
      × (none_later market (latest market none items) items ≡ true)
unfolding prepare_for_zero_height
squash_keeps_latest market items = (
  ap (λ s. get_history_item market 0 (set_at_zero kept s)) emptied
      ∙ get-set_at_zero market kept [] (latest_items-OncePerMarket [] items tt)
      ∙ ap (λ o. zeroed o) (kept_for-latest_items market [] items)
      ∙ zeroed_lem (latest market none items),
  λ height.
      above_zero market height kept (delete_items items items)
      ∙ ap (get_history_item market (suc height)) emptied
      ∙ no_item market (suc height),
  latest_covers market none items,
)
  where
    kept : List HistoryItem
    kept = latest_items [] items

    emptied : delete_items items items ≡ []
    emptied = delete_all items items (self_covered items)

    zeroed : Option HistoryItem → Option HistoryItem
    zeroed o = elim o [
      | none ↦ get_history_item market 0 []
      | some x ↦ some (record x { block_height = 0 })
    ]

    zeroed_lem : (o : Option HistoryItem) → zeroed o ≡ at_zero o
    zeroed_lem none = no_history market
    zeroed_lem (some x) = refl
