-- ===== src/Oracle/Examples.antt =====
-- Three oracles of an asset, sorted by insertion.
use blockchain_relay_layer.Base.{
  ◌+◌, ℕ, ◌/◌, ◌≤◌, ◌≡◌, refl, true, false, some, List, [], ◌∷◌, length, elem, leb, ◌==◌, ◌&&◌,
  if◌then◌else◌, arith, Bool-cases, inl, inr, All, ◌⊎◌,
}
use blockchain_relay_layer.Base.Action.{ok, is_ok}
use blockchain_relay_layer.Ccstorage.Types.{Name}
use blockchain_relay_layer.Oracle.Types.{Oracle, Asset, PostedPrice, State}
use blockchain_relay_layer.Oracle.Keeper.{
  find_asset, get_raw_prices, received_at_is_valid, handle_msg_post_price,
}
use blockchain_relay_layer.Oracle.Prices.{SortBy, Medians, medians}
use blockchain_relay_layer.Oracle.Median.{
  SortLaws, Ascending, count_below, count_above, medians_in_middle,
}
use blockchain_relay_layer.Base.Map.{lookup}
use blockchain_relay_layer.Oracle.Prices.{Reversal, set_current_prices}
use blockchain_relay_layer.Oracle.Blocks.{HasPrices, set_current_prices_total}
use blockchain_relay_layer.Oracle.Posting.{price_of, post_price_cases}

insert_by : (PostedPrice → ℕ) → PostedPrice → List PostedPrice → List PostedPrice
insert_by field p [] = p ∷ []
insert_by field p (x ∷ xs) =
    if leb (field p) (field x) then p ∷ x ∷ xs else x ∷ insert_by field p xs

insertion : SortBy
unfolding insert_by
insertion field [] = []
insertion field (x ∷ xs) = insert_by field x (insertion field xs)

module _ (field : PostedPrice → ℕ) where
  insert_by-All :
      (m : ℕ) (p : PostedPrice) (l : List PostedPrice)
      → m ≤ field p
      → All (λ q. m ≤ field q) l
      → All (λ q. m ≤ field q) (insert_by field p l)
  unfolding insert_by
  insert_by-All m p [] h a = (h, tt)
  insert_by-All m p (x ∷ xs) h a = elim (Bool-cases (leb (field p) (field x))) [
    | inl e ↦ rw (e) (h, a)
    | inr e ↦ rw (e) (a.0, insert_by-All m p xs h a.1)
  ]

  weaker :
      (m n : ℕ) (l : List PostedPrice) → m ≤ n → All (λ q. n ≤ field q) l → All (λ q. m ≤ field q) l
  weaker m n [] h a = tt
  weaker m n (x ∷ xs) h a = (omega (arith, a.0), weaker m n xs h a.1)

  insert_by-Ascending :
      (p : PostedPrice) (l : List PostedPrice)
      → Ascending field l
      → Ascending field (insert_by field p l)
  unfolding insert_by
  insert_by-Ascending p [] a = (tt, tt)
  insert_by-Ascending p (x ∷ xs) a = elim (Bool-cases (leb (field p) (field x))) [
    | inl e ↦
        let le : field p ≤ field x = ground (arith, e) in
        rw (e) ((le, weaker (field p) (field x) xs le a.0), a)
    | inr e ↦
        rw (e) (insert_by-All (field x) p xs (ground (arith, e)) a.0, insert_by-Ascending p xs a.1)
  ]

  length-insert_by :
      (p : PostedPrice) (l : List PostedPrice) → length (insert_by field p l) ≡ length (p ∷ l)
  unfolding insert_by
  length-insert_by p [] = refl
  length-insert_by p (x ∷ xs) = ground (arith, length-insert_by p xs)

  below-insert_by :
      (p : PostedPrice) (l : List PostedPrice) (m : ℕ)
      → count_below field m (insert_by field p l) ≡ count_below field m (p ∷ l)
  unfolding insert_by
  below-insert_by p [] m = refl
  below-insert_by p (x ∷ xs) m = ground (arith, below-insert_by p xs m)

  above-insert_by :
      (p : PostedPrice) (l : List PostedPrice) (m : ℕ)
      → count_above field m (insert_by field p l) ≡ count_above field m (p ∷ l)
  unfolding insert_by
  above-insert_by p [] m = refl
  above-insert_by p (x ∷ xs) m = ground (arith, above-insert_by p xs m)

  insertion-Ascending : (l : List PostedPrice) → Ascending field (insertion field l)
  unfolding insertion
  insertion-Ascending [] = tt
  insertion-Ascending (x ∷ xs) = insert_by-Ascending x (insertion field xs) (insertion-Ascending xs)

  length-insertion : (l : List PostedPrice) → length (insertion field l) ≡ length l
  unfolding insertion
  length-insertion [] = refl
  length-insertion (x ∷ xs) =
      omega (arith, length-insert_by x (insertion field xs), length-insertion xs)

  insertion_below :
      (l : List PostedPrice) (m : ℕ)
      → count_below field m (insertion field l) ≡ count_below field m l
  unfolding insertion
  insertion_below [] m = refl
  insertion_below (x ∷ xs) m =
      omega (arith, below-insert_by x (insertion field xs) m, insertion_below xs m)

  insertion_above :
      (l : List PostedPrice) (m : ℕ)
      → count_above field m (insertion field l) ≡ count_above field m l
  unfolding insertion
  insertion_above [] m = refl
  insertion_above (x ∷ xs) m =
      omega (arith, above-insert_by x (insertion field xs) m, insertion_above xs m)

insertion_laws : SortLaws insertion
insertion_laws = record {
  ascending = insertion-Ascending;
  same_length = length-insertion;
  same_below = insertion_below;
  same_above = insertion_above;
}

abbrev posted : ℕ → ℕ → PostedPrice
posted oracle price = record {
  asset_code = 1;
  oracle_address = oracle;
  ask_price = price;
  bid_price = price;
  received_at = 50;
}

abbrev three_prices : List PostedPrice
three_prices = posted 1 30 ∷ posted 2 10 ∷ posted 3 20 ∷ []

medians_in_middle_example :
    (m : Medians) × (medians insertion 60 three_prices ≡ some m)
    × (count_below (λ p. p.ask_price) m.ask three_prices ≤ 3 / 2)
    × (count_above (λ p. p.ask_price) m.ask three_prices ≤ 3 / 2)
    × (count_below (λ p. p.bid_price) m.bid three_prices ≤ 3 / 2)
    × (count_above (λ p. p.bid_price) m.bid three_prices ≤ 3 / 2)
medians_in_middle_example = medians_in_middle insertion insertion_laws 60 three_prices (omega arith)

abbrev asset : Asset
asset = record { asset_code = 1; oracles = 1 ∷ 2 ∷ 3 ∷ []; active = true }

abbrev start : State
start = record {
  assets = asset ∷ [];
  nominees = 8 ∷ [];
  received_at_diff_in_s = 10;
  raw_prices = [];
  current_prices = [];
  vm_prices = [];
}

post_price_cases_example :
    ((is_ok (handle_msg_post_price 60 3 (posted 1 30) start).0 ≡ false)
      × ((handle_msg_post_price 60 3 (posted 1 30) start).1 ≡ start))
    ⊎ ((a : Asset) × (s' : State) × (handle_msg_post_price 60 3 (posted 1 30) start ≡ (ok tt, s'))
        × (find_asset 1 start.assets ≡ some a)
        × (elem 1 a.oracles ≡ true)
        × (received_at_is_valid start 60 50 ≡ true)
        × ((h : ℕ) (c : Name) (o : Oracle)
            → price_of o (get_raw_prices s' c h) ≡ (
                if (3 == h) && (1 == c) && (1 == o)
                then some (posted 1 30)
                else price_of o (get_raw_prices start c h))))
post_price_cases_example = post_price_cases 60 3 (posted 1 30) start

abbrev reversal : Reversal
reversal = record { reverse_code = λ c. some (c + 100); reverse_price = λ p. 1_000 / p }

start-HasPrices : HasPrices start
unfolding lookup
start-HasPrices = record { positive = λ c. refl }

set_current_prices_total_example :
    (s' : State) × (set_current_prices insertion reversal 60 3 start ≡ (ok tt, s')) × HasPrices s'
set_current_prices_total_example =
    set_current_prices_total insertion insertion_laws reversal 60 3 start start-HasPrices refl
