-- ===== src/Vmauth/Examples.antt =====
-- One account in a store of accounts.
use blockchain_relay_layer.Base.{
  elem, Distinct, sym, ==_refl, ◌&&◌, ℕ, ◌≡◌, refl, Bool, true, false, Option, none, some, List, [],
  ◌∷◌, ◌==◌, if◌then◌else◌, arith,
}
use blockchain_relay_layer.Base.Action.{ok}
use blockchain_relay_layer.Base.Int.{pos}
use blockchain_relay_layer.Sdk.Bank.{Coin}
use blockchain_relay_layer.Ccstorage.Types.{Name, ResCurrencyInfo, Currency}
use blockchain_relay_layer.Base.Map.{Map}
use blockchain_relay_layer.Ccstorage.Balances.{denoms_of}
use blockchain_relay_layer.Ccstorage.Keeper.{get_currencies}
use blockchain_relay_layer.Ccstorage.Synced.{amount_of}
use blockchain_relay_layer.Vmauth.Keeper.{AccountOps, State, set_account, get_account}
use blockchain_relay_layer.Vmauth.Reading.{AccountLaws, get-set_account}

abbrev accepts : ResCurrencyInfo → Bool
accepts r = true

abbrev fits : ℕ → Bool
fits n = true

-- Every coin of the second list is in the first one.
abbrev contains : List Coin → List Coin → Bool
contains xs [] = true
contains xs (c ∷ cs) = if amount_of c.denom xs == c.amount then contains xs cs else false

contains_lem :
    (xs ys : List Coin)
    → Distinct (denoms_of ys)
    → ((d : Name) → elem d (denoms_of ys) ≡ true → amount_of d xs ≡ amount_of d ys)
    → contains xs ys ≡ true
unfolding amount_of
contains_lem xs [] u h = refl
contains_lem xs (c ∷ cs) u h =
    let head : amount_of c.denom xs ≡ c.amount = ground (arith, h c.denom, ==_refl c.denom) in
    let tail : contains xs cs ≡ true = contains_lem xs cs u.1 λ d e. ground (arith, h d, e, u.0) in
    ground (arith, head, tail)

abbrev ops : AccountOps (ℕ → Option (List Coin))
ops = record {
  find = λ a s. s a;
  put = λ a coins s b. if a == b then some coins else s b;
  remove = λ a s b. if a == b then none else s b;
  number = λ s. s;
  coins_equal = λ xs ys. some (contains xs ys && contains ys xs);
}

laws : AccountLaws ops
laws = record {
  find-put = λ a coins s. ground (arith, ==_refl a);
  same_coins = λ xs ys v w h. ground (
    arith,
    contains_lem xs ys w.distinct (λ d e. h d),
    contains_lem ys xs v.distinct (λ d e. sym (h d)),
  );
}

abbrev two_currencies : Map Currency
two_currencies =
    (1, record { denom = 1; decimals = 8; supply = pos 50; contract_address = 0 })
    ∷ (2, record { denom = 2; decimals = 18; supply = pos 7; contract_address = 0 })
    ∷ []

abbrev start : State (ℕ → Option (List Coin))
start = record {
  ccs = record { currencies = two_currencies; infos = [] };
  resources = λ a d. if d == 2 then some 7 else none;
  accounts = λ a. some (record { denom = 2; amount = 7 } ∷ []);
}

abbrev five : List Coin
five = record { denom = 1; amount = 5 } ∷ []

get-set_account_example :
    (s' : State (ℕ → Option (List Coin))) × (set_account ops accepts fits 4 five start
      ≡ (ok tt, s'))
    × (get_account ops accepts fits 4 s' ≡ (ok (some five), s'))
unfolding get_currencies
get-set_account_example =
    get-set_account ops accepts fits laws 4 (record { denom = 2; amount = 7 } ∷ []) five start refl
      refl (refl, tt) (record { distinct = (refl, tt); positive = (refl, tt) }) refl
      (refl, (refl, tt)) (λ d h. ground (arith, h))
