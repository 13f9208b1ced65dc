-- ===== src/Sdk/Examples.antt =====
-- Decimal arithmetic that rounds half up, and a bank that keeps its accounts as functions.
use native.Mathlib.Nat.{div-add-mod, mod-lt}
use blockchain_relay_layer.Base.{
  ◌∙◌, ap, ℕ, ◌+◌, ◌-◌, ◌*◌, ◌/◌, ◌^◌, ◌≤◌, ◌<◌, ◌≡◌, refl, Bool, true, false, Option, none, some,
  ltb, leb, ltb→lt, not_ltb→le, ◌==◌, ◌&&◌, if◌then◌else◌, arith, inl, inr, Bool-cases,
}
use blockchain_relay_layer.Sdk.{DecOps, DecLaws, one_dec}
use blockchain_relay_layer.Sdk.Bank.{Coin, BankOps, BankLaws, amount_at, amount_in}

abbrev pub half_up : DecOps
half_up = record {
  mul = λ a b. (a * b + 500_000_000_000_000_000) / 1_000_000_000_000_000_000;
  quo = λ a b. (2 * (a * one_dec) + b) / (2 * b);
  ceil = λ a. (a + 999_999_999_999_999_999) / 1_000_000_000_000_000_000 * one_dec;
  round_int = λ a. (a + 500_000_000_000_000_000) / 1_000_000_000_000_000_000;
  truncate_int = λ a. a / 1_000_000_000_000_000_000;
  from_int_with_prec = λ n p. n * 10 ^ (18 - p);
}

-- A division by an even number, as both bounds.
divided : (n b : ℕ) → 0 < b → (2 * (n / (2 * b) * b) ≤ n) × (n < 2 * (n / (2 * b) * b) + 2 * b)
divided n b h = omega (arith, div-add-mod n (2 * b), mod-lt n even, twice (n / (2 * b)))
  where
    even : 0 < 2 * b
    even = omega arith

    twice : (q : ℕ) → 2 * (q * b) ≡ 2 * b * q
    twice q = grind arith

div_mono : (a a' b : ℕ) → 0 < b → a ≤ a' → a / b ≤ a' / b
div_mono a a' b p h = elim (Bool-cases (ltb (a' / b) (a / b))) [
  | inl e ↦
      absurd
        (grind (arith, div-add-mod a b, div-add-mod a' b, mod-lt a' p, ltb→lt (a' / b) (a / b) e))
  | inr e ↦ not_ltb→le (a' / b) (a / b) e
]

pub half_up_laws : DecLaws half_up
half_up_laws = record {
  mul_above = λ a b. omega arith;
  mul_below = λ a b. omega arith;
  quo_above = λ a b h. (divided (2 * (a * one_dec) + b) b h).0;
  quo_below = λ a b h.
      let q = (2 * (a * one_dec) + b) / (2 * b) * b in
      omega (arith, (divided (2 * (a * one_dec) + b) b h).1);
  mul_mono = λ a a' b h. div_mono _ _ 1_000_000_000_000_000_000 (omega arith) (grind arith);
  quo_mono = λ a a' b p h. div_mono _ _ (2 * b) (omega arith) (omega arith);
  ceil_least = λ a n h. omega arith;
  ceil_above = λ a. omega arith;
  round_int_of = λ n. omega arith;
  round_int_above = λ a. omega arith;
  round_int_below = λ a. omega arith;
  round_int_mono = λ a b h. omega arith;
  truncate_int_below = λ a. omega arith;
  truncate_int_above = λ a. omega arith;
  from_int_exact = λ n p h. refl;
}

pub record Ledger : Type 0 where
  pub balances : ℕ → ℕ → ℕ
  pub locked : ℕ → ℕ
  pub known : ℕ → Bool

abbrev credit : ℕ → Coin → Ledger → Ledger
credit o c l = record l {
  balances = λ a n. l.balances a n + amount_at o c a n;
  known = λ a. if o == a then true else l.known a;
}

abbrev debit : ℕ → Coin → Ledger → Ledger
debit o c l = record l { balances = λ a n. l.balances a n - amount_at o c a n }

abbrev pub ledger : BankOps Ledger
ledger = record {
  lock_coin = λ o c l.
      if leb c.amount (l.balances o c.denom)
      then some (record (debit o c l) { locked = λ n. l.locked n + amount_in c n })
      else none;
  unlock_coin = λ o c l.
      if leb c.amount (l.locked c.denom)
      then some (record (credit o c l) { locked = λ n. l.locked n - amount_in c n })
      else none;
  add_coin = λ o c l. some (credit o c l);
  subtract_coin = λ o c l. if leb c.amount (l.balances o c.denom) then some (debit o c l) else none;
  balance_of = λ a n l. l.balances a n;
  locked_of = λ n l. l.locked n;
  has_account = λ a l. l.known a;
}

taken :
    (test : Bool) (x y : Ledger)
    → ◌≡◌ {A = Option Ledger} (if test then some x else none) (some y)
    → (test ≡ true) × (x ≡ y)
taken true x y h =
    (refl, ap (λ (o : Option Ledger). let l : Ledger = elim o [ none ↦ x | some z ↦ z ] in l) h)
taken false x y h = absurd (ground (arith, h))

covered_at :
    (o : ℕ) (c : Coin) (f : ℕ → ℕ → ℕ) (a n : ℕ)
    → leb c.amount (f o c.denom) ≡ true
    → amount_at o c a n ≤ f a n
covered_at o c f a n h = elim (Bool-cases ((o == a) && (c.denom == n))) [
  | inr e ↦ rw (e) (omega arith)
  | inl e ↦
      let own : o ≡ a = ground (arith, e) in
      let denom : c.denom ≡ n = ground (arith, e) in
      let same : f o c.denom ≡ f a n = ap (λ (x : ℕ). f x c.denom) own ∙ ap (f a) denom in
      rw (e) (ground (arith, same, h))
]

covered_in : (c : Coin) (f : ℕ → ℕ) (n : ℕ) → leb c.amount (f c.denom) ≡ true → amount_in c n ≤ f n
covered_in c f n h = elim (Bool-cases (c.denom == n)) [
  | inr e ↦ rw (e) (omega arith)
  | inl e ↦ let denom : c.denom ≡ n = ground (arith, e) in rw (e) (ground (arith, ap f denom, h))
]

pub ledger_laws : BankLaws ledger
ledger_laws = record {
  lock_balance = λ o c b b' a n h.
      let (t, e) = taken (leb c.amount (b.balances o c.denom)) _ b' h in
      rw (← e) (omega (arith, covered_at o c b.balances a n t));
  lock_locked = λ o c b b' n h.
      let (t, e) = taken (leb c.amount (b.balances o c.denom)) _ b' h in rw (← e) refl;
  unlock_balance = λ o c b b' a n h.
      let (t, e) = taken (leb c.amount (b.locked c.denom)) _ b' h in rw (← e) refl;
  unlock_locked = λ o c b b' n h.
      let (t, e) = taken (leb c.amount (b.locked c.denom)) _ b' h in
      rw (← e) (omega (arith, covered_in c b.locked n t));
  unlock_succeeds = λ o c b h e. absurd (ground (arith, e, h));
  add_balance = λ o c b b' a n h. let (t, e) = taken true _ b' h in rw (← e) refl;
  add_locked = λ o c b b' n h. let (t, e) = taken true _ b' h in rw (← e) refl;
  subtract_balance = λ o c b b' a n h.
      let (t, e) = taken (leb c.amount (b.balances o c.denom)) _ b' h in
      rw (← e) (omega (arith, covered_at o c b.balances a n t));
}
