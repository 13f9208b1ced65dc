-- ===== src/Sdk/Bank.antt =====
-- The bank and supply keepers of the Cosmos SDK, which are not part of the repository. A coin is an
-- amount of a denom; a method that fails leaves no trace.
use blockchain_relay_layer.Base.{
  ℕ, Bool, ◌+◌, ◌≤◌, ◌≡◌, ◌≢◌, Option, none, some, ◌==◌, ◌&&◌, if◌then◌else◌,
}

pub record Coin : Type 0 where
  pub denom : ℕ
  pub amount : ℕ

-- `none` is an error of the SDK.
pub record BankOps (B : Type 0) : Type 0 where
  -- `SendCoinsFromAccountToModule` and back, for the module account of x/orders
  pub lock_coin : ℕ → Coin → B → Option B
  pub unlock_coin : ℕ → Coin → B → Option B
  -- `AddCoins`, `SubtractCoins`
  pub add_coin : ℕ → Coin → B → Option B
  pub subtract_coin : ℕ → Coin → B → Option B
  -- `GetCoins` of an account and of the module account, in one denom
  pub balance_of : ℕ → ℕ → B → ℕ
  pub locked_of : ℕ → B → ℕ
  -- whether the account keeper has an account of the address
  pub has_account : ℕ → B → Bool

-- The amount of a coin at an account and a denom.
abbrev pub amount_at : ℕ → Coin → ℕ → ℕ → ℕ
amount_at owner c a denom = if (owner == a) && (c.denom == denom) then c.amount else 0

abbrev pub amount_in : Coin → ℕ → ℕ
amount_in c denom = if c.denom == denom then c.amount else 0

pub record BankLaws {B : Type 0} (k : BankOps B) : Type 0 where
  pub lock_balance :
      (o : ℕ) (c : Coin) (b b' : B) (a n : ℕ)
      → k.lock_coin o c b ≡ some b'
      → k.balance_of a n b' + amount_at o c a n ≡ k.balance_of a n b
  pub lock_locked :
      (o : ℕ) (c : Coin) (b b' : B) (n : ℕ)
      → k.lock_coin o c b ≡ some b'
      → k.locked_of n b' ≡ k.locked_of n b + amount_in c n
  pub unlock_balance :
      (o : ℕ) (c : Coin) (b b' : B) (a n : ℕ)
      → k.unlock_coin o c b ≡ some b'
      → k.balance_of a n b' ≡ k.balance_of a n b + amount_at o c a n
  pub unlock_locked :
      (o : ℕ) (c : Coin) (b b' : B) (n : ℕ)
      → k.unlock_coin o c b ≡ some b'
      → k.locked_of n b' + amount_in c n ≡ k.locked_of n b
  -- the module account can pay out what it holds
  pub unlock_succeeds :
      (o : ℕ) (c : Coin) (b : B) → c.amount ≤ k.locked_of c.denom b → k.unlock_coin o c b ≢ none
  pub add_balance :
      (o : ℕ) (c : Coin) (b b' : B) (a n : ℕ)
      → k.add_coin o c b ≡ some b'
      → k.balance_of a n b' ≡ k.balance_of a n b + amount_at o c a n
  pub add_locked :
      (o : ℕ) (c : Coin) (b b' : B) (n : ℕ)
      → k.add_coin o c b ≡ some b'
      → k.locked_of n b' ≡ k.locked_of n b
  pub subtract_balance :
      (o : ℕ) (c : Coin) (b b' : B) (a n : ℕ)
      → k.subtract_coin o c b ≡ some b'
      → k.balance_of a n b' + amount_at o c a n ≡ k.balance_of a n b
