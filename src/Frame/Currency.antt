-- ===== src/Frame/Currency.antt =====
-- The balances component behind `T::Currency`, which the pallets call and do not implement. Its
-- state is a type `B` of its own; the laws are the documented behaviour that the theorems use.
use cerulea.Common.{ℕ, ◌+◌, ◌-◌, ◌≤◌, ◌≡◌, Option, some}

pub record Currency (B : Type 0) : Type 0 where
  -- Balances of an account.
  pub free_balance : ℕ → B → ℕ
  pub reserved_balance : ℕ → B → ℕ
  -- `none` where the call returns an error.
  pub reserve : ℕ → ℕ → B → Option B
  -- The amount that could NOT be moved back to the free balance, and the new state.
  pub unreserve : ℕ → ℕ → B → ℕ × B
  -- The second item of the tuple that `slash` returns, which is the amount that could NOT be
  -- slashed, and the new state.
  pub slash : ℕ → ℕ → B → ℕ × B
  pub deposit_creating : ℕ → ℕ → B → B

-- `reserve` moves from the free to the reserved balance; `unreserve` moves what the reserved balance
-- covers and returns the rest; `slash` deducts what the free balance covers and returns the rest.
pub record Laws {B : Type 0} (c : Currency B) : Type 0 where
  pub unreserve_rest :
      (who amount : ℕ) (b : B)
      → c.reserved_balance who b ≤ amount
      → (c.unreserve who amount b).0 ≡ amount - c.reserved_balance who b
  pub unreserve_covered :
      (who amount : ℕ) (b : B)
      → amount ≤ c.reserved_balance who b
      → ((c.unreserve who amount b).0 ≡ 0)
        × (c.reserved_balance who (c.unreserve who amount b).1 ≡ c.reserved_balance who b - amount)
        × (c.free_balance who (c.unreserve who amount b).1 ≡ c.free_balance who b + amount)
  pub reserve_moves :
      (who amount : ℕ) (b b' : B)
      → c.reserve who amount b ≡ some b'
      → (c.reserved_balance who b' ≡ c.reserved_balance who b + amount)
        × (c.free_balance who b' + amount ≡ c.free_balance who b)
  pub slash_covered :
      (who amount : ℕ) (b : B)
      → amount ≤ c.free_balance who b
      → ((c.slash who amount b).0 ≡ 0)
        × (c.free_balance who (c.slash who amount b).1 ≡ c.free_balance who b - amount)
