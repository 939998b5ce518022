-- ===== src/Frame/Bank.antt =====
-- A currency at which the theorems on `T::Currency` are tried: two maps of balances. It follows the
-- documented behaviour of the framework's balances without locks and existential deposit.
use cerulea.Common.{
  ℕ, ◌+◌, ◌-◌, min, Map, get, insert, lookup-insert, leb, if◌then◌else◌, none, some, arith,
}
use cerulea.Frame.Currency.{Currency, Laws}

pub record Bank : Type 0 where
  pub free : Map ℕ
  pub reserved : Map ℕ

-- Moves an amount from the free to the reserved balance.
abbrev pub hold : ℕ → ℕ → Bank → Bank
hold who amount b = record {
  free = insert who (get 0 who b.free - amount) b.free;
  reserved = insert who (get 0 who b.reserved + amount) b.reserved;
}

abbrev pub release : ℕ → ℕ → Bank → Bank
release who amount b = record {
  free = insert who (get 0 who b.free + amount) b.free;
  reserved = insert who (get 0 who b.reserved - amount) b.reserved;
}

abbrev pub bank : Currency Bank
bank = record {
  free_balance = λ who b. get 0 who b.free;
  reserved_balance = λ who b. get 0 who b.reserved;
  reserve =
      λ who amount b. if leb amount (get 0 who b.free) then some (hold who amount b) else none;
  unreserve = λ who amount b.
      (amount - get 0 who b.reserved, release who (min amount (get 0 who b.reserved)) b);
  slash = λ who amount b. (
    amount - get 0 who b.free,
    record b { free = insert who (get 0 who b.free - amount) b.free },
  );
  deposit_creating =
      λ who amount b. record b { free = insert who (get 0 who b.free + amount) b.free };
}

pub bank-Laws : Laws bank
bank-Laws = record {
  unreserve_rest = λ who amount b h. ground arith;
  unreserve_covered = λ who amount b h. ground (
    arith,
    lookup-insert who who (get 0 who b.free + min amount (get 0 who b.reserved)) b.free,
    lookup-insert who who (get 0 who b.reserved - min amount (get 0 who b.reserved)) b.reserved,
  );
  reserve_moves = λ who amount b b' e. ground (
    arith,
    e,
    lookup-insert who who (get 0 who b.free - amount) b.free,
    lookup-insert who who (get 0 who b.reserved + amount) b.reserved,
  );
  slash_covered =
      λ who amount b h. ground (arith, lookup-insert who who (get 0 who b.free - amount) b.free);
}
