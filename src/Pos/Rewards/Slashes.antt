-- ===== src/Pos/Rewards/Slashes.antt =====
-- What a slash of pallet-cerulea-pos takes, and what it adds to the totals of the epoch.
use native.Mathlib.Nat.{div-add-mod}
use cerulea.Common.{
  ℕ, zero, suc, ◌+◌, ◌-◌, ◌*◌, ◌/◌, ◌<◌, ◌≤◌, ◌≡◌, refl, ap, ◌∙◌, true, List, [], ◌∷◌,
  lookup-insert, get, has_key, min, u128_max, arith, mul-le,
}
use cerulea.Frame.Action.{root}
use cerulea.Frame.Currency.{Currency, Laws}
use cerulea.Pos.State.{Config, World, ValidatorHandler}
use cerulea.Pos.Rewards.{
  add_slashed, requested_slash, execute_slash_validator, for_each, slash_validator_percentage,
  slash_multiple_validators,
}

pub repeat : ℕ → ℕ → List ℕ
repeat v zero = []
repeat v (suc n) = v ∷ repeat v n

percent-le : (f s : ℕ) → s ≤ 100 → f * s / 100 ≤ f
percent-le f s h = omega (arith, mul-le f s 100 h, div-add-mod (f * s) 100)

module _ {H B : Type 0} (cfg : Config) where
  -- An amount that passes the two bounds of the epoch.
  pub record Passes (v amount : ℕ) (w : World H B) : Type 0 where
    pub known : has_key v w.pos.validators ≡ true
    pub positive : 0 < amount
    pub in_epoch : w.pos.epoch_total_slashed + amount ≤ cfg.max_slash_per_epoch
    pub in_epoch_word : w.pos.epoch_total_slashed + amount ≤ u128_max
    pub in_validator : get 0 v w.pos.validator_epoch_slashed + amount ≤ cfg.max_slash_per_validator
    pub in_validator_word : get 0 v w.pos.validator_epoch_slashed + amount ≤ u128_max

module _ {H B : Type 0} (cfg : Config) (cur : Currency B) (laws : Laws cur)
    (hdl : ValidatorHandler H) where
  -- A slash that passes the bounds and that the free balance covers takes the amount, and leaves
  -- the totals of the epoch and of the validator as they were: the code counts what the currency
  -- could not slash.
  pub execute_slash_validator_uncounted :
      (v amount : ℕ) (w : World H B)
      → Passes cfg v amount w
      → amount ≤ cur.free_balance v w.balances
      → let w' = (execute_slash_validator cfg cur hdl v amount w).1 in
        (cur.free_balance v w'.balances ≡ cur.free_balance v w.balances - amount)
        × (w'.pos.epoch_total_slashed ≡ w.pos.epoch_total_slashed)
        × (get 0 v w'.pos.validator_epoch_slashed ≡ get 0 v w.pos.validator_epoch_slashed)
        × (w'.pos.validators ≡ w.pos.validators)
  unfolding execute_slash_validator add_slashed requested_slash
  execute_slash_validator_uncounted v amount w p covered = ground (
    arith,
    p.known,
    p.positive,
    p.in_epoch,
    p.in_epoch_word,
    p.in_validator,
    p.in_validator_word,
    laws.slash_covered v amount w.balances covered,
    lookup-insert v v (min (get 0 v w.pos.validator_epoch_slashed) u128_max)
        w.pos.validator_epoch_slashed,
  )

  Passes-next :
      (v amount : ℕ) (w : World H B)
      → Passes cfg v amount w
      → amount ≤ cur.free_balance v w.balances
      → Passes cfg v amount (execute_slash_validator cfg cur hdl v amount w).1
  Passes-next v amount w p covered =
      let (free, total, each, known) = execute_slash_validator_uncounted v amount w p covered in
      record {
        known = ap (has_key v) known ∙ p.known;
        positive = p.positive;
        in_epoch = omega (arith, total, p.in_epoch);
        in_epoch_word = omega (arith, total, p.in_epoch_word);
        in_validator = omega (arith, each, p.in_validator);
        in_validator_word = omega (arith, each, p.in_validator_word);
      }

  for_each_uncounted :
      (v amount n : ℕ) (w : World H B)
      → Passes cfg v amount w
      → n * amount ≤ cur.free_balance v w.balances
      → let w' =
          (for_each cfg cur hdl
            (λ a. execute_slash_validator cfg cur hdl a amount)
            (repeat v n)
            w).1 in
        (cur.free_balance v w'.balances ≡ cur.free_balance v w.balances - n * amount)
        × (w'.pos.epoch_total_slashed ≡ w.pos.epoch_total_slashed)
  unfolding for_each repeat
  for_each_uncounted v amount zero w p covered = (omega arith, refl)
  for_each_uncounted v amount (suc n) w p covered =
      let one : amount ≤ cur.free_balance v w.balances = omega (arith, covered) in
      let (free, total, each, known) = execute_slash_validator_uncounted v amount w p one in
      let (free', total') =
        for_each_uncounted v amount n (execute_slash_validator cfg cur hdl v amount w).1
          (Passes-next v amount w p one) (omega (arith, free, covered)) in
      (omega (arith, free, free', covered), total' ∙ total)

  -- A slash by the root of a list that names one validator n times, and nobody else, takes n times the
  -- amount and adds nothing to the total of the epoch, however small the bounds are: it is enough that
  -- the validator is registered, that the amount is positive and passes the bounds of the epoch once
  -- without an overflow, and that the free balance covers n times the amount. The currency has its
  -- documented laws.
  pub slash_multiple_validators_unbounded :
      (v amount n : ℕ) (w : World H B)
      → Passes cfg v amount w
      → n * amount ≤ cur.free_balance v w.balances
      → let w' = (slash_multiple_validators cfg cur hdl root (repeat v n) amount w).1 in
        (cur.free_balance v w'.balances ≡ cur.free_balance v w.balances - n * amount)
        × (w'.pos.epoch_total_slashed ≡ w.pos.epoch_total_slashed)
  unfolding slash_multiple_validators
  slash_multiple_validators_unbounded v amount n w p covered =
      for_each_uncounted v amount n w p covered

  percent_state :
      (v : ℕ) (w : World H B)
      → (slash_validator_percentage cfg cur hdl root v 0 w).1
        ≡ (execute_slash_validator cfg cur hdl v 0 w).1
  unfolding slash_validator_percentage
  percent_state v w = ground arith

  -- A slash of 0 percent takes the configured percentage of the free balance: the amount of 0 that
  -- it works out stands for the default. The percentage is at most 100, and the amount passes the
  -- bounds of the epoch.
  slash_validator_percentage_zero :
      (v : ℕ) (w : World H B)
      → cfg.slash_percent ≤ 100
      → cur.free_balance v w.balances * cfg.slash_percent ≤ u128_max
      → Passes cfg v (cur.free_balance v w.balances * cfg.slash_percent / 100) w
      → let w' = (slash_validator_percentage cfg cur hdl root v 0 w).1 in
        cur.free_balance v w'.balances
        ≡ cur.free_balance v w.balances - cur.free_balance v w.balances * cfg.slash_percent / 100
  unfolding slash_validator_percentage execute_slash_validator add_slashed requested_slash
  slash_validator_percentage_zero v w le fits p = ground (
    arith,
    le,
    fits,
    p.known,
    p.positive,
    p.in_epoch,
    p.in_epoch_word,
    p.in_validator,
    p.in_validator_word,
    laws.slash_covered v (cur.free_balance v w.balances * cfg.slash_percent / 100) w.balances
        (percent-le (cur.free_balance v w.balances) cfg.slash_percent le),
  )
