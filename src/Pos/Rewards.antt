-- ===== src/Pos/Rewards.antt =====
-- Rewards and slashes of cerulea-pallets/pallet-cerulea-pos/src/lib.rs, with their totals for each
-- epoch and each validator, and the root calls that loop over them.
pub mod Totals
pub mod Reach
pub mod Slashes
use cerulea.Common.{
  ℕ, ◌/◌, min, ⊤, List, [], ◌∷◌, if◌then◌else◌, leb, ltb, ◌==◌, has_key, get, insert,
  saturating_add, saturating_mul, saturated_into, checked_add, checked_mul, checked_div, u64_max,
  u128_max, none, some,
}
use cerulea.Frame.Errors.{
  pos_error, validator_not_in_set, invalid_stake_amount, arithmetic_overflow, arithmetic_underflow,
  slashing_bounds_exceeded, reward_bounds_exceeded,
}
use cerulea.Frame.Action.{
  Action, ◌>>=◌, ◌>>◌, pure, gets, modify, ensure, ok_or, Origin, ensure_root, ok,
}
use cerulea.Frame.Currency.{Currency}
use cerulea.Pos.State.{Config, Pos, World, ValidatorHandler, on_handler}

-- `EpochTotalRewarded::mutate` and `ValidatorEpochRewarded::mutate`, and the same for slashes.
add_rewarded : ℕ → ℕ → Pos → Pos
add_rewarded v amount p = record p {
  epoch_total_rewarded = saturating_add u128_max p.epoch_total_rewarded amount;
  validator_epoch_rewarded =
      insert v (saturating_add u128_max (get 0 v p.validator_epoch_rewarded) amount)
        p.validator_epoch_rewarded;
}

add_slashed : ℕ → ℕ → Pos → Pos
add_slashed v amount p = record p {
  epoch_total_slashed = saturating_add u128_max p.epoch_total_slashed amount;
  validator_epoch_slashed =
      insert v (saturating_add u128_max (get 0 v p.validator_epoch_slashed) amount)
        p.validator_epoch_slashed;
}

-- `amount.saturated_into::<u64>().checked_div(divisor).unwrap_or(0).min(cap)`
scaled : ℕ → ℕ → ℕ → ℕ
scaled amount divisor cap =
    min (elim (checked_div (saturated_into u64_max amount) divisor) [ none ↦ 0 | some q ↦ q ]) cap

pub reset_epoch_totals : Pos → Pos
reset_epoch_totals p = record p {
  epoch_total_slashed = 0;
  epoch_total_rewarded = 0;
  validator_epoch_slashed = [];
  validator_epoch_rewarded = [];
}

module _ {H B : Type 0} (cfg : Config) (cur : Currency B) (hdl : ValidatorHandler H) where
  pub execute_reward_validator : ℕ → ℕ → Action (World H B) ⊤
  unfolding add_rewarded scaled
  execute_reward_validator validator amount = do
    known ← gets (λ w. has_key validator w.pos.validators)
    ensure known (pos_error validator_not_in_set)
    pre_balance ← gets (λ w. cur.free_balance validator w.balances)
    let reward_amount = if ltb 0 amount then amount else cfg.validator_reward
    current_epoch_total ← gets (λ w. w.pos.epoch_total_rewarded)
    current_validator_total ← gets (λ w. get 0 validator w.pos.validator_epoch_rewarded)
    new_epoch_total ←
        ok_or (checked_add u128_max current_epoch_total reward_amount)
          (pos_error arithmetic_overflow)
    ensure (leb new_epoch_total cfg.max_reward_per_epoch) (pos_error reward_bounds_exceeded)
    new_validator_total ←
        ok_or (checked_add u128_max current_validator_total reward_amount)
          (pos_error arithmetic_overflow)
    ensure (leb new_validator_total cfg.max_reward_per_validator) (pos_error reward_bounds_exceeded)
    ok_or (checked_add u128_max pre_balance reward_amount) (pos_error arithmetic_overflow)
    modify (λ w. record w { balances = cur.deposit_creating validator reward_amount w.balances })
    modify (λ w. record w { pos = add_rewarded validator reward_amount w.pos })
    on_handler (
        hdl.on_rewarded validator reward_amount
          (scaled reward_amount cfg.reward_boost_divisor cfg.max_reward_boost))

  -- The amount that a slash asks for: the given one, or a percentage of the free balance.
  requested_slash : ℕ → ℕ → Action (World H B) ℕ
  requested_slash amount pre_balance =
      if amount == 0
      then (do
        slash_numerator ←
            ok_or (checked_mul u128_max pre_balance cfg.slash_percent)
              (pos_error arithmetic_overflow)
        ok_or (checked_div slash_numerator 100) (pos_error arithmetic_underflow))
      else pure amount

  pub execute_slash_validator : ℕ → ℕ → Action (World H B) ⊤
  unfolding add_slashed scaled requested_slash
  execute_slash_validator validator amount = do
    known ← gets (λ w. has_key validator w.pos.validators)
    ensure known (pos_error validator_not_in_set)
    pre_balance ← gets (λ w. cur.free_balance validator w.balances)
    slash_amount ← requested_slash amount pre_balance
    current_epoch_total ← gets (λ w. w.pos.epoch_total_slashed)
    current_validator_total ← gets (λ w. get 0 validator w.pos.validator_epoch_slashed)
    new_epoch_total ←
        ok_or (checked_add u128_max current_epoch_total slash_amount)
          (pos_error arithmetic_overflow)
    ensure (leb new_epoch_total cfg.max_slash_per_epoch) (pos_error slashing_bounds_exceeded)
    new_validator_total ←
        ok_or (checked_add u128_max current_validator_total slash_amount)
          (pos_error arithmetic_overflow)
    ensure (leb new_validator_total cfg.max_slash_per_validator)
        (pos_error slashing_bounds_exceeded)
    actual_slashed ← gets (λ w. (cur.slash validator slash_amount w.balances).0)
    modify (λ w. record w { balances = (cur.slash validator slash_amount w.balances).1 })
    let slashed_amount = min actual_slashed slash_amount
    modify (λ w. record w { pos = add_slashed validator slashed_amount w.pos })
    on_handler (
        hdl.on_slashed validator slashed_amount
          (scaled slashed_amount cfg.slash_penalty_divisor cfg.max_slash_penalty))

  pub slash_validator : Origin → ℕ → ℕ → Action (World H B) ⊤
  slash_validator origin validator amount = do
    ensure_root origin
    execute_slash_validator validator amount

  pub slash_validator_percentage : Origin → ℕ → ℕ → Action (World H B) ⊤
  slash_validator_percentage origin validator percentage = do
    ensure_root origin
    ensure (leb percentage 100) (pos_error invalid_stake_amount)
    current_stake ← gets (λ w. get 0 validator w.pos.stake)
    execute_slash_validator validator (saturating_mul u128_max current_stake percentage / 100)

  -- `for validator in validators { let _ = call(&validator, amount); }`
  pub for_each : (ℕ → Action (World H B) ⊤) → List ℕ → Action (World H B) ⊤
  for_each call [] w = (ok tt, w)
  for_each call (v ∷ vs) w = for_each call vs (call v w).1

  pub slash_multiple_validators : Origin → List ℕ → ℕ → Action (World H B) ⊤
  unfolding for_each
  slash_multiple_validators origin validators amount = do
    ensure_root origin
    for_each (λ v. execute_slash_validator v amount) validators

  pub reward_validator_call : Origin → ℕ → ℕ → Action (World H B) ⊤
  reward_validator_call origin validator amount = do
    ensure_root origin
    execute_reward_validator validator amount

  pub reward_multiple_validators : Origin → List ℕ → ℕ → Action (World H B) ⊤
  unfolding for_each
  reward_multiple_validators origin validators amount = do
    ensure_root origin
    for_each (λ v. execute_reward_validator v amount) validators

  pub reward_all_active_validators : Origin → ℕ → Action (World H B) ⊤
  unfolding for_each
  reward_all_active_validators origin amount = do
    ensure_root origin
    active_validators ← gets (λ w. hdl.get_active_validators w.handler)
    for_each (λ v. execute_reward_validator v amount) active_validators
