-- ===== src/Pos/Rewards/Reach.antt =====
-- The calls of pallet-cerulea-pos that reward and slash, in any order.
use cerulea.Frame.Action.{>>=-Keeps, ensure, modify, Keeps, Origin, Action, root, signed, unsigned}
use cerulea.Common.{◌/◌, ℕ, get, u128_max, ⊤, leb, saturating_mul, [], true, false, Bool, List, ◌∷◌}
use cerulea.Frame.Errors.{pos_error, invalid_stake_amount}
use cerulea.Frame.Currency.{Currency}
use cerulea.Pos.State.{Config, World, ValidatorHandler, on_pos}
use cerulea.Pos.Rewards.{
  execute_reward_validator, execute_slash_validator, slash_validator, slash_validator_percentage,
  slash_multiple_validators, reward_validator_call, reward_multiple_validators,
  reward_all_active_validators, reset_epoch_totals,
}
use cerulea.Pos.Rewards.Totals.{
  Accounts, WorldAccounts, zero-Account, execute_reward_validator-Accounts,
  execute_slash_validator-Accounts, for_each-Accounts,
}

module _ {H B : Type 0} (cfg : Config) (cur : Currency B) (hdl : ValidatorHandler H) where
  -- The calls that reward and slash, and the reset at the start of an epoch.
  pub data Call : Type 0 where
    slashes : Origin → ℕ → ℕ → Call
    slashes_percentage : Origin → ℕ → ℕ → Call
    slashes_multiple : Origin → List ℕ → ℕ → Call
    rewards : Origin → ℕ → ℕ → Call
    rewards_multiple : Origin → List ℕ → ℕ → Call
    rewards_all_active : Origin → ℕ → Call
    resets : Call

  pub run : Call → Action (World H B) ⊤
  run (slashes o v amount) = slash_validator cfg cur hdl o v amount
  run (slashes_percentage o v percentage) = slash_validator_percentage cfg cur hdl o v percentage
  run (slashes_multiple o vs amount) = slash_multiple_validators cfg cur hdl o vs amount
  run (rewards o v amount) = reward_validator_call cfg cur hdl o v amount
  run (rewards_multiple o vs amount) = reward_multiple_validators cfg cur hdl o vs amount
  run (rewards_all_active o amount) = reward_all_active_validators cfg cur hdl o amount
  run resets = on_pos (modify reset_epoch_totals)

  percentage-Accounts :
      (v percentage : ℕ)
      → Keeps (WorldAccounts cfg cur hdl) (slash_validator_percentage cfg cur hdl root v percentage)
  unfolding slash_validator_percentage
  percentage-Accounts v percentage =
      >>=-Keeps (WorldAccounts cfg cur hdl)
        (ensure (leb percentage 100) (pos_error invalid_stake_amount))
        (λ _ w.
          execute_slash_validator cfg cur hdl v
            (saturating_mul u128_max (get 0 v w.pos.stake) percentage / 100) w)
        (guard (leb percentage 100))
        (λ _ w.
          execute_slash_validator-Accounts cfg cur hdl v
            (saturating_mul u128_max (get 0 v w.pos.stake) percentage / 100) w)
    where
      guard :
          (b : Bool) → Keeps (WorldAccounts cfg cur hdl) (ensure b (pos_error invalid_stake_amount))
      guard true w h = h
      guard false w h = h

  -- Every call keeps the accounts, whatever its origin and outcome: the totals of the epoch are the
  -- sums over the validators, and both stay within the configured bounds.
  run-Accounts : (c : Call) → Keeps (WorldAccounts cfg cur hdl) (run c)
  unfolding run slash_validator slash_multiple_validators reward_validator_call
      reward_multiple_validators reward_all_active_validators reset_epoch_totals
      slash_validator_percentage
  run-Accounts (slashes root v amount) w h =
      execute_slash_validator-Accounts cfg cur hdl v amount w h
  run-Accounts (slashes (signed _) v amount) w h = h
  run-Accounts (slashes unsigned v amount) w h = h
  run-Accounts (slashes_percentage root v percentage) w h = percentage-Accounts v percentage w h
  run-Accounts (slashes_percentage (signed who) v percentage) w h = h
  run-Accounts (slashes_percentage unsigned v percentage) w h = h
  run-Accounts (slashes_multiple root vs amount) w h =
      for_each-Accounts cfg cur hdl (λ v. execute_slash_validator cfg cur hdl v amount)
        (λ v. execute_slash_validator-Accounts cfg cur hdl v amount) vs w h
  run-Accounts (slashes_multiple (signed _) vs amount) w h = h
  run-Accounts (slashes_multiple unsigned vs amount) w h = h
  run-Accounts (rewards root v amount) w h =
      execute_reward_validator-Accounts cfg cur hdl v amount w h
  run-Accounts (rewards (signed _) v amount) w h = h
  run-Accounts (rewards unsigned v amount) w h = h
  run-Accounts (rewards_multiple root vs amount) w h =
      for_each-Accounts cfg cur hdl (λ v. execute_reward_validator cfg cur hdl v amount)
        (λ v. execute_reward_validator-Accounts cfg cur hdl v amount) vs w h
  run-Accounts (rewards_multiple (signed _) vs amount) w h = h
  run-Accounts (rewards_multiple unsigned vs amount) w h = h
  run-Accounts (rewards_all_active root amount) w h =
      for_each-Accounts cfg cur hdl (λ v. execute_reward_validator cfg cur hdl v amount)
        (λ v. execute_reward_validator-Accounts cfg cur hdl v amount)
        (hdl.get_active_validators w.handler) w h
  run-Accounts (rewards_all_active (signed _) amount) w h = h
  run-Accounts (rewards_all_active unsigned amount) w h = h
  run-Accounts resets w h = (zero-Account, zero-Account)

  pub run_all : List Call → World H B → World H B
  run_all [] w = w
  run_all (c ∷ cs) w = run_all cs (run c w).1

  -- Any sequence of calls that reward, slash or reset, by anyone and whether they fail or not, keeps
  -- the accounts: the totals of the epoch are the sums over the validators, and the totals as well
  -- as what each validator has stay within the configured bounds.
  pub run_all-Accounts :
      (cs : List Call) (w : World H B) → Accounts cfg w.pos → Accounts cfg (run_all cs w).pos
  unfolding run_all
  run_all-Accounts [] w h = h
  run_all-Accounts (c ∷ cs) w h = run_all-Accounts cs (run c w).1 (run-Accounts c w h)
