-- ===== src/Pos/Tests.antt =====
-- The theorems on pallet-cerulea-pos at concrete states: two validators, a smallest stake of 10,
-- bounds of 100 for the slashes of an epoch.
use cerulea.Common.{ℕ, ◌≤◌, ◌≡◌, refl, true, [], ◌∷◌, arith, get, ⊤}
use cerulea.Frame.Action.{root, signed, ok}
use cerulea.Frame.Bank.{Bank, bank, bank-Laws, hold}
use cerulea.Pos.State.{Config, Pos, World, ValidatorHandler}
use cerulea.Pos.Registry.{bond_stake, unbond_stake}
use cerulea.Pos.Registry.Bounds.{IsBounded}
use cerulea.Pos.Registry.Reach.{run_all-IsBounded}
use cerulea.Pos.Registry
use cerulea.Pos.Rewards
use cerulea.Pos.Registry.Bonds.{unbond_stake-bond_stake}
use cerulea.Pos.Stake.{increase_validator_stake, decrease_validator_stake}
use cerulea.Pos.Stake.Released.{decrease-increase_inflates}
use cerulea.Pos.Rewards.{
  slash_multiple_validators, slash_validator_percentage, execute_slash_validator,
}
use cerulea.Pos.Rewards.Totals.{Accounts}
use cerulea.Pos.Rewards.Reach.{run_all-Accounts}
use cerulea.Pos.Rewards.Slashes.{Passes, repeat, slash_multiple_validators_unbounded}
use cerulea.Pos.Distribute.{shares}
use cerulea.Pos.Distribute.Shared.{paid, paid-shares-le}

abbrev cfg : Config
cfg = record {
  min_validator_score = 1;
  max_validators = 4;
  max_slashing_count = 3;
  min_stake = 10;
  leave_cooldown = 5;
  validator_reward = 7;
  slash_percent = 5;
  max_slash_per_epoch = 100;
  max_slash_per_validator = 60;
  max_reward_per_epoch = 100;
  max_reward_per_validator = 60;
  slash_penalty_divisor = 10;
  max_slash_penalty = 50;
  reward_boost_divisor = 10;
  max_reward_boost = 50;
  high_performance_score = 80;
  top_performer_percentage = 20;
}

abbrev start : Pos
start = record {
  validators = (1, true) ∷ (2, true) ∷ [];
  validator_scores = [];
  current_epoch = 3;
  slashing_count = [];
  stake = (1, 30) ∷ (2, 20) ∷ [];
  epoch_total_rewarded = 0;
  epoch_total_slashed = 0;
  validator_epoch_rewarded = [];
  validator_epoch_slashed = [];
  events = [];
}

abbrev accepting : ValidatorHandler ⊤
accepting = record {
  on_left = λ v h. (ok tt, h);
  on_stake_increased = λ v amount h. (ok tt, h);
  on_stake_decreased = λ v amount h. (ok tt, h);
  on_slashed = λ v amount penalty h. (ok tt, h);
  on_rewarded = λ v amount boost h. (ok tt, h);
  get_validator_score = λ v h. 90;
  get_active_validators = λ h. 1 ∷ 2 ∷ [];
}

abbrev funds : Bank
funds = record { free = (1, 1000) ∷ (2, 500) ∷ []; reserved = (1, 30) ∷ (2, 20) ∷ [] }

abbrev world : World ⊤ Bank
world = record { pos = start; handler = tt; balances = funds }

run_all-IsBounded_example : IsBounded cfg (
    Registry.Reach.run_all cfg
      (Registry.Reach.registers (signed 5)
        ∷ Registry.Reach.slashes (signed 1) 2
        ∷ Registry.Reach.slashes_stake 2 15
        ∷ [])
      start)
run_all-IsBounded_example =
    run_all-IsBounded cfg (omega arith)
      (Registry.Reach.registers (signed 5)
        ∷ Registry.Reach.slashes (signed 1) 2
        ∷ Registry.Reach.slashes_stake 2 15
        ∷ [])
      start (record { few = omega arith; low = λ v. omega arith })

unbond_stake-bond_stake_example :
    let (r1, p1) = bond_stake cfg (signed 1) 15 start in
    let (r2, p2) = unbond_stake cfg (signed 1) 15 p1 in
    (r1 ≡ ok tt) × (r2 ≡ ok tt) × ((a : ℕ) → get 0 a p2.stake ≡ get 0 a start.stake)
unbond_stake-bond_stake_example =
    unbond_stake-bond_stake cfg 1 15 start refl (omega arith) (omega arith) (omega arith)

decrease-increase_inflates_example :
    let w1 = (increase_validator_stake cfg bank accepting (signed 1) 100 world).1 in
    let w2 = (decrease_validator_stake cfg bank accepting (signed 1) 100 w1).1 in
    (get 0 1 w2.pos.stake ≡ 130)
    × (get 0 1 w2.balances.reserved ≡ 30)
    × (get 0 1 w2.balances.free ≡ 1000)
decrease-increase_inflates_example =
    decrease-increase_inflates cfg bank bank-Laws accepting 1 100 world (hold 1 100 funds) refl
      (omega arith) (omega arith) refl (omega arith) refl

run_all-Accounts_example :
    Accounts cfg
      (Rewards.Reach.run_all cfg bank accepting
        (Rewards.Reach.slashes root 1 40
          ∷ Rewards.Reach.rewards root 2 0
          ∷ Rewards.Reach.rewards (signed 2) 2 50
          ∷ [])
        world).pos
run_all-Accounts_example =
    run_all-Accounts cfg bank accepting
      (Rewards.Reach.slashes root 1 40
        ∷ Rewards.Reach.rewards root 2 0
        ∷ Rewards.Reach.rewards (signed 2) 2 50
        ∷ [])
      world
      (
        record { bounded = omega arith; summed = refl; each_bounded = λ v. omega arith },
        record { bounded = omega arith; summed = refl; each_bounded = λ v. omega arith },
      )

Passes-50 : Passes cfg 1 50 world
Passes-50 = record {
  known = refl;
  positive = omega arith;
  in_epoch = omega arith;
  in_epoch_word = omega arith;
  in_validator = omega arith;
  in_validator_word = omega arith;
}

-- Ten times 50, with bounds of 100 and 60.
slash_multiple_validators_unbounded_example :
    let w' = (slash_multiple_validators cfg bank accepting root (repeat 1 10) 50 world).1 in
    (get 0 1 w'.balances.free ≡ 500) × (w'.pos.epoch_total_slashed ≡ 0)
slash_multiple_validators_unbounded_example =
    slash_multiple_validators_unbounded cfg bank bank-Laws accepting 1 50 10 world Passes-50
      (omega arith)

paid-shares-le_example :
    paid (shares cfg ((1, 90) ∷ (2, 70) ∷ (3, 60) ∷ []) 60 25 15) ((1, 90) ∷ (2, 70) ∷ (3, 60) ∷ [])
    ≤ 100
paid-shares-le_example =
    paid-shares-le cfg ((1, 90) ∷ (2, 70) ∷ (3, 60) ∷ []) 60 25 15 (refl, (refl, (refl, tt)))
