-- ===== src/Pos/Distribute.antt =====
-- `distribute_rewards` and `distribute_epoch_rewards` of
-- cerulea-pallets/pallet-cerulea-pos/src/lib.rs: three pools shared among the active validators.
pub mod Shared
use cerulea.Common.{
  ℕ, ◌+◌, ◌*◌, ◌/◌, ◌%◌, ◌^◌, min, ⊤, Bool, false, ◌||◌, List, [], ◌∷◌, map, if◌then◌else◌, leb,
  ltb, ◌==◌, length, take, retain, is_empty, saturating_add, u128_max,
}
use cerulea.Frame.Action.{Action, ◌>>=◌, ◌>>◌, pure, gets, Origin, ensure_root, ok, err}
use cerulea.Frame.Currency.{Currency}
use cerulea.Pos.State.{
  Config, World, ValidatorHandler, on_pos, deposit_event, epoch_rewards_distributed,
}
use cerulea.Pos.Rewards.{execute_reward_validator}

-- The library's stable sort by falling score: the first of two equal entries stays in front.
insert_by_score : ℕ × ℕ → List (ℕ × ℕ) → List (ℕ × ℕ)
insert_by_score e [] = e ∷ []
insert_by_score e (x ∷ xs) = if leb x.1 e.1 then e ∷ x ∷ xs else x ∷ insert_by_score e xs

pub sort_by_score : List (ℕ × ℕ) → List (ℕ × ℕ)
unfolding insert_by_score
sort_by_score [] = []
sort_by_score (e ∷ es) = insert_by_score e (sort_by_score es)

pub is_listed : ℕ → List (ℕ × ℕ) → Bool
is_listed v [] = false
is_listed v ((x, s) ∷ xs) = x == v || is_listed v xs

-- `pool / n`, and 0 for nobody. The lists are shorter than 2 ^ 32, as `MaxValidators` is a u32.
share : ℕ → ℕ → ℕ
share pool n = if ltb 0 n then pool / n else 0

-- The shares that one distribution pays, and who gets the last.
pub record Shares : Type 0 where
  pub base : ℕ
  pub performance : ℕ
  pub top : ℕ
  pub threshold : ℕ
  pub top_performers : List (ℕ × ℕ)

pub total_reward : Shares → ℕ × ℕ → ℕ
unfolding is_listed
total_reward sh (v, score) =
    let with_performance =
      if leb sh.threshold score then saturating_add u128_max sh.base sh.performance else sh.base in
    if is_listed v sh.top_performers
    then saturating_add u128_max with_performance sh.top
    else with_performance

pub shares : Config → List (ℕ × ℕ) → ℕ → ℕ → ℕ → Shares
unfolding share
shares cfg scores base_pool performance_pool top_pool =
    let total = length scores in
    let high = length (retain (λ e. leb cfg.high_performance_score e.1) scores) in
    let top_performers = take (min (total * cfg.top_performer_percentage / 100) total) scores in
    record {
      base = share base_pool total;
      performance = share performance_pool high;
      top = share top_pool (length top_performers);
      threshold = cfg.high_performance_score;
      top_performers = top_performers;
    }

module _ {H B : Type 0} (cfg : Config) (cur : Currency B) (hdl : ValidatorHandler H) where
  -- The loop stops at the first reward that fails.
  pay_all : Shares → List (ℕ × ℕ) → Action (World H B) ⊤
  unfolding total_reward
  pay_all sh [] w = (ok tt, w)
  pay_all sh (e ∷ es) w =
      let (r, w') = execute_reward_validator cfg cur hdl e.0 (total_reward sh e) w in
      elim r [ ok _ ↦ pay_all sh es w' | err x ↦ (err x, w') ]

  pub distribute_rewards : ℕ → ℕ → ℕ → Action (World H B) ⊤
  unfolding sort_by_score shares pay_all
  distribute_rewards base_pool performance_pool top_pool = do
    active ← gets (λ w. hdl.get_active_validators w.handler)
    scores ← gets (λ w. sort_by_score (map (λ v. (v, hdl.get_validator_score v w.handler)) active))
    if is_empty active then pure tt else (do
      pay_all (shares cfg scores base_pool performance_pool top_pool) scores
      epoch ← gets (λ w. w.pos.current_epoch)
      on_pos (
          deposit_event (
            epoch_rewards_distributed epoch ((base_pool + performance_pool + top_pool) % 2 ^ 128))))

  pub distribute_epoch_rewards : Origin → ℕ → Action (World H B) ⊤
  distribute_epoch_rewards origin total_reward_pool = do
    ensure_root origin
    distribute_rewards (total_reward_pool * 60 % 2 ^ 128 / 100)
        (total_reward_pool * 25 % 2 ^ 128 / 100) (total_reward_pool * 15 % 2 ^ 128 / 100)
