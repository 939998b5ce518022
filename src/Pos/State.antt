-- ===== src/Pos/State.antt =====
-- Storage, constants, events and the handler interface of cerulea-pallets/pallet-cerulea-pos/src/
-- lib.rs. Accounts are numbers; balances are u128, scores and counts are u32.
use cerulea.Common.{ℕ, ⊤, Bool, List, ◌∷◌, Map}
use cerulea.Frame.Action.{Action, modify}

-- The constants of the `Config` trait that the calls read.
pub record Config : Type 0 where
  pub min_validator_score : ℕ
  pub max_validators : ℕ
  pub max_slashing_count : ℕ
  pub min_stake : ℕ
  pub leave_cooldown : ℕ
  pub validator_reward : ℕ
  pub slash_percent : ℕ
  pub max_slash_per_epoch : ℕ
  pub max_slash_per_validator : ℕ
  pub max_reward_per_epoch : ℕ
  pub max_reward_per_validator : ℕ
  pub slash_penalty_divisor : ℕ
  pub max_slash_penalty : ℕ
  pub reward_boost_divisor : ℕ
  pub max_reward_boost : ℕ
  pub high_performance_score : ℕ
  pub top_performer_percentage : ℕ

-- The events in the order of the source; the fields that are named after a validator come first.
pub data Event : Type 0 where
  validator_registered : ℕ → Event
  score_submitted : ℕ → ℕ → Event
  validator_slashed : ℕ → ℕ → Event
  validator_removed : ℕ → Event
  stake_bonded : ℕ → ℕ → Event
  stake_unbonded : ℕ → ℕ → Event
  -- validator, old score, new score, amount
  score_boosted : ℕ → ℕ → ℕ → ℕ → Event
  score_slashed : ℕ → ℕ → ℕ → ℕ → Event
  -- validator, old stake, new stake, slashed amount
  validator_stake_slashed : ℕ → ℕ → ℕ → ℕ → Event
  validator_activated : ℕ → Event
  validator_deactivated : ℕ → Event
  stake_updated : ℕ → ℕ → ℕ → Event
  validator_stake_reserved : ℕ → ℕ → Event
  validator_stake_unreserved : ℕ → ℕ → Event
  validator_stake_increased : ℕ → ℕ → Event
  validator_stake_decreased : ℕ → ℕ → Event
  epoch_rewards_distributed : ℕ → ℕ → Event
  validator_joined : ℕ → ℕ → Event
  validator_left : ℕ → Event
  validator_leave_requested : ℕ → ℕ → Event
  validator_leave_cancelled : ℕ → Event

-- The storage items; `events` is the log of deposited events, newest first.
pub record Pos : Type 0 where
  pub validators : Map Bool
  pub validator_scores : Map ℕ
  pub current_epoch : ℕ
  pub slashing_count : Map ℕ
  pub stake : Map ℕ
  pub epoch_total_rewarded : ℕ
  pub epoch_total_slashed : ℕ
  pub validator_epoch_rewarded : Map ℕ
  pub validator_epoch_slashed : Map ℕ
  pub events : List Event

abbrev pub deposit_event : Event → Action Pos ⊤
deposit_event e = modify (λ p. record p { events = e ∷ p.events })

-- The `ValidatorHandler` trait over the state `H` of the component that implements it: the calls
-- that the pallet makes.
pub record ValidatorHandler (H : Type 0) : Type 0 where
  pub on_left : ℕ → Action H ⊤
  pub on_stake_increased : ℕ → ℕ → Action H ⊤
  pub on_stake_decreased : ℕ → ℕ → Action H ⊤
  -- validator, amount, penalty or boost
  pub on_slashed : ℕ → ℕ → ℕ → Action H ⊤
  pub on_rewarded : ℕ → ℕ → ℕ → Action H ⊤
  pub get_validator_score : ℕ → H → ℕ
  pub get_active_validators : H → List ℕ

-- The pallet's storage with that of the handler and of the balances.
pub record World (H B : Type 0) : Type 0 where
  pub pos : Pos
  pub handler : H
  pub balances : B

module _ {H B : Type 0} where
  abbrev pub on_pos : {A : Type 0} → Action Pos A → Action (World H B) A
  on_pos m w = let (r, p) = m w.pos in (r, record w { pos = p })

  abbrev pub on_handler : {A : Type 0} → Action H A → Action (World H B) A
  on_handler m w = let (r, h) = m w.handler in (r, record w { handler = h })
