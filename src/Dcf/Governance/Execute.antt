-- ===== src/Dcf/Governance/Execute.antt =====
-- `execute_proposal` of cerulea-pallets/pallet-cerulea-dcf/src/lib.rs, with the actions that it
-- carries out on the staking pallet and the registry.
use cerulea.Common.{
  ℕ, ◌+◌, ◌/◌, ◌%◌, ◌^◌, min, ⊤, Bool, true, false, not, List, [], ◌∷◌, ◌++◌, none, if◌then◌else◌,
  leb, ltb, lookup, has_key, get, insert, length, contains, saturating_mul, saturated_into, u64_max,
  u32_max,
}
use cerulea.Frame.Errors.{
  dcf_error, proposal_not_approved, validator_already_exists, not_enough_validators,
  insufficient_stake,
}
use cerulea.Frame.Action.{
  Action, ◌>>=◌, ◌>>◌, pure, gets, modify, ensure, ok_or, ignore, Origin, ensure_root,
}
use cerulea.Frame.Currency.{Currency}
use cerulea.Pos.State.{World}
use cerulea.Pos.State
use cerulea.Pos.Rewards.{execute_slash_validator, execute_reward_validator}
use cerulea.Pos.Stake.{force_eject_validator}
use cerulea.Dvf.Registry.{ValidatorState, EpochStats}
use cerulea.Dvf.Registry.Calls.{validator_handler}
use cerulea.Dcf.State.{
  Dcf, Chain, Config, ProposalAction, ProposalStatus, pending, approved, rejected, executed, slash,
  reward, eject, add_validator, remove_validator, reward_multiple, deposit_event, on_dcf, on_world,
  on_registry, proposal_executed, validator_ejected, validator_added, validator_removed,
}

unfoldable pub is_approved : ProposalStatus → Bool
is_approved pending = false
is_approved approved = true
is_approved rejected = false
is_approved executed = false

-- `(stake_score * pos_weight + inference_score * poi_weight) / precision`, at most the largest
-- score; the sum of the u64 products wraps.
final_score : Config → Dcf → ℕ → ℕ → ℕ
final_score cfg d stake_score inference_score =
    min
      ((saturating_mul u64_max stake_score d.pos_weight
          + saturating_mul u64_max inference_score d.poi_weight)
        % 2 ^ 64
        / cfg.percentage_precision)
      cfg.max_validator_score

-- The statistics and the state of a validator that governance adds.
initial_stats : Config → Dcf → ℕ → ℕ → EpochStats
unfolding final_score
initial_stats cfg d stake inference_score = record {
  epoch = d.current_epoch;
  stake_score = saturated_into u64_max stake;
  inference_score = inference_score;
  final_score = final_score cfg d (saturated_into u64_max stake) inference_score;
  authored_blocks = 0;
  missed_blocks = 0;
}

pub governance_state : Config → Dcf → ℕ → ℕ → ℕ → ValidatorState
unfolding initial_stats
governance_state cfg d stake inference_score block = record {
  last_active_epoch = d.current_epoch;
  current = initial_stats cfg d stake inference_score;
  history = initial_stats cfg d stake inference_score ∷ [];
  uptime = 1;
  inference_success_count = 0;
  participation_rate = 0;
  inference_count = 0;
  last_active_block = block;
  name = none;
  trust_score = 0;
}

-- `get_score` is the score of a validator in pallet-cerulea-poi, and `pcfg` the configuration of the
-- staking pallet.
module _ {B : Type 0} (cfg : Config) (pcfg : State.Config) (cur : Currency B)
    (get_score : ℕ → ℕ) where
  unfoldable pub execute_add_validator : ℕ → Action (Chain B) ⊤
  unfolding governance_state
  execute_add_validator validator = do
    set ← gets (λ c. c.world.handler.validator_set)
    ensure (not (contains set validator)) (dcf_error validator_already_exists)
    ensure (ltb (length set) cfg.max_validators) (dcf_error not_enough_validators)
    stake ← gets (λ c. get 0 validator c.world.pos.stake)
    ensure (leb pcfg.min_stake stake) (dcf_error insufficient_stake)
    on_registry (λ r. record r { validator_set = set ++ validator ∷ [] })
    known ← gets (λ c. has_key validator c.world.handler.validator_states)
    if known then pure tt else (do
      d ← gets (λ c. c.dcf)
      on_registry (λ r.
          let block = saturated_into u32_max r.block_number in
          record r {
            validator_states =
                insert validator (governance_state cfg d stake (get_score validator) block)
                  r.validator_states;
            validator_join_time = insert validator block r.validator_join_time;
          }))
    on_dcf (deposit_event (validator_added validator))

  unfoldable pub reward_each : List ℕ → ℕ → Action (Chain B) ⊤
  reward_each [] amount = pure tt
  reward_each (v ∷ vs) amount =
      ignore (on_world (execute_reward_validator pcfg cur validator_handler v amount))
      >> reward_each vs amount

  -- The outcome of each action is dropped by the call.
  unfoldable pub execute_action : ProposalAction → Action (Chain B) ⊤
  unfolding execute_add_validator reward_each
  execute_action (slash validator amount) =
      ignore (on_world (execute_slash_validator pcfg cur validator_handler validator amount))
  execute_action (reward validator amount) =
      ignore (on_world (execute_reward_validator pcfg cur validator_handler validator amount))
  execute_action (reward_multiple validators amount) = reward_each validators amount
  execute_action (eject validator reason) = ignore (
      on_world (force_eject_validator pcfg cur validator_handler validator)
      >> on_dcf (deposit_event (validator_ejected validator reason)))
  execute_action (add_validator validator) = ignore (execute_add_validator validator)
  execute_action (remove_validator validator) = ignore (
      on_world (force_eject_validator pcfg cur validator_handler validator)
      >> on_dcf (deposit_event (validator_removed validator)))

  unfoldable pub execute_proposal : Origin → ℕ → Action (Chain B) ⊤
  unfolding is_approved execute_action
  execute_proposal origin proposal_id = do
    ensure_root origin
    found ← gets (λ c. lookup proposal_id c.dcf.proposals)
    p ← ok_or found (dcf_error proposal_not_approved)
    ensure (is_approved p.status) (dcf_error proposal_not_approved)
    execute_action p.action
    on_dcf (deposit_event (proposal_executed proposal_id executed))
    on_dcf (
        modify (λ d. record d {
          proposals = insert proposal_id (record p { status = executed }) d.proposals;
        }))
