-- ===== src/Dcf/Sample.antt =====
-- A small chain for the tests: accounts 1 and 2 validate and have 30 and 20 in stake.
use cerulea.Common.{true, [], ◌∷◌, none}
use cerulea.Frame.Bank.{Bank}
use cerulea.Pos.State
use cerulea.Dvf.Registry.{Registry}
use cerulea.Dcf.Limits.Config.{default_config}
use cerulea.Dcf.State.{Chain, Config}

abbrev pub cfg : Config
cfg = record {
  max_validators = 4;
  percentage_precision = 100;
  max_validator_score = 1_000;
  submit_proposal_weight = 10;
  vote_proposal_weight = 10;
}

abbrev pub pos_cfg : State.Config
pos_cfg = record {
  min_validator_score = 1;
  max_validators = 4;
  max_slashing_count = 3;
  min_stake = 10;
  leave_cooldown = 5;
  validator_reward = 7;
  slash_percent = 5;
  max_slash_per_epoch = 100;
  max_slash_per_validator = 60;
  max_reward_per_epoch = 100;
  max_reward_per_validator = 60;
  slash_penalty_divisor = 10;
  max_slash_penalty = 50;
  reward_boost_divisor = 10;
  max_reward_boost = 50;
  high_performance_score = 80;
  top_performer_percentage = 20;
}

abbrev pub registry : Registry
registry = record {
  validator_set = 1 ∷ 2 ∷ [];
  active_validators = 1 ∷ 2 ∷ [];
  pending_validator_actions = [];
  validator_join_time = [];
  validator_leave_requests = [];
  recently_removed_validators = [];
  validator_states = [];
  block_number = 7;
  events = [];
}

abbrev pub chain : Chain Bank
chain = record {
  dcf = record {
    current_epoch = 3;
    pos_weight = 60;
    poi_weight = 40;
    proposals = [];
    proposal_votes = [];
    next_proposal_id = 0;
    private_chain_config = none;
    limits = record {
      rate_limit_config = default_config;
      block_number = 7;
      block_operation_counts = [];
      account_operation_history = [];
      last_operation_block = [];
    };
    events = [];
  };
  world = record {
    pos = record {
      validators = (1, true) ∷ (2, true) ∷ [];
      validator_scores = [];
      current_epoch = 3;
      slashing_count = [];
      stake = (1, 30) ∷ (2, 20) ∷ [];
      epoch_total_rewarded = 0;
      epoch_total_slashed = 0;
      validator_epoch_rewarded = [];
      validator_epoch_slashed = [];
      events = [];
    };
    handler = registry;
    balances = record { free = (1, 5) ∷ (9, 100) ∷ []; reserved = (1, 30) ∷ (2, 20) ∷ [] };
  };
}
