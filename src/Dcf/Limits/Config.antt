-- ===== src/Dcf/Limits/Config.antt =====
-- The configuration of the rate limits, its validation, and the limits of each operation.
use cerulea.Common.{ℕ, ◌+◌, ◌%◌, ◌^◌, Bool, ◌&&◌, leb, ltb}

pub record RateLimitConfig : Type 0 where
  pub max_proposals_per_block : ℕ
  pub max_joins_per_block : ℕ
  pub max_leaves_per_block : ℕ
  pub max_votes_per_block : ℕ
  pub max_proposals_per_account : ℕ
  pub proposal_rate_window : ℕ
  pub max_status_changes_per_account : ℕ
  pub status_change_rate_window : ℕ
  pub min_validator_status_interval : ℕ
  pub min_proposal_interval : ℕ
  pub min_vote_interval : ℕ
  pub max_validator_iteration_weight : ℕ
  pub max_proposal_processing_weight : ℕ
  pub max_loop_iterations : ℕ

abbrev pub default_config : RateLimitConfig
default_config = record {
  max_proposals_per_block = 5;
  max_joins_per_block = 3;
  max_leaves_per_block = 3;
  max_votes_per_block = 20;
  max_proposals_per_account = 3;
  proposal_rate_window = 100;
  max_status_changes_per_account = 2;
  status_change_rate_window = 1_000;
  min_validator_status_interval = 50;
  min_proposal_interval = 20;
  min_vote_interval = 1;
  max_validator_iteration_weight = 1_000_000_000;
  max_proposal_processing_weight = 500_000_000;
  max_loop_iterations = 1_000;
}

pub data DispatchableType : Type 0 where
  submit_proposal join_validators leave_validators : DispatchableType
  vote_proposal update_parameter validator_status_change : DispatchableType

unfoldable pub get_per_block_limit : DispatchableType → RateLimitConfig → ℕ
get_per_block_limit submit_proposal config = config.max_proposals_per_block
get_per_block_limit join_validators config = config.max_joins_per_block
get_per_block_limit leave_validators config = config.max_leaves_per_block
get_per_block_limit vote_proposal config = config.max_votes_per_block
get_per_block_limit update_parameter config = 1
get_per_block_limit validator_status_change config =
    (config.max_joins_per_block + config.max_leaves_per_block) % 2 ^ 32

-- The limit and the window in which it holds.
unfoldable pub get_per_account_limit : DispatchableType → RateLimitConfig → ℕ × ℕ
get_per_account_limit submit_proposal config =
    (config.max_proposals_per_account, config.proposal_rate_window)
get_per_account_limit join_validators config =
    (config.max_status_changes_per_account, config.status_change_rate_window)
get_per_account_limit leave_validators config =
    (config.max_status_changes_per_account, config.status_change_rate_window)
get_per_account_limit vote_proposal config = (100, 100)
get_per_account_limit update_parameter config = (1, 1_000)
get_per_account_limit validator_status_change config =
    (config.max_status_changes_per_account, config.status_change_rate_window)

unfoldable pub get_minimum_interval : DispatchableType → RateLimitConfig → ℕ
get_minimum_interval submit_proposal config = config.min_proposal_interval
get_minimum_interval join_validators config = config.min_validator_status_interval
get_minimum_interval leave_validators config = config.min_validator_status_interval
get_minimum_interval vote_proposal config = config.min_vote_interval
get_minimum_interval update_parameter config = 100
get_minimum_interval validator_status_change config = config.min_validator_status_interval

unfoldable pub get_weight_limit : DispatchableType → RateLimitConfig → ℕ
get_weight_limit submit_proposal config = config.max_proposal_processing_weight
get_weight_limit join_validators config = config.max_validator_iteration_weight
get_weight_limit leave_validators config = config.max_validator_iteration_weight
get_weight_limit vote_proposal config = config.max_proposal_processing_weight
get_weight_limit update_parameter config = 100_000_000
get_weight_limit validator_status_change config = config.max_validator_iteration_weight

-- `ensure!` of each bound in turn: whether all hold.
unfoldable pub validate_rate_limit_config : RateLimitConfig → Bool
validate_rate_limit_config config =
    ltb 0 config.max_proposals_per_block
    && leb config.max_proposals_per_block 100
    && (ltb 0 config.max_joins_per_block && leb config.max_joins_per_block 50)
    && (ltb 0 config.max_leaves_per_block && leb config.max_leaves_per_block 50)
    && (ltb 0 config.max_votes_per_block && leb config.max_votes_per_block 1_000)
    && (ltb 0 config.max_proposals_per_account && leb config.max_proposals_per_account 100)
    && (ltb 0 config.max_status_changes_per_account && leb config.max_status_changes_per_account 20)
    && (ltb 0 config.proposal_rate_window && leb config.proposal_rate_window 10_000)
    && (ltb 0 config.status_change_rate_window && leb config.status_change_rate_window 100_000)
    && leb config.min_validator_status_interval 10_000
    && leb config.min_proposal_interval 1_000
    && leb config.min_vote_interval 100
    && ltb 0 config.max_validator_iteration_weight
    && ltb 0 config.max_proposal_processing_weight
    && (ltb 0 config.max_loop_iterations && leb config.max_loop_iterations 10_000)
