-- ===== src/Frame/Errors.antt =====
-- The `#[pallet::error]` enums of the pallets, and the error that a dispatchable returns. A
-- dispatchable that fails returns `DispatchError`, into which each pallet's errors are converted.
use cerulea.Common.{ℕ}

-- pallet-cerulea-pos
pub data PosError : Type 0 where
  validator_already_registered validator_not_registered invalid_score : PosError
  too_many_validators score_too_low max_slashing_count_reached : PosError
  insufficient_stake invalid_stake_amount stake_operation_failed : PosError
  slashing_bounds_exceeded reward_bounds_exceeded : PosError
  arithmetic_overflow arithmetic_underflow : PosError
  leave_cooldown_active cooldown_active : PosError
  validator_not_in_set validator_already_exists : PosError

-- pallet-cerulea-dvf
pub data DvfError : Type 0 where
  block_already_finalized invalid_validator invalid_signature double_vote : DvfError
  non_checkpoint_block empty_justification duplicate_validator : DvfError
  threshold_not_reached round_mismatch block_hash_mismatch validator_set_id_mismatch : DvfError
  not_allowed_in_governance_mode not_enough_validators : DvfError
  validator_not_found not_validator : DvfError

-- pallet-cerulea-poi
pub data PoiError : Type 0 where
  inference_already_submitted inference_not_found invalid_challenge confidence_too_low : PoiError
  challenge_window_expired inference_too_old : PoiError
  cannot_challenge_self challenge_already_exists : PoiError
  weight_limit_exceeded validator_not_found : PoiError

-- pallet-cerulea-dcf, the errors of the modelled calls
pub data DcfError : Type 0 where
  per_block_rate_limit_exceeded per_account_rate_limit_exceeded : DcfError
  minimum_interval_violation weight_limit_exceeded invalid_rate_limit_config : DcfError
  proposal_not_approved proposal_already_executed already_voted : DcfError
  private_chain_mode_disabled allowlist_updates_disabled allowlist_full : DcfError
  proposer_not_in_allowlist target_not_in_allowlist not_in_allowlist : DcfError
  validator_already_exists not_enough_validators insufficient_stake too_many_validators : DcfError

-- `bad_origin` is the framework's; `other` is an error of a component that the model takes as a
-- parameter.
pub data TodoError : Type 0 where
  todo_not_found title_too_long description_too_long already_completed : TodoError
  too_many_todos todo_id_overflow : TodoError

pub data DispatchError : Type 0 where
  bad_origin : DispatchError
  pos_error : PosError → DispatchError
  dvf_error : DvfError → DispatchError
  todo_error : TodoError → DispatchError
  poi_error : PoiError → DispatchError
  dcf_error : DcfError → DispatchError
  other : ℕ → DispatchError
