-- ===== src/Dcf/Limits/Tests.antt =====
-- The rate limits at concrete attempts.
use cerulea.Common.{◌≡◌, refl, List, [], ◌∷◌, some}
use cerulea.Frame.Errors.{minimum_interval_violation}
use cerulea.Dcf.Limits.Config.{
  default_config, validate_rate_limit_config, get_per_block_limit, get_per_account_limit,
  get_weight_limit, get_minimum_interval, submit_proposal, vote_proposal,
}
use cerulea.Dcf.Limits.{check_rate_limits, minimum_interval_violated, current_block}
use cerulea.Dcf.Limits.Guarded.{Step, attempt, next_block, run, blocks, step}
use cerulea.Dcf.Limits.Guarded.Refines.{is_allowed, allowed_by_log, check_rate_limits-run}
use cerulea.Dcf.Limits.Guarded.Kept.{KeptLimits, fresh, run-KeptLimits}

abbrev steps : List Step
steps =
    attempt 4 submit_proposal 10
    ∷ attempt 4 vote_proposal 10
    ∷ next_block
    ∷ attempt 4 submit_proposal 10
    ∷ attempt 4 vote_proposal 10
    ∷ []

voted_twice : blocks 4 vote_proposal (run steps (fresh default_config 7)).1 ≡ 8 ∷ 7 ∷ []
unfolding step get_per_block_limit get_per_account_limit get_weight_limit get_minimum_interval
voted_twice = refl

too_soon :
    check_rate_limits 4 submit_proposal 10 (run steps (fresh default_config 7)).0
    ≡ some (minimum_interval_violation, minimum_interval_violated submit_proposal 1 20)
unfolding check_rate_limits step get_per_block_limit get_per_account_limit get_weight_limit
    get_minimum_interval
too_soon = refl

run-KeptLimits_example :
    KeptLimits default_config 4 submit_proposal (run steps (fresh default_config 7))
unfolding validate_rate_limit_config
run-KeptLimits_example = run-KeptLimits default_config 7 steps 4 submit_proposal refl

check_rate_limits-run_example :
    is_allowed (check_rate_limits 4 vote_proposal 10 (run steps (fresh default_config 7)).0)
    ≡ allowed_by_log default_config 4 vote_proposal 10
        (current_block (run steps (fresh default_config 7)).0)
        (run steps (fresh default_config 7)).1
        (run steps (fresh default_config 7)).2
unfolding validate_rate_limit_config
check_rate_limits-run_example = check_rate_limits-run default_config 7 steps 4 vote_proposal 10 refl
