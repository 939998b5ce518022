-- ===== src/Dcf/Limits/Guarded/Refines.antt =====
-- The check of the rate limits, which reads counters and a history of at most 100 blocks, decides as
-- one that reads the log of all operations.

use cerulea.Common.{
  ℕ, ◌-◌, ◌≡◌, ap, ◌∙◌, Bool, true, false, ◌&&◌, leb, ltb, List, Option, none, some, arith,
  Option-cases, inl, inr,
}
use cerulea.Frame.Errors.{DcfError}
use cerulea.Dcf.Limits.Config.{
  RateLimitConfig, DispatchableType, get_per_block_limit, get_per_account_limit,
  get_minimum_interval, get_weight_limit, validate_rate_limit_config,
}
use cerulea.Dcf.Limits.{
  RateLimitViolation, last_block, current_block, count_from, check_rate_limits,
  check_per_block_limits, check_per_account_limits, check_minimum_intervals, check_weight_bounds,
  operations_in_window,
}
use cerulea.Dcf.Limits.Guarded.{
  Entry, Logged, Step, run, blocks, done, newest, Limited, validate_rate_limit_config-IsSmall,
}
use cerulea.Dcf.Limits.Guarded.Kept.{fresh, run-Limited, fresh-Limited, run-config}

-- The rule, on the log alone: fewer operations in the block than its limit, fewer of the account in
-- the window than its limit, the last one far enough back, and the weight within its limit.
pub allowed_by_log : RateLimitConfig → ℕ → DispatchableType → ℕ → ℕ → List Entry → List ℕ → Bool
allowed_by_log config who op weight now log today =
    let (limit, window) = get_per_account_limit op config in
    ltb (done op today) (get_per_block_limit op config)
    && ltb (count_from (now - window) (blocks who op log)) limit
    && elim (newest (blocks who op log)) [
      | none ↦ true
      | some last ↦ leb (get_minimum_interval op config) (now - last)
    ]
    && leb weight (get_weight_limit op config)

pub is_allowed : Option (DcfError × RateLimitViolation) → Bool
is_allowed none = true
is_allowed (some violation) = false

limited_lem :
    (x : Logged) (who : ℕ) (op : DispatchableType) (weight : ℕ)
    → Limited x
    → is_allowed (check_rate_limits who op weight x.0)
      ≡ allowed_by_log x.0.rate_limit_config who op weight (current_block x.0) x.1 x.2
unfolding is_allowed allowed_by_log check_rate_limits check_per_block_limits
    check_per_account_limits check_minimum_intervals check_weight_bounds operations_in_window
limited_lem (s, log, today) who op weight l =
    let w = l.within who op in
    let start = current_block s - (get_per_account_limit op s.rate_limit_config).1 in
    let counts = w.tracks.agrees start (omega arith) in
    elim (Option-cases (last_block who op s)) [
      | inl e ↦ ground (arith, l.counted op, counts, w.latest, e)
      | inr (last, e) ↦ ground (arith, l.counted op, counts, w.latest, e)
    ]

-- After any sequence of attempts and blocks under a validated configuration, the check allows what the
-- rule on the log of all operations allows, and refuses what it refuses.
pub check_rate_limits-run :
    (config : RateLimitConfig) (block : ℕ) (cs : List Step) (who : ℕ) (op : DispatchableType)
    (weight : ℕ)
    → validate_rate_limit_config config ≡ true
    → is_allowed (check_rate_limits who op weight (run cs (fresh config block)).0)
      ≡ allowed_by_log config who op weight
          (current_block (run cs (fresh config block)).0)
          (run cs (fresh config block)).1
          (run cs (fresh config block)).2
check_rate_limits-run config block cs who op weight valid =
    let x = fresh config block in
    let small = validate_rate_limit_config-IsSmall config valid in
    let l = run-Limited cs x small (fresh-Limited config block) in
    limited_lem (run cs x) who op weight l
    ∙ ap
        (λ c. allowed_by_log c who op weight (current_block (run cs x).0) (run cs x).1 (run cs x).2)
        (run-config cs x)
