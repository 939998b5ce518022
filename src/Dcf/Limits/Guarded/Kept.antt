-- ===== src/Dcf/Limits/Guarded/Kept.antt =====
-- Any sequence of attempts and blocks keeps the limits.
use mathlib.Core.Path.{subst, subst⁻¹}
use cerulea.Common.{
  ℕ, ◌+◌, ◌-◌, ◌≤◌, ◌≡◌, refl, ◌∙◌, true, List, [], ◌∷◌, none, some, arith, Option-cases, inl, inr,
  u32_max, min,
}
use cerulea.Dcf.Limits.Config.{
  RateLimitConfig, DispatchableType, get_per_block_limit, get_per_account_limit,
  get_minimum_interval, validate_rate_limit_config,
}
use cerulea.Frame.Errors.{DcfError}
use cerulea.Dcf.Limits.{
  RateLimits, RateLimitViolation, code, current_block, count_from, check_rate_limits,
  record_operation, reset_block_counters,
}
use cerulea.Dcf.Limits.Window.{advance-Tracks}
use cerulea.Dcf.Limits.Guarded.Recorded.{recorded-Limited}
use cerulea.Dcf.Limits.Guarded.{
  Entry, Logged, Step, attempt, next_block, step, run, blocks, done, IsSpaced, Limited, IsSmall,
  validate_rate_limit_config-IsSmall,
}

step-allowed :
    (s : RateLimits) (log : List Entry) (today : List ℕ) (who : ℕ) (op : DispatchableType)
    (weight : ℕ)
    → check_rate_limits who op weight s ≡ none
    → step (attempt who op weight) (s, log, today)
      ≡ (record_operation who op s, (who, code op, current_block s) ∷ log, code op ∷ today)
unfolding step
step-allowed s log today who op weight e = ground (arith, e)

step-refused :
    (s : RateLimits) (log : List Entry) (today : List ℕ) (who : ℕ) (op : DispatchableType)
    (weight : ℕ) (v : DcfError × RateLimitViolation)
    → check_rate_limits who op weight s ≡ some v
    → step (attempt who op weight) (s, log, today) ≡ (s, log, today)
unfolding step
step-refused s log today who op weight v e = ground (arith, e)

next_block-Limited :
    (s : RateLimits) (log : List Entry) (today : List ℕ)
    → Limited (s, log, today)
    → Limited (step next_block (s, log, today))
unfolding step reset_block_counters
next_block-Limited s log today l = record {
  within = λ who op.
      let w = l.within who op in
      record {
        tracks = advance-Tracks (min (s.block_number + 1) u32_max) (omega arith) w.tracks;
        latest = w.latest;
        spaced = w.spaced;
      };
  counted = λ op. refl;
  few = λ op. omega arith;
}

attempt-Limited :
    (s : RateLimits) (log : List Entry) (today : List ℕ) (who : ℕ) (op : DispatchableType)
    (weight : ℕ)
    → IsSmall s.rate_limit_config
    → Limited (s, log, today)
    → Limited (step (attempt who op weight) (s, log, today))
attempt-Limited s log today who op weight small l =
    elim (Option-cases (check_rate_limits who op weight s)) [
      | inl e ↦
          subst⁻¹ Limited (step-allowed s log today who op weight e)
            (recorded-Limited s log today who op weight small l e)
      | inr (v, e) ↦ subst⁻¹ Limited (step-refused s log today who op weight v e) l
    ]

-- An attempt or a block keeps the configuration and the limits.
step-Limited :
    (c : Step) (x : Logged) → IsSmall x.0.rate_limit_config → Limited x → Limited (step c x)
step-Limited (attempt who op weight) (s, log, today) small l =
    attempt-Limited s log today who op weight small l
step-Limited next_block (s, log, today) small l = next_block-Limited s log today l

step-config : (c : Step) (x : Logged) → (step c x).0.rate_limit_config ≡ x.0.rate_limit_config
unfolding step record_operation reset_block_counters
step-config (attempt who op weight) (s, log, today) =
    elim (Option-cases (check_rate_limits who op weight s)) [
      | inl e ↦ ground (arith, e)
      | inr (v, e) ↦ ground (arith, e)
    ]
step-config next_block (s, log, today) = refl

pub run-Limited :
    (cs : List Step) (x : Logged) → IsSmall x.0.rate_limit_config → Limited x → Limited (run cs x)
run-Limited [] x small l = l
run-Limited (c ∷ cs) x small l =
    run-Limited cs (step c x) (subst⁻¹ IsSmall (step-config c x) small) (step-Limited c x small l)

pub run-config :
    (cs : List Step) (x : Logged) → (run cs x).0.rate_limit_config ≡ x.0.rate_limit_config
run-config [] x = refl
run-config (c ∷ cs) x = run-config cs (step c x) ∙ step-config c x

-- The state before anything was done.
abbrev pub fresh : RateLimitConfig → ℕ → Logged
fresh config block = (
  record {
    rate_limit_config = config;
    block_number = block;
    block_operation_counts = [];
    account_operation_history = [];
    last_operation_block = [];
  },
  [],
  [],
)

pub fresh-Limited : (config : RateLimitConfig) (block : ℕ) → Limited (fresh config block)
fresh-Limited config block = record {
  within = λ who op. record {
    tracks = record { ascending = tt; past = tt; agrees = λ s h. refl; bounded = omega arith };
    latest = refl;
    spaced = tt;
  };
  counted = λ op. refl;
  few = λ op. omega arith;
}

-- The limits, over what was done of an operation, by an account and in the current block.
abbrev pub KeptLimits : RateLimitConfig → ℕ → DispatchableType → Logged → Type 0
KeptLimits config who op (s, log, today) =
    let (limit, window) = get_per_account_limit op config in
    (count_from (current_block s - window) (blocks who op log) ≤ limit)
    × IsSpaced (get_minimum_interval op config) (blocks who op log)
    × (done op today ≤ get_per_block_limit op config)

-- After any sequence of attempts and blocks under a validated configuration, an account has done an
-- operation no more often within its window than its limit, with the minimum interval between any
-- two times, and all accounts together no more often in the current block than the block's limit.
pub run-KeptLimits :
    (config : RateLimitConfig) (block : ℕ) (cs : List Step) (who : ℕ) (op : DispatchableType)
    → validate_rate_limit_config config ≡ true
    → KeptLimits config who op (run cs (fresh config block))
run-KeptLimits config block cs who op valid =
    let x = fresh config block in
    let small = validate_rate_limit_config-IsSmall config valid in
    let l = run-Limited cs x small (fresh-Limited config block) in
    let w = l.within who op in
    subst (λ c. KeptLimits c who op (run cs x)) (run-config cs x)
      (w.tracks.bounded, w.spaced, l.few op)
