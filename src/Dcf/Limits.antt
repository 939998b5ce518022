-- ===== src/Dcf/Limits.antt =====
-- The rate limits of cerulea-pallets/pallet-cerulea-dcf/src/lib.rs: how often the operations may be
-- done in a block and by an account.
pub mod Config
pub mod Window
pub mod Guarded
mod Tests
use cerulea.Common.{
  ℕ, ◌+◌, ◌-◌, ⊤, Bool, true, false, if◌then◌else◌, ltb, leb, List, [], ◌∷◌, ◌++◌, Option, none,
  some, Map, lookup, get, insert, length, retain, saturating_add, saturated_into, u32_max,
}
use cerulea.Frame.Errors.{
  DcfError, per_block_rate_limit_exceeded, per_account_rate_limit_exceeded,
  minimum_interval_violation, weight_limit_exceeded,
}
use cerulea.Dcf.Limits.Config.{
  RateLimitConfig, DispatchableType, get_per_block_limit, get_per_account_limit,
  get_minimum_interval, get_weight_limit, submit_proposal, join_validators, leave_validators,
  vote_proposal, update_parameter, validator_status_change,
}

-- The storage of the limits, with the number of the current block. The keys of the maps stand for
-- the types of operations, by `code`.
pub record RateLimits : Type 0 where
  pub rate_limit_config : RateLimitConfig
  pub block_number : ℕ
  pub block_operation_counts : Map ℕ
  pub account_operation_history : Map (Map (List ℕ))
  pub last_operation_block : Map (Map ℕ)

-- The variant index that encodes a type of operation.
abbrev pub code : DispatchableType → ℕ
code submit_proposal = 0
code join_validators = 1
code leave_validators = 2
code vote_proposal = 3
code update_parameter = 4
code validator_status_change = 5

abbrev pub block_count : DispatchableType → RateLimits → ℕ
block_count op s = get 0 (code op) s.block_operation_counts

abbrev pub history : ℕ → DispatchableType → RateLimits → List ℕ
history who op s = get [] (code op) (get [] who s.account_operation_history)

abbrev pub last_block : ℕ → DispatchableType → RateLimits → Option ℕ
last_block who op s = lookup (code op) (get [] who s.last_operation_block)

abbrev pub current_block : RateLimits → ℕ
current_block s = saturated_into u32_max s.block_number

pub data RateLimitViolation : Type 0 where
  -- the operation, the count and the limit
  per_block_limit_exceeded : DispatchableType → ℕ → ℕ → RateLimitViolation
  -- the operation, the count, the limit and the window
  per_account_limit_exceeded : DispatchableType → ℕ → ℕ → ℕ → RateLimitViolation
  -- the operation, the blocks since the last one, and those required
  minimum_interval_violated : DispatchableType → ℕ → ℕ → RateLimitViolation
  -- the operation, its weight and the largest weight
  weight_exceeded : DispatchableType → ℕ → ℕ → RateLimitViolation

-- The entries of a history from a block on; at most 100, so that the cast to u32 keeps the count.
abbrev pub count_from : ℕ → List ℕ → ℕ
count_from start blocks = length (retain (λ b. leb start b) blocks)

-- The checks: `none` is `Ok`.
unfoldable pub check_per_block_limits : DispatchableType → RateLimits → Option DcfError
check_per_block_limits op s =
    if leb (get_per_block_limit op s.rate_limit_config) (block_count op s)
    then some per_block_rate_limit_exceeded
    else none

unfoldable pub operations_in_window : ℕ → DispatchableType → RateLimits → ℕ
operations_in_window who op s =
    let window = (get_per_account_limit op s.rate_limit_config).1 in
    count_from (current_block s - window) (history who op s)

unfoldable pub check_per_account_limits : ℕ → DispatchableType → RateLimits → Option DcfError
unfolding operations_in_window
check_per_account_limits who op s =
    if leb (get_per_account_limit op s.rate_limit_config).0 (operations_in_window who op s)
    then some per_account_rate_limit_exceeded
    else none

unfoldable pub check_minimum_intervals : ℕ → DispatchableType → RateLimits → Option DcfError
check_minimum_intervals who op s = elim (last_block who op s) [
  | none ↦ none
  | some last ↦
      if ltb (current_block s - last) (get_minimum_interval op s.rate_limit_config)
      then some minimum_interval_violation
      else none
]

unfoldable pub check_weight_bounds : DispatchableType → ℕ → RateLimits → Option DcfError
check_weight_bounds op weight s =
    if ltb (get_weight_limit op s.rate_limit_config) weight
    then some weight_limit_exceeded
    else none

-- The weight is the `ref_time` of the call.
unfoldable pub check_rate_limits :
    ℕ → DispatchableType → ℕ → RateLimits → Option (DcfError × RateLimitViolation)
unfolding check_per_block_limits check_per_account_limits operations_in_window
    check_minimum_intervals check_weight_bounds
check_rate_limits who op weight s =
    let config = s.rate_limit_config in
    let weighed : Option (DcfError × RateLimitViolation) = elim (check_weight_bounds op weight s) [
      | none ↦ none
      | some e ↦ some (e, weight_exceeded op weight (get_weight_limit op config))
    ] in
    let spaced : Option (DcfError × RateLimitViolation) = elim (check_minimum_intervals who op s) [
      | none ↦ weighed
      | some e ↦ elim (last_block who op s) [
        | none ↦ weighed
        | some last ↦ some (
          e,
          minimum_interval_violated op (current_block s - last) (get_minimum_interval op config),
        )
      ]
    ] in
    let (limit, window) = get_per_account_limit op config in
    let counted : Option (DcfError × RateLimitViolation) =
      elim (check_per_account_limits who op s) [
        | none ↦ spaced
        | some e ↦
            some (e, per_account_limit_exceeded op (operations_in_window who op s) limit window)
      ] in
    elim (check_per_block_limits op s) [
      | none ↦ counted
      | some e ↦
          some (e, per_block_limit_exceeded op (block_count op s) (get_per_block_limit op config))
    ]

-- `remove(0)`
abbrev pub remove_oldest : List ℕ → List ℕ
remove_oldest [] = []
remove_oldest (b ∷ bs) = bs

-- The new block goes to the end of at most 100 entries, and those before the window go.
unfoldable pub update_history : ℕ → ℕ → List ℕ → List ℕ
update_history window now blocks =
    let pushed =
      if ltb (length blocks) 100 then blocks ++ now ∷ [] else remove_oldest blocks ++ now ∷ [] in
    retain (λ b. leb (now - window) b) pushed

unfoldable pub record_operation : ℕ → DispatchableType → RateLimits → RateLimits
unfolding update_history
record_operation who op s =
    let now = current_block s in
    let window = (get_per_account_limit op s.rate_limit_config).1 in
    record s {
      block_operation_counts =
          insert (code op) (saturating_add u32_max (block_count op s) 1) s.block_operation_counts;
      account_operation_history =
          insert who
            (insert (code op) (update_history window now (history who op s))
              (get [] who s.account_operation_history))
            s.account_operation_history;
      last_operation_block =
          insert who (insert (code op) now (get [] who s.last_operation_block))
            s.last_operation_block;
    }

unfoldable pub reset_block_counters : RateLimits → RateLimits
reset_block_counters s = record s { block_operation_counts = [] }
