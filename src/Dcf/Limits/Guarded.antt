-- ===== src/Dcf/Limits/Guarded.antt =====
-- Operations that are done only when check_rate_limits allows them and then recorded, over any
-- sequence of attempts and blocks, against a log of what was done.
pub mod Kept
mod Recorded
pub mod Refines
use mathlib.Core.Path.{subst}
use cerulea.Common.{
  ℕ, zero, suc, ◌+◌, ◌-◌, ◌≤◌, ◌<◌, ◌≡◌, refl, sym, ap, ◌∙◌, Bool, true, false, ◌&&◌, if◌then◌else◌,
  leb, ltb, ◌==◌, List, [], ◌∷◌, Option, none, some, Map, get, lookup, insert, lookup-insert,
  length, retain, arith, Bool-cases, inl, inr, saturating_add, u32_max,
}
use cerulea.Dcf.Limits.Config.{
  RateLimitConfig, DispatchableType, submit_proposal, join_validators, leave_validators,
  vote_proposal, update_parameter, validator_status_change, get_per_block_limit,
  get_per_account_limit, get_minimum_interval, validate_rate_limit_config,
}
use cerulea.Dcf.Limits.{
  RateLimits, code, block_count, history, last_block, current_block, count_from, check_rate_limits,
  check_per_block_limits, check_per_account_limits, check_minimum_intervals, check_weight_bounds,
  operations_in_window, record_operation, reset_block_counters, update_history,
}
use cerulea.Dcf.Limits.Window.{Tracks, accept-Tracks, advance-Tracks}

-- Account, operation and block of what was done, the newest first, and the operations of the
-- current block.
abbrev pub Entry : Type 0
Entry = ℕ × ℕ × ℕ

abbrev pub Logged : Type 0
Logged = RateLimits × List Entry × List ℕ

pub data Step : Type 0 where
  -- an account attempts an operation of a weight
  attempt : ℕ → DispatchableType → ℕ → Step
  next_block : Step

unfoldable pub step : Step → Logged → Logged
unfolding check_rate_limits record_operation reset_block_counters
step (attempt who op weight) (s, log, today) = elim (check_rate_limits who op weight s) [
  | none ↦ (record_operation who op s, (who, code op, current_block s) ∷ log, code op ∷ today)
  | some violation ↦ (s, log, today)
]
step next_block (s, log, today) =
    (reset_block_counters (record s { block_number = s.block_number + 1 }), log, [])

abbrev pub run : List Step → Logged → Logged
run [] x = x
run (c ∷ cs) x = run cs (step c x)

-- The blocks in which the account did the operation.
abbrev pub blocks : ℕ → DispatchableType → List Entry → List ℕ
blocks who op [] = []
blocks who op ((w, c, b) ∷ es) =
    let rest = blocks who op es in if w == who && c == code op then b ∷ rest else rest

-- How often the operation was done in the current block.
abbrev pub done : DispatchableType → List ℕ → ℕ
done op today = length (retain (λ c. c == code op) today)

-- Each block is at least `n` after the one before.
abbrev pub IsSpaced : ℕ → List ℕ → Type 0
IsSpaced n [] = Unit {0}
IsSpaced n (b ∷ []) = Unit {0}
IsSpaced n (b ∷ c ∷ bs) = (n ≤ b - c) × IsSpaced n (c ∷ bs)

abbrev pub newest : List ℕ → Option ℕ
newest [] = none
newest (b ∷ bs) = some b

-- The history and the last block of one account and operation, against its log.
pub record Within (config : RateLimitConfig) (now : ℕ) (op : DispatchableType) (hist : List ℕ)
    (last : Option ℕ) (log : List ℕ) : Type 0 where
  pub tracks :
      Tracks (get_per_account_limit op config).0 (get_per_account_limit op config).1 now hist log
  pub latest : last ≡ newest log
  pub spaced : IsSpaced (get_minimum_interval op config) log

allowed-parts :
    (who : ℕ) (op : DispatchableType) (weight : ℕ) (s : RateLimits)
    → check_rate_limits who op weight s ≡ none
    → (block_count op s < get_per_block_limit op s.rate_limit_config)
      × (operations_in_window who op s < (get_per_account_limit op s.rate_limit_config).0)
      × (check_minimum_intervals who op s ≡ none)
unfolding check_rate_limits check_per_block_limits check_per_account_limits check_minimum_intervals
allowed-parts who op weight s h = (ground (arith, h), ground (arith, h), ground (arith, h))

now-IsSpaced :
    (interval now : ℕ) (last : Option ℕ) (log : List ℕ)
    → last ≡ newest log
    → IsSpaced interval log
    → ((b : ℕ) → last ≡ some b → interval ≤ now - b)
    → IsSpaced interval (now ∷ log)
now-IsSpaced interval now last [] e h k = tt
now-IsSpaced interval now last (b ∷ bs) e h k = (k b e, h)

-- The state of the limits against the log.
pub record Limited (x : Logged) : Type 0 where
  pub within :
      (who : ℕ) (op : DispatchableType)
      → Within x.0.rate_limit_config
          (current_block x.0)
          op
          (history who op x.0)
          (last_block who op x.0)
          (blocks who op x.1)
  pub counted : (op : DispatchableType) → block_count op x.0 ≡ done op x.2
  pub few : (op : DispatchableType) → done op x.2 ≤ get_per_block_limit op x.0.rate_limit_config

decode : ℕ → DispatchableType
decode n =
    if n == 0
    then submit_proposal
    else if n == 1
    then join_validators
    else if n == 2
    then leave_validators
    else if n == 3
    then vote_proposal
    else if n == 4
    then update_parameter
    else validator_status_change

decode-code : (op : DispatchableType) → decode (code op) ≡ op
unfolding decode
decode-code submit_proposal = refl
decode-code join_validators = refl
decode-code leave_validators = refl
decode-code vote_proposal = refl
decode-code update_parameter = refl
decode-code validator_status_change = refl

code-injective : (op other : DispatchableType) → code op ≡ code other → op ≡ other
code-injective op other h = sym (decode-code op) ∙ ap decode h ∙ decode-code other

-- The limits of a validated configuration.
pub IsSmall : RateLimitConfig → Type 0
IsSmall config =
    (op : DispatchableType)
    → (get_per_block_limit op config ≤ 1_000) × ((get_per_account_limit op config).0 ≤ 100)

pub validate_rate_limit_config-IsSmall :
    (config : RateLimitConfig) → validate_rate_limit_config config ≡ true → IsSmall config
unfolding IsSmall validate_rate_limit_config get_per_block_limit get_per_account_limit
validate_rate_limit_config-IsSmall config h submit_proposal = ground (arith, h)
validate_rate_limit_config-IsSmall config h join_validators = ground (arith, h)
validate_rate_limit_config-IsSmall config h leave_validators = ground (arith, h)
validate_rate_limit_config-IsSmall config h vote_proposal = ground (arith, h)
validate_rate_limit_config-IsSmall config h update_parameter = ground (arith, h)
validate_rate_limit_config-IsSmall config h validator_status_change = ground (arith, h)

-- Writing the entry of an account in a map of maps.
lookup-insert_entry :
    {V : Type 0} (w w' c c' : ℕ) (v : V) (m : Map (Map V))
    → lookup c' (get [] w' (insert w (insert c v (get [] w m)) m))
      ≡ (if w == w' && c == c' then some v else lookup c' (get [] w' m))
lookup-insert_entry w w' c c' v m =
    let inner = insert c v (get [] w m) in
    ground (arith, lookup-insert w w' inner m, lookup-insert c c' v (get [] w m))

module _ (s : RateLimits) (who other : ℕ) (op op' : DispatchableType) where
  history-record_operation : history other op' (record_operation who op s) ≡ (
      if who == other && code op == code op'
      then update_history
          (get_per_account_limit op s.rate_limit_config).1
          (current_block s)
          (history who op s)
      else history other op' s)
  unfolding record_operation
  history-record_operation = ground (
    arith,
    lookup-insert_entry who other (code op) (code op')
        (update_history (get_per_account_limit op s.rate_limit_config).1 (current_block s)
          (history who op s))
        s.account_operation_history,
  )

  last_block-record_operation : last_block other op' (record_operation who op s) ≡ (
      if who == other && code op == code op'
      then some (current_block s)
      else last_block other op' s)
  unfolding record_operation
  last_block-record_operation =
      lookup-insert_entry who other (code op) (code op') (current_block s) s.last_operation_block
