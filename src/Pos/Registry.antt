-- ===== src/Pos/Registry.antt =====
-- The calls of cerulea-pallets/pallet-cerulea-pos/src/lib.rs that touch the pallet's own storage
-- only: registration, scores, the slashing count and the plain stake record.
pub mod Bounds
pub mod Reach
pub mod Bonds
use cerulea.Common.{
  ℕ, ◌+◌, ◌-◌, ◌%◌, ◌^◌, ⊤, Bool, true, false, not, if◌then◌else◌, leb, ltb, length, has_key, get,
  insert, erase, saturating_add, checked_add, checked_sub, u32_max, u128_max,
}
use cerulea.Frame.Errors.{
  pos_error, validator_already_registered, validator_not_registered, too_many_validators,
  score_too_low, insufficient_stake, invalid_stake_amount,
}
use cerulea.Frame.Action.{
  Action, ◌>>=◌, ◌>>◌, pure, gets, modify, ensure, ok_or, Origin, ensure_signed,
}
use cerulea.Pos.State.{
  Config, Pos, deposit_event, validator_registered, score_submitted, validator_slashed,
  validator_removed, stake_bonded, stake_unbonded, score_boosted, score_slashed,
  validator_stake_slashed, validator_activated, validator_deactivated, stake_updated,
}

abbrev is_registered : ℕ → Pos → Bool
is_registered v p = has_key v p.validators

pub register_validator : Config → Origin → Action Pos ⊤
register_validator cfg origin = do
  who ← ensure_signed origin
  n ← gets (λ p. length p.validators)
  ensure (ltb n cfg.max_validators) (pos_error too_many_validators)
  known ← gets (is_registered who)
  ensure (not known) (pos_error validator_already_registered)
  modify (λ p. record p { validators = insert who true p.validators })
  deposit_event (validator_registered who)

pub submit_score : Config → Origin → ℕ → ℕ → Action Pos ⊤
submit_score cfg origin validator score = do
  ensure_signed origin
  known ← gets (is_registered validator)
  ensure known (pos_error validator_not_registered)
  ensure (leb cfg.min_validator_score score) (pos_error score_too_low)
  modify (λ p. record p { validator_scores = insert validator score p.validator_scores })
  deposit_event (score_submitted validator score)

-- The three removals on reaching the largest slashing count, with their event.
remove_slashed : ℕ → Action Pos ⊤
remove_slashed v = do
  modify (λ p. record p {
    validators = erase v p.validators;
    validator_scores = erase v p.validator_scores;
    slashing_count = erase v p.slashing_count;
  })
  deposit_event (validator_removed v)

-- `count + 1` is a u32 addition, which wraps.
abbrev next_count : ℕ → Pos → ℕ
next_count v p = (get 0 v p.slashing_count + 1) % 2 ^ 32

pub slash_validator_call : Config → Origin → ℕ → Action Pos ⊤
unfolding remove_slashed
slash_validator_call cfg origin validator = do
  ensure_signed origin
  known ← gets (is_registered validator)
  ensure known (pos_error validator_not_registered)
  count ← gets (next_count validator)
  if leb cfg.max_slashing_count count
      then remove_slashed validator
      else modify (λ p. record p { slashing_count = insert validator count p.slashing_count })
  deposit_event (validator_slashed validator count)

pub bond_stake : Config → Origin → ℕ → Action Pos ⊤
bond_stake cfg origin amount = do
  who ← ensure_signed origin
  ensure (leb cfg.min_stake amount) (pos_error insufficient_stake)
  known ← gets (is_registered who)
  ensure known (pos_error validator_not_registered)
  current_stake ← gets (λ p. get 0 who p.stake)
  new_stake ← ok_or (checked_add u128_max current_stake amount) (pos_error invalid_stake_amount)
  modify (λ p. record p { stake = insert who new_stake p.stake })
  deposit_event (stake_bonded who amount)
  deposit_event (stake_updated who current_stake new_stake)

pub unbond_stake : Config → Origin → ℕ → Action Pos ⊤
unbond_stake cfg origin amount = do
  who ← ensure_signed origin
  known ← gets (is_registered who)
  ensure known (pos_error validator_not_registered)
  current_stake ← gets (λ p. get 0 who p.stake)
  ensure (leb amount current_stake) (pos_error insufficient_stake)
  new_stake ← ok_or (checked_sub current_stake amount) (pos_error invalid_stake_amount)
  ensure (leb cfg.min_stake new_stake) (pos_error insufficient_stake)
  modify (λ p. record p { stake = insert who new_stake p.stake })
  deposit_event (stake_unbonded who amount)
  deposit_event (stake_updated who current_stake new_stake)

unfoldable pub boost_score : Origin → ℕ → ℕ → Action Pos ⊤
boost_score origin validator weight = do
  ensure_signed origin
  known ← gets (is_registered validator)
  ensure known (pos_error validator_not_registered)
  current_score ← gets (λ p. get 0 validator p.validator_scores)
  let new_score = saturating_add u32_max current_score weight
  modify (λ p. record p { validator_scores = insert validator new_score p.validator_scores })
  deposit_event (score_submitted validator new_score)
  deposit_event (score_boosted validator current_score new_score weight)

unfoldable pub slash_score : Origin → ℕ → ℕ → Action Pos ⊤
slash_score origin validator weight = do
  ensure_signed origin
  known ← gets (is_registered validator)
  ensure known (pos_error validator_not_registered)
  current_score ← gets (λ p. get 0 validator p.validator_scores)
  let new_score = current_score - weight
  modify (λ p. record p { validator_scores = insert validator new_score p.validator_scores })
  deposit_event (score_submitted validator new_score)
  deposit_event (score_slashed validator current_score new_score weight)

pub slash_validator_stake : Config → ℕ → ℕ → Action Pos ⊤
unfolding remove_slashed
slash_validator_stake cfg validator amount = do
  known ← gets (is_registered validator)
  ensure known (pos_error validator_not_registered)
  current_stake ← gets (λ p. get 0 validator p.stake)
  let new_stake = current_stake - amount
  modify (λ p. record p { stake = insert validator new_stake p.stake })
  deposit_event (validator_stake_slashed validator current_stake new_stake amount)
  count ← gets (next_count validator)
  modify (λ p. record p { slashing_count = insert validator count p.slashing_count })
  deposit_event (validator_slashed validator count)
  if leb cfg.max_slashing_count count then remove_slashed validator else pure tt

pub reward_validator : ℕ → ℕ → Action Pos ⊤
reward_validator validator amount = do
  known ← gets (is_registered validator)
  ensure known (pos_error validator_not_registered)
  current_stake ← gets (λ p. get 0 validator p.stake)
  let new_stake = saturating_add u128_max current_stake amount
  modify (λ p. record p { stake = insert validator new_stake p.stake })
  deposit_event (stake_bonded validator amount)
  deposit_event (stake_updated validator current_stake new_stake)

pub activate_validator : ℕ → Action Pos ⊤
activate_validator validator = do
  known ← gets (is_registered validator)
  ensure known (pos_error validator_not_registered)
  is_active ← gets (λ p. get false validator p.validators)
  if not is_active
      then (do
        modify (λ p. record p { validators = insert validator true p.validators })
        deposit_event (validator_activated validator))
      else pure tt

pub deactivate_validator : ℕ → Action Pos ⊤
deactivate_validator validator = do
  known ← gets (is_registered validator)
  ensure known (pos_error validator_not_registered)
  is_active ← gets (λ p. get false validator p.validators)
  if is_active
      then (do
        modify (λ p. record p { validators = insert validator false p.validators })
        deposit_event (validator_deactivated validator))
      else pure tt
