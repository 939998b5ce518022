-- ===== src/Dvf/Registry/Calls.antt =====
-- The calls and hooks of cerulea-pallets/pallet-cerulea-dvf/src/lib.rs that work on the registry
-- together with the stake records of the staking pallet and the balances.
mod Invariant
pub mod Reach
pub mod Leaving
mod Tests
use cerulea.Common.{
  ℕ, ◌+◌, ◌-◌, ◌%◌, ◌^◌, ⊤, true, false, not, List, [], ◌∷◌, ◌++◌, none, some, if◌then◌else◌, leb,
  ltb, ◌==◌, lookup, get, insert, erase, length, contains, saturating_add, saturated_into, u64_max,
}
use cerulea.Frame.Errors.{
  pos_error, dvf_error, leave_cooldown_active, insufficient_stake, validator_already_exists,
  too_many_validators, validator_not_in_set, not_allowed_in_governance_mode, not_enough_validators,
  validator_not_found, not_validator,
}
use cerulea.Frame.Action.{
  Action, ◌>>=◌, ◌>>◌, pure, gets, modify, ensure, ok_or, ignore, Origin, ensure_signed, ok,
}
use cerulea.Frame.Currency.{Currency}
use cerulea.Pos.State.{World, ValidatorHandler, on_handler}
use cerulea.Pos.Stake.{reserve_or_fail, unreserve}
use cerulea.Dvf.Registry.{
  Config, Registry, ValidatorState, join, leave, is_pending, deposit_event, validator_joined,
  validator_left, validator_leave_requested, validator_leave_cancelled, validate_rejoin_eligibility,
  validate_leave_request_eligibility, add_state, remove_active, remove_from_set, expired,
  cleanup_recently_removed_validators, check_and_handle_underperforming_validators,
}

add_to_set : Config → ℕ → Action Registry ⊤
add_to_set cfg who = do
  n ← gets (λ r. length r.validator_set)
  ensure (ltb n cfg.max_validators) (pos_error too_many_validators)
  modify (λ r. record r { validator_set = r.validator_set ++ who ∷ [] })

request_leave : ℕ → Registry → Registry
unfolding remove_active
request_leave who r =
    remove_active who
      (record r { validator_leave_requests = insert who r.block_number r.validator_leave_requests })

-- The push of `cancel_leave_request`, within the bound and not twice.
restore_active : Config → ℕ → Registry → Registry
restore_active cfg who r =
    if contains r.active_validators who
    then r
    else if ltb (length r.active_validators) cfg.max_validators
    then record r { active_validators = r.active_validators ++ who ∷ [] }
    else r

-- `ValidatorStates::mutate` where the entry is there.
change_state : ℕ → (ValidatorState → ValidatorState) → Registry → Registry
change_state v f r = elim (lookup v r.validator_states) [
  | none ↦ r
  | some st ↦ record r { validator_states = insert v (f st) r.validator_states }
]

add_stake_score : ℕ → ValidatorState → ValidatorState
add_stake_score amount st = record st {
  current = record (st.current) {
    stake_score = saturating_add u64_max st.current.stake_score (saturated_into u64_max amount);
  };
}

sub_stake_score : ℕ → ValidatorState → ValidatorState
sub_stake_score amount st = record st {
  current = record (st.current) {
    stake_score = st.current.stake_score - saturated_into u64_max amount;
  };
}

raise_trust : ℕ → ValidatorState → ValidatorState
raise_trust boost st = record st { trust_score = saturating_add u64_max st.trust_score boost }

lower_trust : ℕ → ValidatorState → ValidatorState
lower_trust penalty st = record st { trust_score = st.trust_score - penalty }

-- The handler that the staking pallet calls.
pub validator_handler : ValidatorHandler Registry
unfolding remove_active remove_from_set change_state add_stake_score sub_stake_score raise_trust
    lower_trust
validator_handler = record {
  on_left = λ v r. (
    ok tt,
    record (remove_active v (remove_from_set v r)) {
      validator_join_time = erase v r.validator_join_time;
      validator_leave_requests = erase v r.validator_leave_requests;
      recently_removed_validators = insert v r.block_number r.recently_removed_validators;
    },
  );
  on_stake_increased = λ v amount. modify (change_state v (λ st. add_stake_score amount st));
  on_stake_decreased = λ v amount. modify (change_state v (λ st. sub_stake_score amount st));
  on_slashed = λ v amount penalty.
      modify (change_state v (λ st. lower_trust penalty (sub_stake_score amount st)));
  on_rewarded = λ v amount boost.
      modify (change_state v (λ st. raise_trust boost (add_stake_score amount st)));
  get_validator_score =
      λ v r. elim (lookup v r.validator_states) [ none ↦ 0 | some st ↦ st.current.final_score ];
  get_active_validators = λ r. r.active_validators;
}

-- The handler's `on_joined` and `on_leave_requested`, which the staking pallet no longer calls.
pub on_joined : Config → ℕ → ℕ → ℕ → Action Registry ⊤
unfolding add_to_set add_state
on_joined cfg epoch v stake = do
  known ← gets (λ r. contains r.validator_set v)
  if known then pure tt else add_to_set cfg v
  modify (add_state v epoch stake)

pub on_leave_requested : ℕ → Action Registry ⊤
unfolding request_leave
on_leave_requested v = modify (request_leave v)

module _ {B : Type 0} (cfg : Config) (cur : Currency B) where
  abbrev now : World Registry B → ℕ
  now w = w.handler.block_number

  pub join_validator_set : Origin → Action (World Registry B) ⊤
  join_validator_set origin = do
    who ← ensure_signed origin
    is_active ← gets (λ w. contains w.handler.active_validators who)
    ensure (not is_active) (dvf_error not_allowed_in_governance_mode)
    pending ← gets (λ w. lookup who w.handler.pending_validator_actions)
    ensure (not (is_pending join pending)) (dvf_error not_allowed_in_governance_mode)
    stake ← gets (λ w. get 0 who w.pos.stake)
    ensure (leb cfg.min_stake stake) (dvf_error not_enough_validators)
    found ← gets (λ w. lookup who w.handler.validator_states)
    state ← ok_or found (dvf_error validator_not_found)
    ensure (leb cfg.min_validator_score state.current.final_score) (dvf_error not_validator)
    on_handler (
        modify (λ r. record r {
          pending_validator_actions = insert who join r.pending_validator_actions;
        }))
    on_handler (deposit_event (validator_joined who cfg.min_stake))

  pub leave_validator_set : Origin → Action (World Registry B) ⊤
  leave_validator_set origin = do
    who ← ensure_signed origin
    is_active ← gets (λ w. contains w.handler.active_validators who)
    ensure is_active (dvf_error not_validator)
    pending ← gets (λ w. lookup who w.handler.pending_validator_actions)
    ensure (not (is_pending leave pending)) (dvf_error not_allowed_in_governance_mode)
    on_handler (
        modify (λ r. record r {
          pending_validator_actions = insert who leave r.pending_validator_actions;
        }))
    on_handler (deposit_event (validator_left who))

  pub join_validators : Origin → Action (World Registry B) ⊤
  unfolding add_to_set add_state validate_rejoin_eligibility
  join_validators origin = do
    who ← ensure_signed origin
    free_balance ← gets (λ w. cur.free_balance who w.balances)
    ensure (leb cfg.min_stake free_balance) (pos_error insufficient_stake)
    on_handler (validate_rejoin_eligibility cfg who)
    known ← gets (λ w. contains w.handler.validator_set who)
    ensure (not known) (pos_error validator_already_exists)
    reserve_or_fail cur who cfg.min_stake
    modify (λ w. record w {
      pos = record (w.pos) { stake = insert who cfg.min_stake w.pos.stake };
      handler = record (w.handler) {
        validator_join_time = insert who w.handler.block_number w.handler.validator_join_time;
      };
    })
    on_handler (add_to_set cfg who)
    modify (λ w. record w {
      pos = record (w.pos) { validators = insert who true w.pos.validators };
      handler = add_state who w.pos.current_epoch cfg.min_stake w.handler;
    })
    on_handler (deposit_event (validator_joined who cfg.min_stake))

  pub leave_validators : Origin → Action (World Registry B) ⊤
  unfolding request_leave validate_leave_request_eligibility
  leave_validators origin = do
    who ← ensure_signed origin
    known ← gets (λ w. contains w.handler.validator_set who)
    ensure known (pos_error validator_not_in_set)
    on_handler (validate_leave_request_eligibility who)
    modify (λ w. record w {
      pos = record (w.pos) { validators = insert who false w.pos.validators };
      handler = request_leave who w.handler;
    })
    block ← gets now
    on_handler
        (deposit_event (validator_leave_requested who ((block + cfg.leave_cooldown) % 2 ^ 32)))

  pub cancel_leave_request : Origin → Action (World Registry B) ⊤
  unfolding restore_active
  cancel_leave_request origin = do
    who ← ensure_signed origin
    request ← gets (λ w. lookup who w.handler.validator_leave_requests)
    requested_at ← ok_or request (pos_error validator_not_in_set)
    block ← gets now
    ensure (ltb (block - requested_at) cfg.leave_cooldown) (pos_error leave_cooldown_active)
    on_handler
        (modify (λ r. record r { validator_leave_requests = erase who r.validator_leave_requests }))
    known ← gets (λ w. contains w.handler.validator_set who)
    if known
        then modify (λ w. record w {
          pos = record (w.pos) { validators = insert who true w.pos.validators };
          handler = restore_active cfg who w.handler;
        })
        else pure tt
    on_handler (deposit_event (validator_leave_cancelled who))

  -- The body of the second loop of `process_expired_leave_requests`.
  expire_request : ℕ → Action (World Registry B) ⊤
  unfolding remove_active remove_from_set
  expire_request v = do
    stake_amount ← gets (λ w. get 0 v w.pos.stake)
    if ltb 0 stake_amount then ignore (unreserve cur v stake_amount) else pure tt
    modify (λ w. record w {
      pos = record (w.pos) { validators = erase v w.pos.validators; stake = erase v w.pos.stake };
      handler = record (remove_active v (remove_from_set v w.handler)) {
        validator_join_time = erase v w.handler.validator_join_time;
        validator_leave_requests = erase v w.handler.validator_leave_requests;
        recently_removed_validators =
            insert v w.handler.block_number w.handler.recently_removed_validators;
      };
    })
    on_handler (deposit_event (validator_left v))

  expire_requests : List ℕ → Action (World Registry B) ⊤
  expire_requests [] w = (ok tt, w)
  expire_requests (v ∷ vs) w = expire_requests vs (expire_request v w).1

  pub process_expired_leave_requests : Action (World Registry B) ⊤
  unfolding expired expire_requests expire_request
  process_expired_leave_requests = do
    gone ← gets (λ w. expired cfg.leave_cooldown (now w) w.handler.validator_leave_requests)
    expire_requests gone

  pub on_initialize : Action (World Registry B) ⊤
  unfolding cleanup_recently_removed_validators check_and_handle_underperforming_validators
  on_initialize = do
    on_handler (cleanup_recently_removed_validators cfg)
    process_expired_leave_requests
    block ← gets now
    epoch ← gets (λ w. w.pos.current_epoch)
    if block % cfg.underperformance_check_interval == 0
        then on_handler (check_and_handle_underperforming_validators cfg epoch)
        else pure tt
