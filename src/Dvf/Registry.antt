-- ===== src/Dvf/Registry.antt =====
-- The validator registry of cerulea-pallets/pallet-cerulea-dvf/src/lib.rs: its storage, and the
-- calls and hooks on the validator set, the active set, leave requests and cooldowns.
pub mod Valid
pub mod Calls
use cerulea.Common.{
  ℕ, ◌-◌, ⊤, Bool, true, false, not, List, [], ◌∷◌, map, Option, none, some, if◌then◌else◌, leb,
  ltb, Map, lookup, has_key, insert, erase, retain, contains, remove_first, take, saturated_into,
  u64_max,
}
use cerulea.Frame.Errors.{pos_error, cooldown_active, leave_cooldown_active}
use cerulea.Frame.Action.{Action, ◌>>=◌, ◌>>◌, pure, fail, gets, modify, ensure, ok}

-- `EpochStats` of pallet-cerulea-dcf
pub record EpochStats : Type 0 where
  pub epoch : ℕ
  pub stake_score : ℕ
  pub inference_score : ℕ
  pub final_score : ℕ
  pub authored_blocks : ℕ
  pub missed_blocks : ℕ

pub record ValidatorState : Type 0 where
  pub last_active_epoch : ℕ
  pub current : EpochStats
  pub history : List EpochStats
  pub uptime : ℕ
  pub inference_success_count : ℕ
  pub participation_rate : ℕ
  pub inference_count : ℕ
  pub last_active_block : ℕ
  pub name : Option (List ℕ)
  pub trust_score : ℕ

-- `ValidatorAction`, `EjectionReason` and `ValidatorStatus` of pallet-cerulea-dcf
pub data ValidatorAction : Type 0 where
  join leave : ValidatorAction

pub data ValidatorStatus : Type 0 where
  active inactive ejected leaving : ValidatorStatus

pub data EjectionReason : Type 0 where
  score_below_threshold max_slashing_reached manual_ejection excess_validators : EjectionReason
  repeated_misbehavior insufficient_stake : EjectionReason

pub data Event : Type 0 where
  validator_joined : ℕ → ℕ → Event
  validator_left : ℕ → Event
  validator_leave_requested : ℕ → ℕ → Event
  validator_leave_cancelled : ℕ → Event
  -- validator, old status, new status, block number
  validator_status_changed : ℕ → ValidatorStatus → ValidatorStatus → ℕ → Event
  validator_ejected : ℕ → EjectionReason → Event
  cooldown_expired : ℕ → Event

-- The constants that the registry reads, those of the staking pallet among them.
pub record Config : Type 0 where
  pub max_validators : ℕ
  pub max_inactive_epochs : ℕ
  pub underperformance_check_interval : ℕ
  pub leave_cooldown : ℕ
  pub min_stake : ℕ
  pub min_validator_score : ℕ

pub record Registry : Type 0 where
  pub validator_set : List ℕ
  pub active_validators : List ℕ
  pub pending_validator_actions : Map ValidatorAction
  pub validator_join_time : Map ℕ
  pub validator_leave_requests : Map ℕ
  pub recently_removed_validators : Map ℕ
  pub validator_states : Map ValidatorState
  -- the number of the current block, kept by the system
  pub block_number : ℕ
  pub events : List Event

abbrev deposit_event : Event → Action Registry ⊤
deposit_event e = modify (λ r. record r { events = e ∷ r.events })

abbrev is_pending : ValidatorAction → Option ValidatorAction → Bool
is_pending join (some join) = true
is_pending leave (some leave) = true
is_pending _ _ = false

validate_rejoin_eligibility : Config → ℕ → Action Registry ⊤
validate_rejoin_eligibility cfg who = do
  left_at ← gets (λ r. lookup who r.recently_removed_validators)
  now ← gets (λ r. r.block_number)
  elim left_at [
    | none ↦ pure tt
    | some block ↦
        if ltb (now - block) cfg.leave_cooldown
        then fail (pos_error cooldown_active)
        else modify (λ r. record r {
          recently_removed_validators = erase who r.recently_removed_validators;
        })
  ]
  requested ← gets (λ r. has_key who r.validator_leave_requests)
  ensure (not requested) (pos_error leave_cooldown_active)

validate_leave_request_eligibility : ℕ → Action Registry ⊤
validate_leave_request_eligibility who = do
  requested ← gets (λ r. has_key who r.validator_leave_requests)
  ensure (not requested) (pos_error leave_cooldown_active)

-- The state of a validator that joins with a stake in an epoch, at a block.
initial_state : ℕ → ℕ → ℕ → ValidatorState
initial_state epoch stake block = record {
  last_active_epoch = epoch;
  current = record {
    epoch = epoch;
    stake_score = saturated_into u64_max stake;
    inference_score = 0;
    final_score = 50;
    authored_blocks = 0;
    missed_blocks = 0;
  };
  history = [];
  uptime = 0;
  inference_success_count = 0;
  participation_rate = 0;
  inference_count = 0;
  last_active_block = block;
  name = none;
  trust_score = 5000;
}

add_state : ℕ → ℕ → ℕ → Registry → Registry
unfolding initial_state
add_state who epoch stake r = if has_key who r.validator_states then r else record r {
  validator_states = insert who (initial_state epoch stake r.block_number) r.validator_states;
}

pub remove_active : ℕ → Registry → Registry
remove_active v r = record r { active_validators = remove_first v r.active_validators }

pub remove_from_set : ℕ → Registry → Registry
remove_from_set v r = record r { validator_set = remove_first v r.validator_set }

pub eject_validator : ℕ → EjectionReason → Action Registry ⊤
unfolding remove_active
eject_validator v reason = do
  found ← gets (λ r. contains r.active_validators v)
  now ← gets (λ r. r.block_number)
  modify (remove_active v)
  deposit_event (validator_status_changed v (if found then active else inactive) ejected now)
  deposit_event (validator_ejected v reason)

-- The writes that the registry offers to the coordination pallet; a list that is too long is cut.
unfoldable pub update_active_validators : Config → List ℕ → Action Registry ⊤
update_active_validators cfg vs =
    modify (λ r. record r { active_validators = take cfg.max_validators vs })

unfoldable pub update_validator_set : Config → List ℕ → Action Registry ⊤
update_validator_set cfg vs = modify (λ r. record r { validator_set = take cfg.max_validators vs })

unfoldable pub set_validator_leave_request : ℕ → ℕ → Action Registry ⊤
set_validator_leave_request v block =
    modify (λ r. record r { validator_leave_requests = insert v block r.validator_leave_requests })

unfoldable pub remove_validator_leave_request : ℕ → Action Registry ⊤
remove_validator_leave_request v =
    modify (λ r. record r { validator_leave_requests = erase v r.validator_leave_requests })

-- The keys of the entries that have stood for the cooldown.
expired : ℕ → ℕ → Map ℕ → List ℕ
expired cooldown now m = map (λ e. e.0) (retain (λ e. leb cooldown (now - e.1)) m)

expire_removed : List ℕ → Action Registry ⊤
expire_removed [] r = (ok tt, r)
expire_removed (v ∷ vs) r = expire_removed vs (record r {
  recently_removed_validators = erase v r.recently_removed_validators;
  events = cooldown_expired v ∷ r.events;
})

pub cleanup_recently_removed_validators : Config → Action Registry ⊤
unfolding expired expire_removed
cleanup_recently_removed_validators cfg = do
  gone ← gets (λ r. expired cfg.leave_cooldown r.block_number r.recently_removed_validators)
  expire_removed gone

eject_if : Bool → ℕ → Action Registry ⊤
eject_if true v = eject_validator v score_below_threshold
eject_if false v = pure tt

-- The two checks of a validator with a state; the epoch is that of the staking pallet.
check_state : Config → ℕ → ℕ → Option ValidatorState → Action Registry ⊤
check_state cfg epoch v none = pure tt
check_state cfg epoch v (some st) =
    eject_if (ltb st.current.final_score cfg.min_validator_score) v
    >> eject_if (ltb cfg.max_inactive_epochs (epoch - st.last_active_epoch)) v

check_validator : Config → ℕ → ℕ → Action Registry ⊤
unfolding check_state eject_if
check_validator cfg epoch v r = check_state cfg epoch v (lookup v r.validator_states) r

check_validators : Config → ℕ → List ℕ → Action Registry ⊤
check_validators cfg epoch [] r = (ok tt, r)
check_validators cfg epoch (v ∷ vs) r =
    check_validators cfg epoch vs (check_validator cfg epoch v r).1

pub check_and_handle_underperforming_validators : Config → ℕ → Action Registry ⊤
unfolding check_validators check_validator
check_and_handle_underperforming_validators cfg epoch = do
  vs ← gets (λ r. r.active_validators)
  check_validators cfg epoch vs

-- `ValidatorRegistryProvider::get_validator_status`
pub get_validator_status : ℕ → Registry → Option ValidatorStatus
get_validator_status v r =
    if contains r.active_validators v
    then some active
    else if contains r.validator_set v
    then some inactive
    else if has_key v r.validator_leave_requests
    then some leaving
    else if has_key v r.recently_removed_validators
    then some ejected
    else none

-- The blocks that remain, and whether the validator may join again.
pub get_validator_detailed_cooldown_status : Config → ℕ → Registry → Option (ℕ × Bool)
get_validator_detailed_cooldown_status cfg v r = elim (lookup v r.validator_leave_requests) [
  | some block ↦ some (cfg.leave_cooldown - (r.block_number - block), false)
  | none ↦ elim (lookup v r.recently_removed_validators) [
    | some block ↦
        if ltb (r.block_number - block) cfg.leave_cooldown
        then some (cfg.leave_cooldown - (r.block_number - block), false)
        else some (0, true)
    | none ↦ none
  ]
]
