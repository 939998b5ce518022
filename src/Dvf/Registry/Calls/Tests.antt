-- ===== src/Dvf/Registry/Calls/Tests.antt =====
-- The registry's theorems at concrete states: validators 1 and 2 in the set, 1 active, a cooldown of
-- 5 blocks.
use cerulea.Common.{◌<◌, ◌-◌, ◌≡◌, refl, true, [], ◌∷◌, some, arith, lookup}
use cerulea.Frame.Action.{signed}
use cerulea.Frame.Bank.{Bank, bank}
use cerulea.Pos.State.{Pos, World}
use cerulea.Dvf.Registry.{Config, Registry, expired, update_active_validators}
use cerulea.Dvf.Registry.Valid.{IsValid}
use cerulea.Dvf.Registry.Calls.{process_expired_leave_requests, expire_requests, expire_request}
use cerulea.Dvf.Registry.Calls.Reach.{
  Reach-IsValid, run, here, calls, sets_active, leaves, joins, initializes,
}
use cerulea.Dvf.Registry.Calls.Leaving.{process_expired_leave_requests_young}

abbrev cfg : Config
cfg = record {
  max_validators = 4;
  max_inactive_epochs = 3;
  underperformance_check_interval = 10;
  leave_cooldown = 5;
  min_stake = 10;
  min_validator_score = 1;
}

abbrev start : Registry
start = record {
  validator_set = 1 ∷ 2 ∷ [];
  active_validators = 1 ∷ [];
  pending_validator_actions = [];
  validator_join_time = (1, 0) ∷ (2, 20) ∷ [];
  validator_leave_requests = [];
  recently_removed_validators = [];
  validator_states = [];
  block_number = 21;
  events = [];
}

abbrev pos : Pos
pos = record {
  validators = (1, true) ∷ (2, true) ∷ [];
  validator_scores = [];
  current_epoch = 3;
  slashing_count = [];
  stake = (1, 30) ∷ (2, 10) ∷ [];
  epoch_total_rewarded = 0;
  epoch_total_slashed = 0;
  validator_epoch_rewarded = [];
  validator_epoch_slashed = [];
  events = [];
}

abbrev world : World Registry Bank
world = record {
  pos = pos;
  handler = start;
  balances = record { free = (3, 100) ∷ []; reserved = (1, 30) ∷ (2, 10) ∷ [] };
}

start-IsValid : IsValid cfg start
start-IsValid = record {
  set_distinct = (refl, (refl, tt));
  active_distinct = (refl, tt);
  set_bounded = omega arith;
  active_bounded = omega arith;
  active_in_set = λ a m. ground (arith, m);
  leaving_inactive = λ a m. ground (arith, m);
}

-- The coordination pallet makes validator 2 active, 3 joins, 2 asks to leave, and a block begins.
abbrev rotated : World Registry Bank
rotated = record world { handler = record start { active_validators = 2 ∷ [] } }

Reach-IsValid_example :
    IsValid cfg
      (run cfg bank initializes
        (run cfg bank (leaves (signed 2)) (run cfg bank (joins (signed 3)) rotated).1).1).1.handler
unfolding update_active_validators
Reach-IsValid_example =
    Reach-IsValid cfg bank
      (calls
        (calls
          (calls
            (sets_active {w' = world} here (2 ∷ []) (refl, tt) (omega arith)
              (λ a m. ground (arith, m)) (λ a m. ground (arith, m)))
            (joins (signed 3)))
          (leaves (signed 2)))
        initializes)
      start-IsValid

-- A request of block 20 stays, one of block 10 goes.
abbrev asked : World Registry Bank
asked = record world {
  handler = record start {
    active_validators = [];
    validator_leave_requests = (1, 10) ∷ (2, 20) ∷ [];
  };
}

process_expired_leave_requests_young_example :
    (21 - 20 < 5) × (lookup 2 asked.handler.validator_leave_requests ≡ some 20)
unfolding process_expired_leave_requests expire_requests expire_request expired
process_expired_leave_requests_young_example =
    process_expired_leave_requests_young cfg bank 2 20 asked refl
