-- ===== src/Poi/Tests.antt =====
-- The theorems on inferences, with the constants of the runtime, two active validators, and
-- interfaces that always succeed.
use cerulea.Common.{
  ⊤, true, ℕ, ◌*◌, ◌/◌, ◌≡◌, ◌≢◌, refl, min, List, [], ◌∷◌, some, ◌==◌, false, lookup, arith,
}
use cerulea.Frame.Errors.{
  bad_origin, poi_error, inference_already_submitted, inference_too_old, challenge_window_expired,
}
use cerulea.Frame.Action.{ok, err, pure, signed}
use cerulea.Pos.State.{ValidatorHandler}
use cerulea.Poi.OnChain.{pos_interface, challenge-pos_interface}
use cerulea.Poi.State.{high, Config, PosInterface, DcfInterface, World}
use cerulea.Poi.Offchain.{
  Host, verify_score, get_inference_score, get_offchain_poi_score, offchain_worker,
  collect_inference_data, compute_poi_score, run_offchain_computation,
}
use cerulea.Poi.Offchain.Stored.{computed, verify_score-run_offchain_computation}
use cerulea.Poi.Calls.{
  GenesisConfig, build, submit_inference, challenge_inference, handle_valid_inference,
  handle_invalid_inference, apply_offchain_poi_scores,
}
use cerulea.Poi.Calls.Reach.{
  Call, run_calls, submits, challenges, applies, works, elsewhere, submit-run_calls,
}
use cerulea.Poi.Calls.Genesis.{genesis, challenge-run_calls, compute_poi_score-run_calls}

abbrev cfg : Config
cfg = record {
  min_inference_confidence = 80;
  max_inference_age = 10;
  challenge_window = 5;
  inference_boost_low = 2;
  inference_boost_medium = 5;
  inference_boost_high = 10;
  inference_penalty_low = 1;
  inference_penalty_medium = 3;
  inference_penalty_high = 7;
  confidence_threshold_low = 70;
  confidence_threshold_high = 90;
  max_validator_score = 10000;
  percentage_precision = 10000;
  offchain_worker_interval = 10;
  max_validator_iteration_weight = 1000000;
  max_loop_iterations = 100;
}

-- The other pallets keep a number.
abbrev pos : PosInterface ℕ
pos = record {
  boost_score = λ _ _. pure tt;
  slash_score = λ _ _. pure tt;
  get_active_validators = λ _. 1 ∷ 2 ∷ [];
}

abbrev dcf : DcfInterface ℕ
dcf = record { record_inference_activity = λ _. pure tt; update_final_score = λ _. pure tt }

abbrev host : Host
host = record { encode = λ v. v ∷ []; blake2_256 = λ bytes. 7 ∷ 1 ∷ 0 ∷ 0 ∷ bytes; unix_millis = 0 }

abbrev initial : GenesisConfig
initial = record { inference_results = (1, 500) ∷ []; challenges = []; current_epoch = 30 }

abbrev start : World ℕ
start = genesis initial 0 []

abbrev calls : List (Call ℕ)
calls =
    works host 10
    ∷ applies (signed 2) 10
    ∷ challenges (signed 2) 1 1
    ∷ elsewhere (λ _. 5)
    ∷ submits (signed 3) 9 95
    ∷ []

submitted : (submit_inference cfg pos dcf (signed 3) 4 80 start).0 ≡ ok tt
unfolding submit_inference build
submitted = refl

stored : lookup 3 (run_calls cfg pos dcf calls start).poi.inference_results ≡ some (9, 30)
unfolding run_calls submit_inference challenge_inference build apply_offchain_poi_scores
    get_offchain_poi_score offchain_worker
stored = refl

submit-run_calls_example :
    (submit_inference cfg pos dcf
      (signed 3)
      8
      90
      (run_calls cfg pos dcf calls (submit_inference cfg pos dcf (signed 3) 4 80 start).1)).0
    ≡ err (poi_error inference_already_submitted)
submit-run_calls_example = submit-run_calls cfg pos dcf 3 4 80 start submitted calls 8 90

challenge-run_calls_example :
    let w = run_calls cfg pos dcf calls start in
    ((challenge_inference cfg pos dcf (signed 2) 1 1 w).0 ≢ err (poi_error inference_too_old))
    × ((challenge_inference cfg pos dcf (signed 2) 1 1 w).0
        ≢ err (poi_error challenge_window_expired))
challenge-run_calls_example =
    challenge-run_calls cfg pos dcf initial (omega arith) calls 0 [] (signed 2) 1 1

compute_poi_score-run_calls_example :
    let p = (run_calls cfg pos dcf calls start).poi in
    compute_poi_score cfg (collect_inference_data cfg host 3 p.current_epoch p)
    ≡ min (9 * p.current_epoch / 10000) 10000
compute_poi_score-run_calls_example =
    compute_poi_score-run_calls cfg pos dcf initial (omega arith) calls 0 [] host 3 (9, 30) stored

differs : (computed cfg host start.poi 1 == get_inference_score 1 start.poi) ≡ false
unfolding computed build get_inference_score compute_poi_score collect_inference_data
differs = refl

verify_score-run_offchain_computation_example :
    verify_score 1 1 10 (run_offchain_computation cfg host pos 10 start).offchain
    ≡ (computed cfg host start.poi 1 == 1)
verify_score-run_offchain_computation_example =
    verify_score-run_offchain_computation cfg host pos 10 start 1 (omega arith) refl differs 1

-- One validator, registered with a score of 60.
abbrev staking : cerulea.Pos.State.World ⊤ ⊤
staking = record {
  pos = record {
    validators = (1, true) ∷ [];
    validator_scores = (1, 60) ∷ [];
    current_epoch = 0;
    slashing_count = [];
    stake = (1, 100) ∷ [];
    epoch_total_rewarded = 0;
    epoch_total_slashed = 0;
    validator_epoch_rewarded = [];
    validator_epoch_slashed = [];
    events = [];
  };
  handler = tt;
  balances = tt;
}

abbrev handler : ValidatorHandler ⊤
handler = record {
  on_left = λ _. pure tt;
  on_stake_increased = λ _ _. pure tt;
  on_stake_decreased = λ _ _. pure tt;
  on_slashed = λ _ _ _. pure tt;
  on_rewarded = λ _ _ _. pure tt;
  get_validator_score = λ _ _. 90;
  get_active_validators = λ _. 1 ∷ [];
}

abbrev accepting : DcfInterface (cerulea.Pos.State.World ⊤ ⊤)
accepting = record { record_inference_activity = λ _. pure tt; update_final_score = λ _. pure tt }

abbrev on_chain : World (cerulea.Pos.State.World ⊤ ⊤)
on_chain = genesis initial staking []

challenge-pos_interface_example :
    ((challenge_inference cfg (pos_interface handler) accepting (signed 2) 1 500 on_chain).1.others
      ≡ staking)
    × ((handle_valid_inference cfg (pos_interface handler) accepting 1 95 on_chain).0
        ≡ err bad_origin)
    × ((handle_invalid_inference cfg (pos_interface handler) accepting 1 high on_chain).0
        ≡ err bad_origin)
challenge-pos_interface_example =
    challenge-pos_interface handler cfg accepting (signed 2) 1 500 1 95 high on_chain
