-- ===== src/Poi/Offchain.antt =====
-- The off-chain worker of pallet-cerulea-poi: it computes a score for each active validator and
-- stores it in the off-chain storage, from which the score of a block is read and verified. The
-- hash blake2_256 of the host, the encoding of an account and the clock are parameters.
pub mod Stored
use cerulea.Common.{
  ℕ, ◌+◌, ◌-◌, ◌*◌, ◌/◌, ◌%◌, ◌^◌, min, Bool, true, false, List, [], ◌∷◌, ◌++◌, Option, none, some,
  if◌then◌else◌, ◌==◌, Map, lookup, get, insert, take, drop,
}
use cerulea.Dcf.Authors.{to_le_bytes, from_le_bytes}
use cerulea.Poi.State.{
  Config, PosInterface, InferenceData, OffchainPoiScore, Entry, score_data, undecodable, Poi, World,
}

-- What the host offers: `encode` of an account, blake2_256, and the time of the node.
pub record Host : Type 0 where
  pub encode : ℕ → List ℕ
  pub blake2_256 : List ℕ → List ℕ
  pub unix_millis : ℕ

unfoldable pub get_inference_score : ℕ → Poi → ℕ
get_inference_score validator p = elim (lookup validator p.inference_results) [
  | some (result, epoch) ↦ result
  | none ↦ 0
]

-- The key of an entry is made of the validator and the block number.
pub put_entry : ℕ → ℕ → Entry → Map (Map Entry) → Map (Map Entry)
put_entry validator block e m = insert validator (insert block e (get [] validator m)) m

-- `none` is the error of bytes that do not decode.
unfoldable pub get_offchain_poi_score : ℕ → ℕ → Map (Map Entry) → Option (Option ℕ)
get_offchain_poi_score validator block m = elim (lookup block (get [] validator m)) [
  | some (score_data d) ↦ some (some d.score)
  | some undecodable ↦ none
  | none ↦ some none
]

pub verify_score : ℕ → ℕ → ℕ → Map (Map Entry) → Bool
unfolding get_offchain_poi_score
verify_score validator score block m = elim (get_offchain_poi_score validator block m) [
  | some (some stored) ↦ stored == score
  | some none ↦ false
  | none ↦ false
]

pub store_offchain_poi_score : Host → ℕ → ℕ → ℕ → Map (Map Entry) → Map (Map Entry)
unfolding put_entry
store_offchain_poi_score host validator score block m =
    put_entry validator block
      (score_data (record {
        validator = validator;
        score = score;
        block_number = block;
        timestamp = host.unix_millis;
      }))
      m

-- `submit_score`, which other components call, and `submit_poi_score_update`, which logs.
abbrev submit_score : Host → ℕ → ℕ → ℕ → Map (Map Entry) → Map (Map Entry)
submit_score host validator score block m = store_offchain_poi_score host validator score block m

abbrev submit_poi_score_update : Host → ℕ → ℕ → ℕ → Map (Map Entry) → Map (Map Entry)
submit_poi_score_update host validator poi_score block m =
    store_offchain_poi_score host validator poi_score block m

-- The constants are taken to be such that no operation panics or wraps: the precision is positive,
-- and the low threshold is below the high one.
pub simulate_inference_computation : Config → Host → ℕ → ℕ → ℕ × ℕ
simulate_inference_computation cfg host validator epoch =
    let hash = host.blake2_256 (host.encode validator ++ to_le_bytes 4 epoch) in
    let result = from_le_bytes (take 4 hash) % cfg.percentage_precision in
    let low = cfg.confidence_threshold_low in
    let confidence =
      low + from_le_bytes (take 4 (drop 4 hash)) % (cfg.confidence_threshold_high - low) in
    (result, confidence)

collect_from_external_sources : Config → Host → ℕ → ℕ → InferenceData
unfolding simulate_inference_computation
collect_from_external_sources cfg host validator epoch =
    let simulated_result = simulate_inference_computation cfg host validator epoch in
    record {
      validator = validator;
      epoch = epoch;
      inference_result = simulated_result.0;
      confidence_score = simulated_result.1;
      timestamp = host.unix_millis;
      -- b"simulation"
      data_sources = (115 ∷ 105 ∷ 109 ∷ 117 ∷ 108 ∷ 97 ∷ 116 ∷ 105 ∷ 111 ∷ 110 ∷ []) ∷ [];
    }

-- The pair of a stored result is read as the result and a confidence.
unfoldable pub collect_inference_data : Config → Host → ℕ → ℕ → Poi → InferenceData
unfolding collect_from_external_sources
collect_inference_data cfg host validator epoch p = elim (lookup validator p.inference_results) [
  | some (result, confidence) ↦ record {
    validator = validator;
    epoch = epoch;
    inference_result = result;
    confidence_score = confidence;
    timestamp = host.unix_millis;
    -- b"poi_pallet"
    data_sources = (112 ∷ 111 ∷ 105 ∷ 95 ∷ 112 ∷ 97 ∷ 108 ∷ 108 ∷ 101 ∷ 116 ∷ []) ∷ [];
  }
  | none ↦ collect_from_external_sources cfg host validator epoch
]

-- The product of two u32 numbers is a u64.
unfoldable pub compute_poi_score : Config → InferenceData → ℕ
compute_poi_score cfg collected =
    min (collected.inference_result * collected.confidence_score / cfg.percentage_precision)
      cfg.max_validator_score

-- One round of the loop over the validators.
pub compute_and_store : Config → Host → ℕ → Poi → ℕ → Map (Map Entry) → Map (Map Entry)
unfolding collect_inference_data compute_poi_score get_inference_score store_offchain_poi_score
compute_and_store cfg host block p validator m =
    let poi_score =
      compute_poi_score cfg (collect_inference_data cfg host validator p.current_epoch p) in
    if poi_score == get_inference_score validator p
    then m
    else submit_poi_score_update host validator poi_score block m

pub compute_all : Config → Host → ℕ → Poi → List ℕ → Map (Map Entry) → Map (Map Entry)
unfolding compute_and_store
compute_all cfg host block p [] m = m
compute_all cfg host block p (v ∷ vs) m =
    compute_all cfg host block p vs (compute_and_store cfg host block p v m)

module _ {H : Type 0} (cfg : Config) (host : Host) (pos : PosInterface H) where
  unfoldable pub run_offchain_computation : ℕ → World H → World H
  unfolding compute_all
  run_offchain_computation block w = record w {
    offchain =
        compute_all cfg host (min block (2 ^ 32 - 1)) w.poi (pos.get_active_validators w.others)
          w.offchain;
  }

  -- `hooks::offchain_worker`
  unfoldable pub offchain_worker : ℕ → World H → World H
  unfolding run_offchain_computation
  offchain_worker block w =
      if min block (2 ^ 32 - 1) % cfg.offchain_worker_interval == 0
      then run_offchain_computation block w
      else w
