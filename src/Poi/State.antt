-- ===== src/Poi/State.antt =====
-- Storage, constants, events and the interfaces of cerulea-pallets/pallet-cerulea-poi/src/lib.rs. A
-- result stands with the epoch of its submission. The off-chain storage, which the node keeps
-- beside the chain, maps a validator and a block number, which together make the key, to the bytes.
use cerulea.Common.{ℕ, ⊤, Bool, List, ◌∷◌, Map}
use cerulea.Frame.Action.{Action, modify}

-- The constants of the `Config` trait that the pallet reads.
pub record Config : Type 0 where
  pub min_inference_confidence : ℕ
  pub max_inference_age : ℕ
  pub challenge_window : ℕ
  pub inference_boost_low : ℕ
  pub inference_boost_medium : ℕ
  pub inference_boost_high : ℕ
  pub inference_penalty_low : ℕ
  pub inference_penalty_medium : ℕ
  pub inference_penalty_high : ℕ
  pub confidence_threshold_low : ℕ
  pub confidence_threshold_high : ℕ
  pub max_validator_score : ℕ
  pub percentage_precision : ℕ
  pub offchain_worker_interval : ℕ
  pub max_validator_iteration_weight : ℕ
  pub max_loop_iterations : ℕ

-- The score manipulation that the runtime offers, over the state `H` of the other pallets.
pub record PosInterface (H : Type 0) : Type 0 where
  pub boost_score : ℕ → ℕ → Action H ⊤
  pub slash_score : ℕ → ℕ → Action H ⊤
  pub get_active_validators : H → List ℕ

-- The tracking of inferences, with the calls that the pallet makes.
pub record DcfInterface (H : Type 0) : Type 0 where
  pub record_inference_activity : ℕ → Action H ⊤
  pub update_final_score : ℕ → Action H ⊤

pub record InferenceData : Type 0 where
  pub validator : ℕ
  pub epoch : ℕ
  pub inference_result : ℕ
  pub confidence_score : ℕ
  pub timestamp : ℕ
  pub data_sources : List (List ℕ)

pub record OffchainPoiScore : Type 0 where
  pub validator : ℕ
  pub score : ℕ
  pub block_number : ℕ
  pub timestamp : ℕ

-- The bytes under a key of the off-chain storage: those of a score, or others, which do not decode.
pub data Entry : Type 0 where
  score_data : OffchainPoiScore → Entry
  undecodable : Entry

pub data InferenceErrorSeverity : Type 0 where
  high medium low : InferenceErrorSeverity

-- A reason is a list of bytes.
pub data Event : Type 0 where
  -- who, result, confidence
  inference_submitted : ℕ → ℕ → ℕ → Event
  inference_accepted : ℕ → ℕ → Event
  inference_rejected : ℕ → ℕ → Event
  -- challenger, challenged, result
  inference_challenged : ℕ → ℕ → ℕ → Event
  -- challenger, challenged, result, success
  challenge_resolved : ℕ → ℕ → ℕ → Bool → Event
  validator_slashed : ℕ → List ℕ → Event
  -- validator, old score, new score, epoch
  poi_score_updated : ℕ → ℕ → ℕ → ℕ → Event
  -- old epoch, new epoch
  poi_epoch_advanced : ℕ → ℕ → Event
  validator_poi_score_updated : ℕ → ℕ → Event

pub record Poi : Type 0 where
  pub inference_results : Map (ℕ × ℕ)
  -- challenged, result, epoch
  pub challenges : Map (ℕ × ℕ × ℕ)
  pub current_epoch : ℕ
  pub validator_inference_count : Map ℕ
  pub events : List Event

-- The storage of the pallet, that of the other pallets, and the off-chain storage.
pub record World (H : Type 0) : Type 0 where
  pub poi : Poi
  pub others : H
  pub offchain : Map (Map Entry)

module _ {H : Type 0} where
  abbrev pub modify_poi : (Poi → Poi) → Action (World H) ⊤
  modify_poi f = modify (λ w. record w { poi = f w.poi })

  abbrev pub deposit_event : Event → Action (World H) ⊤
  deposit_event e = modify_poi (λ p. record p { events = e ∷ p.events })

  abbrev pub on_others : {A : Type 0} → Action H A → Action (World H) A
  on_others m w = let (r, h) = m w.others in (r, record w { others = h })
