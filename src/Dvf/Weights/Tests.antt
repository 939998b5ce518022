-- ===== src/Dvf/Weights/Tests.antt =====
-- Frozen weights at a concrete epoch: two validators with stakes of 30 and 10.
use cerulea.Common.{◌≤◌, List, [], ◌∷◌, none, map_total, arith, true}
use cerulea.Dvf.State.{Config, Finality}
use cerulea.Dvf.Weights.{freeze_epoch_weights, vote_weight_scale, Entry}
use cerulea.Dvf.Weights.Total.{freeze_epoch_weights_total}

abbrev cfg : Config
cfg = record {
  finality_checkpoint_interval = 10;
  vote_retention_rounds = 2;
  max_validators = 8;
  verify = λ p account signature. true;
  finality_threshold = λ total. total;
}

abbrev start : Finality
start = record {
  epoch_voting_weight = [];
  total_voting_weight = 0;
  current_round = 0;
  finalized_block_number = 0;
  finalized_block_hash = none;
  vote_records = [];
  vote_tallies = [];
  validator_set_id = 0;
  previous_validator_set = [];
  validator_set_id_changed_at = none;
  block_number = 1;
  events = [];
}

abbrev two : List Entry
two = (1, 30, 50) ∷ (2, 10, 50) ∷ []

freeze_epoch_weights_total_example :
    let s' = (freeze_epoch_weights cfg 1 two start).1 in
    (map_total s'.epoch_voting_weight ≤ s'.total_voting_weight)
    × (s'.total_voting_weight ≤ vote_weight_scale)
freeze_epoch_weights_total_example = freeze_epoch_weights_total cfg 1 two start (omega arith)
