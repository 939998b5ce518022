-- ===== src/Justify/Sample.antt =====
-- A node with a pool of three votes for block 77 of round 4, number 20.
use cerulea.Common.{ℕ, ◌+◌, ◌*◌, ◌/◌, ◌==◌, List, [], ◌∷◌, some, length}
use cerulea.Gossip.Pool.{DvfVoteMessage, DvfVotePool}
use cerulea.Justify.{Node}

abbrev pub message : ℕ → DvfVoteMessage
message who = record {
  epoch_id = 3;
  validator_set_id = 2;
  round_number = 4;
  block_number = 20;
  block_hash = 77;
  validator_account_id = who;
  validator_public_key = who;
  signature = who + 100;
}

abbrev pub pool : DvfVotePool
pool = record {
  votes = ((4, 77), message 1 ∷ message 2 ∷ message 3 ∷ []) ∷ [];
  participation = (4, 3 ∷ 2 ∷ 1 ∷ []) ∷ [];
}

abbrev pub entries : List (ℕ × ℕ)
entries = (1, 10) ∷ (2, 30) ∷ (3, 25) ∷ (4, 15) ∷ []

abbrev pub two_thirds : ℕ → ℕ
two_thirds n = n * 2 / 3

abbrev pub node : Node
node = record {
  get_validator_weights = some entries;
  get_validator_set = some (1 ∷ 2 ∷ 3 ∷ 4 ∷ []);
  get_finality_threshold_perbill = some two_thirds;
  ed25519_verify = λ part signature key. signature == key + 100;
  encoded_len = λ j. 40 + 180 * length j.votes;
}
