-- ===== src/Gossip/Tests.antt =====
-- The theorems on gossip at concrete pools: bytes are the messages themselves, and a signature is good
-- if it is the number of the key.
use cerulea.Common.{
  ℕ, ◌≤◌, ◌≡◌, refl, true, false, [], ◌∷◌, some, none, ◌⊎◌, saturating_add, u32_max, contains, ◌==◌,
}
use cerulea.Gossip.Pool.{DvfVoteMessage, DvfVotePool, insert_vote, get_votes, clear}
use cerulea.Gossip.Pool.OneVote.{by, cast, run_all, inserts, prunes_older_rounds, run_all-single}
use cerulea.Gossip.Validate.{
  Client, Crypto, SignedPart, signed_part, Validator, process_and_keep, validate, validate_core,
  accepted,
}
use cerulea.Gossip.Validate.Forged.{
  core_accepts, Keyed, forge, validate-forge_lem, validate_core_lem,
}

abbrev message : ℕ → ℕ → ℕ → DvfVoteMessage
message account round hash = record {
  epoch_id = 3;
  validator_set_id = 1;
  round_number = round;
  block_number = 10;
  block_hash = hash;
  validator_account_id = account;
  validator_public_key = account;
  signature = account;
}

abbrev pool : DvfVotePool
pool = record {
  votes = ((0, 70), message 1 0 70 ∷ []) ∷ ((1, 71), message 2 1 71 ∷ []) ∷ [];
  participation = (0, 1 ∷ []) ∷ (1, 2 ∷ []) ∷ [];
}

run_all-single_example :
    let p' =
      run_all
        (inserts (message 1 0 70) ∷ inserts (message 1 0 71) ∷ prunes_older_rounds 0 ∷ [])
        (clear pool) in
    (cast 0 1 p'.votes ≤ 1) × (by 1 (get_votes 0 70 p') ≤ 1)
run_all-single_example =
    run_all-single
      (inserts (message 1 0 70) ∷ inserts (message 1 0 71) ∷ prunes_older_rounds 0 ∷ []) pool 0 1 70

abbrev crypto : Crypto DvfVoteMessage
crypto = record {
  decode = λ v. some v;
  blake2_256 = λ v. v.block_hash;
  ed25519_verify = λ m signature key. signature == key;
}

abbrev client : Client
client = record {
  get_active_validators = some (1 ∷ 2 ∷ []);
  get_current_epoch = some 3;
  get_validator_set_id = some 1;
  get_validator_set_id_changed_at = some none;
  best_number = 12;
}

abbrev key_66 : Keyed crypto 66
key_66 = record { sign = λ m. 66; signs = λ m. refl; encode = λ v. v; decodes = λ v. refl }

abbrev wanted : SignedPart
wanted = signed_part (message 1 2 90)

abbrev validator : Validator
validator = record { pool = pool; known_messages = [] }

validate-forge_lem_example :
    let (r, s') = validate crypto client (forge key_66 1 wanted) validator in
    (r ≡ process_and_keep 90) × ((insert_vote (message 1 2 80) s'.pool).0 ≡ false)
validate-forge_lem_example =
    validate-forge_lem crypto client key_66 1 wanted (1 ∷ 2 ∷ []) (message 1 2 80) validator refl
      refl refl refl refl refl refl refl

core_1 : validate_core crypto client (message 1 2 90) ≡ accepted (message 1 2 90)
core_1 =
    core_accepts crypto client (message 1 2 90) (message 1 2 90) (1 ∷ 2 ∷ []) refl refl refl refl
      refl refl

validate_core_lem_example :
    (some (message 1 2 90) ≡ some (message 1 2 90))
    × ((1 == 1) ≡ true)
    × (contains (1 ∷ 2 ∷ []) 1 ≡ true)
    × (((message 1 2 90).epoch_id ≡ 3) ⊎ ((message 1 2 90).epoch_id ≡ saturating_add u32_max 3 1))
validate_core_lem_example =
    validate_core_lem crypto client (message 1 2 90) (message 1 2 90) (1 ∷ 2 ∷ []) 3 refl refl
      core_1
