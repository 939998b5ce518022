-- ===== src/Gossip/Validate.antt =====
-- The validation of incoming votes in cerulea-node/src/cerulea-consensus/src/dvf_gossip.rs. The
-- decoding, the hash of the bytes, the check of a signature and the answers of the runtime come from
-- elsewhere and are parameters. Logging and metrics are left out.
pub mod Forged
use cerulea.Common.{
  ℕ, ◌+◌, ◌-◌, ◌%◌, ◌^◌, Bool, true, false, not, ◌&&◌, List, [], ◌∷◌, Option, none, some,
  if◌then◌else◌, leb, ◌==◌, contains, saturating_add, u32_max,
}
use cerulea.Gossip.Pool.{DvfVoteMessage, DvfVotePool, insert_vote}

-- Why a message is rejected.
pub data Rejection : Type 0 where
  invalid_encoding invalid_signature inactive_validator runtime_api_error : Rejection
  epoch_mismatch validator_set_mismatch : Rejection

pub data Outcome : Type 0 where
  accepted : DvfVoteMessage → Outcome
  rejected : Rejection → Outcome

-- What the client answers at the best block; `none` where a call fails.
pub record Client : Type 0 where
  pub get_active_validators : Option (List ℕ)
  pub get_current_epoch : Option ℕ
  pub get_validator_set_id : Option ℕ
  pub get_validator_set_id_changed_at : Option (Option ℕ)
  pub best_number : ℕ

-- The fields that are encoded and signed.
pub record SignedPart : Type 0 where
  pub epoch_id : ℕ
  pub validator_set_id : ℕ
  pub round_number : ℕ
  pub block_number : ℕ
  pub block_hash : ℕ
  pub validator_account_id : ℕ

abbrev pub signed_part : DvfVoteMessage → SignedPart
signed_part v = record {
  epoch_id = v.epoch_id;
  validator_set_id = v.validator_set_id;
  round_number = v.round_number;
  block_number = v.block_number;
  block_hash = v.block_hash;
  validator_account_id = v.validator_account_id;
}

-- `D` is the type of the bytes on the network.
pub record Crypto (D : Type 0) : Type 0 where
  pub decode : D → Option DvfVoteMessage
  -- the hash of the bytes
  pub blake2_256 : D → ℕ
  -- what is signed, the signature and the public key
  pub ed25519_verify : SignedPart → ℕ → ℕ → Bool

check_active : ℕ → Option (List ℕ) → Option Rejection
check_active account none = some runtime_api_error
check_active account (some active) =
    if contains active account then none else some inactive_validator

check_epoch : ℕ → Option ℕ → Option Rejection
check_epoch epoch none = some runtime_api_error
check_epoch epoch (some current) =
    if epoch == current
    then none
    else if epoch == saturating_add u32_max current 1
    then none
    else some epoch_mismatch

within_grace : ℕ → Option (Option ℕ) → Bool
within_grace best (some (some changed_at)) = leb best ((changed_at + 1) % 2 ^ 32)
within_grace best _ = false

check_set_id : ℕ → Client → Option ℕ → Option Rejection
unfolding within_grace
check_set_id id client none = some runtime_api_error
check_set_id id client (some current) =
    if id == current
    then none
    else if id == current - 1
        && within_grace client.best_number client.get_validator_set_id_changed_at
    then none
    else some validator_set_mismatch

module _ {D : Type 0} (crypto : Crypto D) (client : Client) where
  check_message : DvfVoteMessage → Option Rejection
  unfolding check_active check_epoch check_set_id
  check_message v =
      if not (crypto.ed25519_verify (signed_part v) v.signature v.validator_public_key)
      then some invalid_signature
      else elim (check_active v.validator_account_id client.get_active_validators) [
        | some e ↦ some e
        | none ↦ elim (check_epoch v.epoch_id client.get_current_epoch) [
          | some e ↦ some e
          | none ↦ check_set_id v.validator_set_id client client.get_validator_set_id
        ]
      ]

  pub validate_core : D → Outcome
  unfolding check_message
  validate_core bytes = elim (crypto.decode bytes) [
    | none ↦ rejected invalid_encoding
    | some v ↦ elim (check_message v) [ some e ↦ rejected e | none ↦ accepted v ]
  ]

-- What becomes of a message; the number is its hash.
pub data ValidationResult : Type 0 where
  process_and_keep process_and_discard : ℕ → ValidationResult
  discard : ValidationResult

pub record Validator : Type 0 where
  pub pool : DvfVotePool
  pub known_messages : List ℕ

-- What the validator does with the outcome of `validate_core`.
take_in : ℕ → Outcome → Validator → ValidationResult × Validator
take_in hash (accepted v) s =
    let (inserted, pool') = insert_vote v s.pool in
    (
      if inserted then process_and_keep hash else process_and_discard hash,
      record s { pool = pool' },
    )
take_in hash (rejected e) s = (discard, s)

module _ {D : Type 0} (crypto : Crypto D) (client : Client) where
  pub validate : D → Validator → ValidationResult × Validator
  unfolding take_in
  validate bytes s =
      let hash = crypto.blake2_256 bytes in
      if contains s.known_messages hash
      then (process_and_discard hash, s)
      else take_in hash (validate_core crypto client bytes)
          (record s { known_messages = hash ∷ s.known_messages })
