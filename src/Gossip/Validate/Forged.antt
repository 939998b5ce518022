-- ===== src/Gossip/Validate/Forged.antt =====
-- Whose votes the gossip validator of dvf_gossip.rs takes in.
use cerulea.Common.{
  ℕ, ◌≡◌, ◌⊎◌, true, false, List, [], some, arith, get, contains, ◌∙◌, ap, saturating_add, u32_max,
}
use cerulea.Gossip.Pool.{DvfVoteMessage, insert_vote}
use cerulea.Gossip.Pool.OneVote.{insert_vote_again, insert_vote_first}
use cerulea.Gossip.Validate.{
  Client, Crypto, SignedPart, signed_part, Validator, process_and_keep, accepted, validate,
  validate_core, check_message, check_active, check_epoch, check_set_id, take_in,
}

-- Whoever holds the key pair can sign any payload, and messages can be encoded.
pub record Keyed {D : Type 0} (crypto : Crypto D) (key : ℕ) : Type 0 where
  pub sign : SignedPart → ℕ
  pub signs : (m : SignedPart) → crypto.ed25519_verify m (sign m) key ≡ true
  pub encode : DvfVoteMessage → D
  pub decodes : (v : DvfVoteMessage) → crypto.decode (encode v) ≡ some v

-- A vote in the name of any account, signed with the given key.
abbrev pub forge :
    {D : Type 0} {crypto : Crypto D} {key : ℕ} → Keyed crypto key → ℕ → SignedPart → DvfVoteMessage
forge {key = key} k account m = record {
  epoch_id = m.epoch_id;
  validator_set_id = m.validator_set_id;
  round_number = m.round_number;
  block_number = m.block_number;
  block_hash = m.block_hash;
  validator_account_id = account;
  validator_public_key = key;
  signature = k.sign (record m { validator_account_id = account });
}

module _ {D : Type 0} (crypto : Crypto D) (client : Client) where
  pub core_accepts :
      (bytes : D) (v : DvfVoteMessage) (active : List ℕ)
      → crypto.decode bytes ≡ some v
      → crypto.ed25519_verify (signed_part v) v.signature v.validator_public_key ≡ true
      → client.get_active_validators ≡ some active
      → contains active v.validator_account_id ≡ true
      → client.get_current_epoch ≡ some v.epoch_id
      → client.get_validator_set_id ≡ some v.validator_set_id
      → validate_core crypto client bytes ≡ accepted v
  unfolding validate_core check_message check_active check_epoch check_set_id
  core_accepts bytes v active d sig act mem epoch set = ground (arith, d, sig, act, mem, epoch, set)

  validate_keeps :
      (bytes : D) (v : DvfVoteMessage) (s : Validator)
      → validate_core crypto client bytes ≡ accepted v
      → contains s.known_messages (crypto.blake2_256 bytes) ≡ false
      → contains (get [] v.round_number s.pool.participation) v.validator_account_id ≡ false
      → let (r, s') = validate crypto client bytes s in
        (r ≡ process_and_keep (crypto.blake2_256 bytes)) × (s'.pool ≡ (insert_vote v s.pool).1)
  unfolding validate take_in
  validate_keeps bytes v s e new free = ground (arith, e, new, insert_vote_first v s.pool free)

  -- With a key of one's own, one can vote in the name of any active validator: the message is kept
  -- and spread, and the validator's own vote in that round is refused afterwards. The account is
  -- active and has not voted in the round, the epoch and the set id are the current ones, and the
  -- message is new.
  pub validate-forge_lem :
      {key : ℕ} (k : Keyed crypto key) (account : ℕ) (m : SignedPart) (active : List ℕ)
      (own : DvfVoteMessage) (s : Validator)
      → client.get_active_validators ≡ some active
      → contains active account ≡ true
      → client.get_current_epoch ≡ some m.epoch_id
      → client.get_validator_set_id ≡ some m.validator_set_id
      → contains s.known_messages (crypto.blake2_256 (k.encode (forge k account m))) ≡ false
      → contains (get [] m.round_number s.pool.participation) account ≡ false
      → m.round_number ≡ own.round_number
      → account ≡ own.validator_account_id
      → let (r, s') = validate crypto client (k.encode (forge k account m)) s in
        (r ≡ process_and_keep (crypto.blake2_256 (k.encode (forge k account m))))
        × ((insert_vote own s'.pool).0 ≡ false)
  validate-forge_lem k account m active own s act mem epoch set new free round same =
      let v = forge k account m in
      let core =
        core_accepts (k.encode v) v active (k.decodes v)
          (k.signs (record m { validator_account_id = account })) act mem epoch set in
      let (kept, pool) = validate_keeps (k.encode v) v s core new free in
      (kept, ap (λ p. (insert_vote own p).0) pool ∙ insert_vote_again v own s.pool round same)

  -- A message that is accepted was decoded from the bytes, carries a signature of the key that it
  -- names itself, and names an active validator and the current or the next epoch.
  pub validate_core_lem :
      (bytes : D) (v : DvfVoteMessage) (active : List ℕ) (epoch : ℕ)
      → client.get_active_validators ≡ some active
      → client.get_current_epoch ≡ some epoch
      → validate_core crypto client bytes ≡ accepted v
      → (crypto.decode bytes ≡ some v)
        × (crypto.ed25519_verify (signed_part v) v.signature v.validator_public_key ≡ true)
        × (contains active v.validator_account_id ≡ true)
        × ((v.epoch_id ≡ epoch) ⊎ (v.epoch_id ≡ saturating_add u32_max epoch 1))
  unfolding validate_core check_message check_active check_epoch check_set_id
  validate_core_lem bytes v active epoch act cur e = ground (arith, act, cur, e)
