-- ===== src/Dvf/State.antt =====
-- Votes, justifications, constants, events and the finality storage of
-- cerulea-pallets/pallet-cerulea-dvf/src/lib.rs. Accounts, block hashes and signatures are numbers
-- that are only compared; block numbers, rounds and epochs are u32, weights are u128.
use cerulea.Common.{ℕ, ⊤, Bool, List, ◌∷◌, Option, Map}
use cerulea.Frame.Action.{Action, modify}

-- The signed part of a vote, field by field in the order in which it is encoded.
pub record Payload : Type 0 where
  pub epoch_id : ℕ
  pub validator_set_id : ℕ
  pub round_id : ℕ
  pub block_number : ℕ
  pub block_hash : ℕ
  pub validator_account : ℕ

pub record DvfVote : Type 0 where
  pub payload : Payload
  pub open payload use *
  pub signature : ℕ

pub record DvfJustification : Type 0 where
  pub round_number : ℕ
  pub block_hash : ℕ
  pub votes : List DvfVote

-- The constants of the `Config` trait that the finality part reads, and the two library functions
-- that it calls: the check of a signature over a payload by an account, and the product of the
-- finality threshold, a ratio, with a total weight.
pub record Config : Type 0 where
  pub finality_checkpoint_interval : ℕ
  pub vote_retention_rounds : ℕ
  pub max_validators : ℕ
  pub verify : Payload → ℕ → ℕ → Bool
  pub finality_threshold : ℕ → ℕ

pub data Event : Type 0 where
  -- block number, block hash, round, weight
  block_finalized : ℕ → ℕ → ℕ → ℕ → Event
  weights_frozen : ℕ → ℕ → Event
  validator_set_changed : ℕ → ℕ → Event

-- The storage items of voting and finality, with the block number of the system.
pub record Finality : Type 0 where
  pub epoch_voting_weight : Map ℕ
  pub total_voting_weight : ℕ
  pub current_round : ℕ
  pub finalized_block_number : ℕ
  pub finalized_block_hash : Option ℕ
  -- by round, then by account
  pub vote_records : Map (Map DvfVote)
  pub vote_tallies : Map ℕ
  pub validator_set_id : ℕ
  pub previous_validator_set : List ℕ
  pub validator_set_id_changed_at : Option ℕ
  pub block_number : ℕ
  pub events : List Event

abbrev pub deposit_event : Event → Action Finality ⊤
deposit_event e = modify (λ s. record s { events = e ∷ s.events })
