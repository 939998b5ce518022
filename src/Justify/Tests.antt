-- ===== src/Justify/Tests.antt =====
-- Justifications at a pool of three votes for block 77 of round 4, number 20.
use cerulea.Common.{
  ◌==◌, contains, ℕ, ◌+◌, ◌<◌, ◌≡◌, refl, true, [], ◌∷◌, none, some, arith, collect,
}
use cerulea.Frame.Action.{ok}
use cerulea.Gossip.Pool.{get_votes}
use cerulea.Dvf.State
use cerulea.Dvf.Finality.{verify_and_finalize_justification, is_checkpoint_block}
use cerulea.Justify.{
  DvfJustification, built, construct_justification, verify_justification, accumulate, total_weight,
}
use cerulea.Justify.Sample.{message, pool, entries, two_thirds, node}
use cerulea.Justify.Accepted.{Sound, verify-construct_justification, construct_justification-take}
use cerulea.Justify.OnChain.{to_pallet, to_pallet_vote, Signed, submit-construct_justification}

-- The two heaviest voters come first and are enough.
abbrev justification : DvfJustification
justification = record { round_number = 4; block_hash = 77; votes = message 2 ∷ message 3 ∷ [] }

constructed : construct_justification node pool 4 77 ≡ built justification
unfolding construct_justification get_votes
constructed = refl

message-Sound :
    (who : ℕ)
    → contains (1 ∷ 2 ∷ 3 ∷ 4 ∷ []) who ≡ true
    → Sound node (1 ∷ 2 ∷ 3 ∷ 4 ∷ []) 4 77 2 (message who)
message-Sound who h = record {
  signed = ground arith;
  of_set = refl;
  of_round = refl;
  of_block = refl;
  is_active = h;
}

verify-construct_justification_example : verify_justification node justification ≡ built tt
unfolding get_votes
verify-construct_justification_example =
    verify-construct_justification node pool 4 77 2 (1 ∷ 2 ∷ 3 ∷ 4 ∷ []) entries two_thirds
      justification refl refl refl
      (message-Sound 1 refl, (message-Sound 2 refl, (message-Sound 3 refl, tt))) constructed

construct_justification-take_example :
    accumulate (collect entries []) 0 (message 2 ∷ [])
    < two_thirds (total_weight (collect entries []))
construct_justification-take_example =
    construct_justification-take node pool 4 77 0 entries two_thirds justification refl refl
      constructed (omega arith)

abbrev cfg : State.Config
cfg = record {
  finality_checkpoint_interval = 10;
  vote_retention_rounds = 2;
  max_validators = 8;
  verify = λ part account signature. signature == account + 100;
  finality_threshold = two_thirds;
}

abbrev chain : State.Finality
chain = record {
  epoch_voting_weight = entries;
  total_voting_weight = 80;
  current_round = 4;
  finalized_block_number = 10;
  finalized_block_hash = some 70;
  vote_records = [];
  vote_tallies = [];
  validator_set_id = 2;
  previous_validator_set = 1 ∷ 2 ∷ 3 ∷ 4 ∷ [];
  validator_set_id_changed_at = none;
  block_number = 22;
  events = [];
}

message-Signed : (who : ℕ) → Signed cfg 4 77 20 2 (message who)
unfolding to_pallet_vote
message-Signed who = record {
  by_account = ground arith;
  of_set = refl;
  of_round = refl;
  of_block = refl;
  of_number = refl;
}

submit-construct_justification_example :
    ((verify_and_finalize_justification cfg (to_pallet justification) chain).0 ≡ ok tt)
    × ((verify_and_finalize_justification cfg
          (to_pallet justification)
          chain).1.finalized_block_number
        ≡ 20)
    × ((verify_and_finalize_justification cfg
          (to_pallet justification)
          chain).1.finalized_block_hash
        ≡ some 77)
unfolding get_votes is_checkpoint_block total_weight
submit-construct_justification_example =
    submit-construct_justification node pool 4 77 20 2 entries two_thirds justification cfg chain
      refl refl (message-Signed 1, (message-Signed 2, (message-Signed 3, tt))) (λ a. refl)
      (omega arith) refl (omega arith) constructed
