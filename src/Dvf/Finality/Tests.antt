-- ===== src/Dvf/Finality/Tests.antt =====
-- The finality theorems at concrete states of pallet-cerulea-dvf: four validators of equal weight,
-- checkpoints every ten blocks, a threshold of two thirds.
use cerulea.Common.{ℕ, ◌+◌, ◌*◌, ◌/◌, ◌≡◌, refl, [], ◌∷◌, none, some, arith, ◌==◌, get}
use cerulea.Frame.Errors.{dvf_error, double_vote}
use cerulea.Frame.Action.{signed, ok, err}
use cerulea.Dvf.State.{DvfVote, DvfJustification, Config, Finality}
use cerulea.Dvf.Finality.{
  is_checkpoint_block, insert_vote_record, submit_dvf_vote, verify_and_finalize_justification,
  verify_votes, check_votes, check_vote, finalize_block, prune_vote_records,
}
use cerulea.Dvf.Finality.Quorum.{Quorum, VotedIn, justification-Quorum, justifications_share_voter}
use cerulea.Dvf.Finality.Justified.{Counts}
use cerulea.Dvf.Finality.Head.{Advances, Reach-Advances, here, next, votes, begins}
use cerulea.Dvf.Finality.Votes.{Eligible}
use cerulea.Dvf.Finality.Rounds.{submit_votes, submit_dvf_vote_twice}
use cerulea.Dvf.Finality.Recount.{submit_dvf_vote_next_round}

-- A signature is good if it is the account's number.
abbrev cfg : Config
cfg = record {
  finality_checkpoint_interval = 10;
  vote_retention_rounds = 2;
  max_validators = 8;
  verify = λ p account signature. account == signature;
  finality_threshold = λ total. (total * 2 + 2) / 3;
}

abbrev start : Finality
start = record {
  epoch_voting_weight = (1, 8000) ∷ (2, 8000) ∷ (3, 8000) ∷ (4, 8000) ∷ [];
  total_voting_weight = 32000;
  current_round = 0;
  finalized_block_number = 0;
  finalized_block_hash = none;
  vote_records = [];
  vote_tallies = [];
  validator_set_id = 1;
  previous_validator_set = 1 ∷ 2 ∷ 3 ∷ 4 ∷ [];
  validator_set_id_changed_at = none;
  block_number = 12;
  events = [];
}

abbrev vote : ℕ → ℕ → ℕ → ℕ → DvfVote
vote account round number hash = record {
  payload = record {
    epoch_id = 0;
    validator_set_id = 1;
    round_id = round;
    block_number = number;
    block_hash = hash;
    validator_account = account;
  };
  signature = account;
}

abbrev justified_70 : DvfJustification
justified_70 = record {
  round_number = 0;
  block_hash = 70;
  votes = vote 1 0 10 70 ∷ vote 2 0 10 70 ∷ vote 3 0 10 70 ∷ [];
}

abbrev justified_71 : DvfJustification
justified_71 = record {
  round_number = 0;
  block_hash = 71;
  votes = vote 2 0 10 71 ∷ vote 3 0 10 71 ∷ vote 4 0 10 71 ∷ [];
}

accepted_70 : (verify_and_finalize_justification cfg justified_70 start).0 ≡ ok tt
unfolding verify_and_finalize_justification verify_votes check_votes check_vote is_checkpoint_block
    finalize_block prune_vote_records
accepted_70 = refl

accepted_71 : (verify_and_finalize_justification cfg justified_71 start).0 ≡ ok tt
unfolding verify_and_finalize_justification verify_votes check_votes check_vote is_checkpoint_block
    finalize_block prune_vote_records
accepted_71 = refl

justification-Quorum_example : Quorum cfg justified_70 start
justification-Quorum_example = justification-Quorum cfg justified_70 start accepted_70

justifications_share_voter_example :
    (a : ℕ) × VotedIn a (Counts cfg justified_70) justified_70.votes
    × VotedIn a (Counts cfg justified_71) justified_71.votes
justifications_share_voter_example =
    justifications_share_voter cfg justified_70 justified_71 start start accepted_70 accepted_71
      refl refl (omega arith) (omega arith)

-- Validator 1 votes for block 70, 2 votes for it too, and 1 votes for block 71.
abbrev voted : Finality
voted =
    submit_votes cfg ((signed 9, vote 2 0 10 70) ∷ [])
      (submit_dvf_vote cfg (signed 9) (vote 1 0 10 70) start).1

Eligible-voted : Eligible cfg (vote 1 0 10 71) 8000 voted
unfolding submit_votes submit_dvf_vote is_checkpoint_block insert_vote_record
Eligible-voted = record {
  signature_valid = refl;
  weighted = refl;
  checkpoint = refl;
  newer = omega arith;
}

accepted_vote : (submit_dvf_vote cfg (signed 9) (vote 1 0 10 70) start).0 ≡ ok tt
unfolding submit_dvf_vote is_checkpoint_block insert_vote_record
accepted_vote = refl

same_round : voted.current_round ≡ 0
unfolding submit_votes submit_dvf_vote is_checkpoint_block insert_vote_record
same_round = refl

submit_dvf_vote_twice_example :
    submit_dvf_vote cfg (signed 8) (vote 1 0 10 71) voted ≡ (err (dvf_error double_vote), voted)
submit_dvf_vote_twice_example =
    submit_dvf_vote_twice cfg 9 8 (vote 1 0 10 70) (vote 1 0 10 71) 8000 start
      ((signed 9, vote 2 0 10 70) ∷ []) accepted_vote (omega arith) same_round refl Eligible-voted

-- Block 70 lacks one vote, validator 1 votes for block 99, and 2 finalizes block 70.
abbrev nearly : Finality
nearly = record start { vote_tallies = (70, 16000) ∷ [] }

abbrev late : DvfVote
late = vote 1 0 90 99

Eligible-late : Eligible cfg late 8000 nearly
unfolding is_checkpoint_block
Eligible-late = record {
  signature_valid = refl;
  weighted = refl;
  checkpoint = refl;
  newer = omega arith;
}

Eligible-2 : Eligible cfg (vote 2 0 10 70) 8000 nearly
unfolding is_checkpoint_block
Eligible-2 = record {
  signature_valid = refl;
  weighted = refl;
  checkpoint = refl;
  newer = omega arith;
}

submit_dvf_vote_next_round_example :
    let s1 = (submit_dvf_vote cfg (signed 9) late nearly).1 in
    let s2 = (submit_dvf_vote cfg (signed 8) (vote 2 0 10 70) s1).1 in
    let s3 = (submit_dvf_vote cfg (signed 9) late s2).1 in
    (s2.finalized_block_hash ≡ some 70) × (get 0 99 s3.vote_tallies ≡ 16000)
submit_dvf_vote_next_round_example =
    submit_dvf_vote_next_round cfg 9 8 late (vote 2 0 10 70) 8000 8000 nearly Eligible-late refl
      refl Eligible-2 refl refl refl (omega arith) (omega arith) (omega arith) (omega arith)
      (omega arith)

-- The votes name round 0, and their blocks disagree: only the first one's number is read.
abbrev odd_numbers : DvfJustification
odd_numbers = record {
  round_number = 0;
  block_hash = 70;
  votes = vote 1 0 4_000_000_000 70 ∷ vote 2 0 10 70 ∷ vote 3 0 10 70 ∷ [];
}

abbrev advanced : Finality
advanced = record start { current_round = 5 }

Reach-Advances_example :
    Advances cfg start
      (record ((submit_dvf_vote cfg (signed 9) late start).1) { block_number = 13 })
Reach-Advances_example = Reach-Advances cfg (next (next here (votes (signed 9) late)) (begins 13))
