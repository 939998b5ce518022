-- ===== src/Dvf/Finality.antt =====
-- Votes and justifications of cerulea-pallets/pallet-cerulea-dvf/src/lib.rs: the checks, the tally,
-- the threshold and the finalization of a block.
mod Justified
mod Quorum
mod Head
mod Votes
mod Rounds
mod Recount
mod Tests
use cerulea.Common.{
  ℕ, zero, suc, ◌-◌, ◌*◌, ◌/◌, ◌%◌, ⊤, Bool, true, false, not, List, [], ◌∷◌, Option, none, some,
  if◌then◌else◌, leb, ltb, ◌==◌, Map, lookup, get, insert, erase, contains, saturating_add, u32_max,
  u128_max,
}
use cerulea.Frame.Errors.{
  dvf_error, block_already_finalized, invalid_validator, invalid_signature, double_vote,
  non_checkpoint_block, empty_justification, duplicate_validator, threshold_not_reached,
  round_mismatch, block_hash_mismatch, validator_set_id_mismatch,
}
use cerulea.Frame.Action.{
  Action, ◌>>=◌, ◌>>◌, pure, fail, gets, modify, ensure, ok_or, Origin, ensure_signed, ensure_none,
  ok, err,
}
use cerulea.Dvf.State.{DvfVote, DvfJustification, Config, Finality, deposit_event, block_finalized}

unfoldable pub is_checkpoint_block : Config → ℕ → Bool
is_checkpoint_block cfg n =
    if cfg.finality_checkpoint_interval == 0
    then false
    else n % cfg.finality_checkpoint_interval == 0

pub is_block_finalized : ℕ → Finality → Bool
is_block_finalized n s = leb n s.finalized_block_number

pub record FinalityInfo : Type 0 where
  pub is_finalized : Bool
  pub finalized_by_checkpoint : Option ℕ
  pub finalized_checkpoint_hash : Option ℕ

pub get_finality_info : Config → ℕ → Finality → FinalityInfo
get_finality_info cfg n s =
    if leb n s.finalized_block_number
    then record {
      is_finalized = true;
      finalized_by_checkpoint = some (
          if ltb 0 cfg.finality_checkpoint_interval
          then n / cfg.finality_checkpoint_interval * cfg.finality_checkpoint_interval
          else s.finalized_block_number);
      finalized_checkpoint_hash = s.finalized_block_hash;
    }
    else record {
      is_finalized = false;
      finalized_by_checkpoint = none;
      finalized_checkpoint_hash = none;
    }

-- `for old_round in 0..cutoff { clear_prefix(old_round) }`
unfoldable pub clear_rounds : ℕ → Map (Map DvfVote) → Map (Map DvfVote)
clear_rounds zero m = m
clear_rounds (suc n) m = erase n (clear_rounds n m)

unfoldable pub prune_vote_records : Config → ℕ → Finality → Finality
unfolding clear_rounds
prune_vote_records cfg round s =
    if ltb cfg.vote_retention_rounds round
    then record s { vote_records = clear_rounds (round - cfg.vote_retention_rounds) s.vote_records }
    else s

unfoldable pub finalize_block : Config → ℕ → ℕ → ℕ → ℕ → Action Finality ⊤
finalize_block cfg hash number round weight = do
  modify (λ s. record s {
    finalized_block_number = number;
    finalized_block_hash = some hash;
    current_round = saturating_add u32_max round 1;
  })
  deposit_event (block_finalized number hash round weight)
  modify (prune_vote_records cfg round)
  modify (λ s. record s { vote_tallies = erase hash s.vote_tallies })

-- The record of a round and account in the double map.
abbrev pub vote_record : ℕ → ℕ → Finality → Option DvfVote
vote_record round account s = lookup account (get [] round s.vote_records)

pub insert_vote_record : ℕ → DvfVote → Finality → Finality
insert_vote_record round vote s = record s {
  vote_records =
      insert round (insert vote.validator_account vote (get [] round s.vote_records))
        s.vote_records;
}

abbrev pub is_signed : Config → DvfVote → Bool
is_signed cfg vote = cfg.verify vote.payload vote.validator_account vote.signature

pub submit_dvf_vote : Config → Origin → DvfVote → Action Finality ⊤
unfolding is_checkpoint_block insert_vote_record
submit_dvf_vote cfg origin vote = do
  ensure_signed origin
  ensure (is_signed cfg vote) (dvf_error invalid_signature)
  weight ← gets (λ s. lookup vote.validator_account s.epoch_voting_weight)
  voter_weight ← ok_or weight (dvf_error invalid_validator)
  ensure (is_checkpoint_block cfg vote.block_number) (dvf_error non_checkpoint_block)
  finalized ← gets (λ s. s.finalized_block_number)
  ensure (ltb finalized vote.block_number) (dvf_error block_already_finalized)
  round ← gets (λ s. s.current_round)
  recorded ← gets (vote_record round vote.validator_account)
  ensure (elim recorded [ none ↦ true | some _ ↦ false ]) (dvf_error double_vote)
  modify (insert_vote_record round vote)
  tally ← gets (λ s. get 0 vote.block_hash s.vote_tallies)
  let new_tally = saturating_add u128_max tally voter_weight
  modify (λ s. record s { vote_tallies = insert vote.block_hash new_tally s.vote_tallies })
  total_weight ← gets (λ s. s.total_voting_weight)
  if leb (cfg.finality_threshold total_weight) new_tally
      then finalize_block cfg vote.block_hash vote.block_number round new_tally
      else pure tt

-- One round of the loop over the votes of a justification: the voters seen before, the validator
-- set id that the first vote fixed, and the vote; the result is the voter's weight.
unfoldable pub check_vote :
    Config → DvfJustification → List ℕ → Option ℕ → DvfVote → Action Finality ℕ
check_vote cfg j seen expected vote = do
  ensure (not (contains seen vote.validator_account)) (dvf_error duplicate_validator)
  ensure (is_signed cfg vote) (dvf_error invalid_signature)
  ensure (elim expected [ none ↦ true | some id ↦ vote.validator_set_id == id ])
      (dvf_error validator_set_id_mismatch)
  ensure (vote.round_id == j.round_number) (dvf_error round_mismatch)
  ensure (vote.block_hash == j.block_hash) (dvf_error block_hash_mismatch)
  weight ← gets (λ s. lookup vote.validator_account s.epoch_voting_weight)
  ok_or weight (dvf_error invalid_validator)

abbrev pub or_else : Option ℕ → ℕ → Option ℕ
or_else none id = some id
or_else (some x) id = some x

unfoldable pub check_votes :
    Config → DvfJustification → List ℕ → Option ℕ → ℕ → List DvfVote → Action Finality ℕ
check_votes cfg j seen expected accumulated [] s = (ok accumulated, s)
check_votes cfg j seen expected accumulated (v ∷ vs) s =
    let (r, s') = check_vote cfg j seen expected v s in
    elim r [
      | ok weight ↦
          check_votes cfg j (v.validator_account ∷ seen) (or_else expected v.validator_set_id)
            (saturating_add u128_max accumulated weight) vs s'
      | err e ↦ (err e, s')
    ]

-- The checks of a justification whose first vote names the block number.
unfoldable pub verify_votes : Config → DvfJustification → ℕ → Action Finality ⊤
verify_votes cfg j number = do
  ensure (is_checkpoint_block cfg number) (dvf_error non_checkpoint_block)
  finalized ← gets (λ s. s.finalized_block_number)
  ensure (ltb finalized number) (dvf_error block_already_finalized)
  accumulated ← check_votes cfg j [] none 0 j.votes
  total_weight ← gets (λ s. s.total_voting_weight)
  ensure (leb (cfg.finality_threshold total_weight) accumulated) (dvf_error threshold_not_reached)
  finalize_block cfg j.block_hash number j.round_number accumulated

-- A justification with these votes: the first names the block number.
unfoldable pub verify_headed : Config → DvfJustification → List DvfVote → Action Finality ⊤
verify_headed cfg j [] = fail (dvf_error empty_justification)
verify_headed cfg j (v ∷ vs) = verify_votes cfg j v.block_number

unfoldable pub verify_and_finalize_justification : Config → DvfJustification → Action Finality ⊤
unfolding verify_headed
verify_and_finalize_justification cfg j = verify_headed cfg j j.votes

pub submit_justification : Config → Origin → DvfJustification → Action Finality ⊤
submit_justification cfg origin j = do ensure_none origin; verify_and_finalize_justification cfg j
