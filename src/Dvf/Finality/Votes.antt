-- ===== src/Dvf/Finality/Votes.antt =====
-- Single votes in pallet-cerulea-dvf: one vote per validator and round, and where the tally of a
-- block outlives the round.
use native.Mathlib.Nat.{div-add-mod}
use cerulea.Common.{
  if◌then◌else◌, ℕ, ◌+◌, ◌*◌, ◌/◌, ◌%◌, ◌≤◌, ◌<◌, ◌≡◌, ap, ◌∙◌, true, false, List, [], ◌∷◌, some,
  none, arith, ◌==◌, lookup, get, insert, lookup-insert, min, u32_max, u128_max, saturating_add,
}
use cerulea.Frame.Errors.{dvf_error, double_vote}
use cerulea.Frame.Action.{signed, unsigned, ok, err}
use cerulea.Dvf.State.{DvfVote, DvfJustification, Config, Finality}
use cerulea.Dvf.Finality.{
  is_signed, is_checkpoint_block, vote_record, insert_vote_record, finalize_block,
  prune_vote_records, submit_dvf_vote, submit_justification, get_finality_info,
}
use cerulea.Dvf.Finality.Justified.{justification-Passed}
use cerulea.Dvf.Finality.Head.{finalize_block_head}

-- A vote that may be counted: signed, by a weighted validator, for a checkpoint above the head.
pub record Eligible (cfg : Config) (v : DvfVote) (w : ℕ) (s : Finality) : Type 0 where
  pub signature_valid : is_signed cfg v ≡ true
  pub weighted : lookup v.validator_account s.epoch_voting_weight ≡ some w
  pub checkpoint : is_checkpoint_block cfg v.block_number ≡ true
  pub newer : s.finalized_block_number < v.block_number

-- The tally after a vote.
abbrev pub tally_with : DvfVote → ℕ → Finality → ℕ
tally_with v w s = saturating_add u128_max (get 0 v.block_hash s.vote_tallies) w

-- The state after a vote that does not reach the threshold.
abbrev pub counted : DvfVote → ℕ → Finality → Finality
counted v w s = record (insert_vote_record s.current_round v s) {
  vote_tallies = insert v.block_hash (tally_with v w s) s.vote_tallies;
}

-- An eligible vote of a validator with no record in the current round is counted, whatever round the vote
-- itself names: short of the threshold it is recorded under the current round and its weight
-- added to the tally of its block.
pub submit_dvf_vote_counts :
    (cfg : Config) (who : ℕ) (v : DvfVote) (w : ℕ) (s : Finality)
    → Eligible cfg v w s
    → vote_record s.current_round v.validator_account s ≡ none
    → tally_with v w s < cfg.finality_threshold s.total_voting_weight
    → submit_dvf_vote cfg (signed who) v s ≡ (ok tt, counted v w s)
unfolding submit_dvf_vote insert_vote_record
submit_dvf_vote_counts cfg who v w s el fresh short = ground arith

-- An eligible vote that takes the tally of its block to the threshold finalizes the block: head
-- and hash are those of the vote, and the next round begins.
submit_dvf_vote_finalizes :
    (cfg : Config) (who : ℕ) (v : DvfVote) (w : ℕ) (s : Finality)
    → Eligible cfg v w s
    → vote_record s.current_round v.validator_account s ≡ none
    → cfg.finality_threshold s.total_voting_weight ≤ tally_with v w s
    → let (r, s') = submit_dvf_vote cfg (signed who) v s in
      (r ≡ ok tt)
      × (s'.finalized_block_number ≡ v.block_number)
      × (s'.finalized_block_hash ≡ some v.block_hash)
      × (s'.current_round ≡ min (s.current_round + 1) u32_max)
unfolding submit_dvf_vote insert_vote_record finalize_block prune_vote_records
submit_dvf_vote_finalizes cfg who v w s el fresh reached = ground arith

pub submit_dvf_vote_recorded :
    (cfg : Config) (who : ℕ) (v old : DvfVote) (w : ℕ) (s : Finality)
    → Eligible cfg v w s
    → vote_record s.current_round v.validator_account s ≡ some old
    → submit_dvf_vote cfg (signed who) v s ≡ (err (dvf_error double_vote), s)
unfolding submit_dvf_vote
submit_dvf_vote_recorded cfg who v old w s el h = ground arith

pub vote_record-insert :
    (round account : ℕ) (v : DvfVote) (s : Finality)
    → vote_record round account (insert_vote_record round v s)
      ≡ (if v.validator_account == account then some v else vote_record round account s)
unfolding insert_vote_record
vote_record-insert round account v s = ground (
  arith,
  lookup-insert round round (insert v.validator_account v (get [] round s.vote_records))
      s.vote_records,
  lookup-insert v.validator_account account v (get [] round s.vote_records),
)

pub Eligible-counted :
    (cfg : Config) (v u : DvfVote) (w x : ℕ) (s : Finality)
    → Eligible cfg u x s
    → Eligible cfg u x (counted v w s)
unfolding insert_vote_record
Eligible-counted cfg v u w x s el = record {
  signature_valid = el.signature_valid;
  weighted = el.weighted;
  checkpoint = el.checkpoint;
  newer = el.newer;
}

-- A justification that is accepted sets the current round to the one after the round that it
-- names and the head to the block number of its first vote, whatever the current round is and
-- whatever numbers the other votes name.
submit_justification_sets :
    (cfg : Config) (j : DvfJustification) (s : Finality)
    → (submit_justification cfg unsigned j s).0 ≡ ok tt
    → let s' = (submit_justification cfg unsigned j s).1 in
      (s'.current_round ≡ min (j.round_number + 1) u32_max)
      × (s'.finalized_block_hash ≡ some j.block_hash)
      × ((v : DvfVote) × (vs : List DvfVote) × (j.votes ≡ v ∷ vs)
          × (s'.finalized_block_number ≡ v.block_number))
unfolding submit_justification
submit_justification_sets cfg j s h =
    let (v, vs, e, p, same) = justification-Passed cfg j s h in
    let (head, hash, round) =
      finalize_block_head cfg j.block_hash v.block_number j.round_number p.weight s in
    let r = same ∙ p.result in
    (
      ap (λ x. x.1.current_round) r ∙ round,
      ap (λ x. x.1.finalized_block_hash) r ∙ hash,
      (v, vs, e, ap (λ x. x.1.finalized_block_number) r ∙ head),
    )

-- For a finalized block that is no checkpoint, the checkpoint that is reported to provide its finality lies
-- below the block.
pub get_finality_info_below :
    (cfg : Config) (n : ℕ) (s : Finality)
    → n ≤ s.finalized_block_number
    → 0 < cfg.finality_checkpoint_interval
    → is_checkpoint_block cfg n ≡ false
    → (c : ℕ) × ((get_finality_info cfg n s).finalized_by_checkpoint ≡ some c) × (c < n)
unfolding get_finality_info is_checkpoint_block
get_finality_info_below cfg n s h pos off =
    let rest : 0 < n % cfg.finality_checkpoint_interval = ground arith in
    (
      n / cfg.finality_checkpoint_interval * cfg.finality_checkpoint_interval,
      ground arith,
      omega (arith, div-add-mod n cfg.finality_checkpoint_interval, rest),
    )
