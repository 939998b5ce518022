-- ===== src/Dvf/Finality/Recount.antt =====
-- What a new round leaves of the tallies in pallet-cerulea-dvf: a vote that is counted again.
use mathlib.Core.Path.{subst⁻¹}
use cerulea.Common.{
  ⊤, ℕ, ◌+◌, ◌≤◌, ◌<◌, ◌≡◌, ap, ◌∙◌, ◌⊎◌, inl, inr, false, [], some, none, arith, ◌==◌, Map, lookup,
  get, insert, erase, lookup-insert, lookup-erase, Bool-cases, zero, suc, ltb, ◌-◌, min, u32_max,
  u128_max,
}
use cerulea.Frame.Action.{signed, Result}
use cerulea.Dvf.State.{DvfVote, Config, Finality}
use cerulea.Dvf.Finality.{
  clear_rounds, vote_record, insert_vote_record, finalize_block, prune_vote_records,
  submit_dvf_vote,
}
use cerulea.Dvf.Finality.Votes.{
  Eligible, Eligible-counted, tally_with, counted, submit_dvf_vote_counts, vote_record-insert,
}

clear_rounds-absent :
    (n round account : ℕ) (m : Map (Map DvfVote))
    → lookup account (get [] round m) ≡ none
    → lookup account (get [] round (clear_rounds n m)) ≡ none
unfolding clear_rounds
clear_rounds-absent zero round account m h = h
clear_rounds-absent (suc n) round account m h =
    ground (arith, clear_rounds-absent n round account m h, lookup-erase n round (clear_rounds n m))

-- A vote that finalizes its block: the head, the next round, and what it leaves.
module _ (cfg : Config) (who : ℕ) (u : DvfVote) (x : ℕ) (s : Finality) (el : Eligible cfg u x s)
    (fresh : vote_record s.current_round u.validator_account s ≡ none)
    (reached : cfg.finality_threshold s.total_voting_weight ≤ tally_with u x s) where
  finalizing_parts :
      let s' = (submit_dvf_vote cfg (signed who) u s).1 in
      (s'.finalized_block_number ≡ u.block_number)
      × (s'.finalized_block_hash ≡ some u.block_hash)
      × (s'.current_round ≡ min (s.current_round + 1) u32_max)
      × (s'.epoch_voting_weight ≡ s.epoch_voting_weight)
      × (s'.total_voting_weight ≡ s.total_voting_weight)
      × (s'.vote_tallies
          ≡ erase u.block_hash (insert u.block_hash (tally_with u x s) s.vote_tallies))
  unfolding submit_dvf_vote insert_vote_record finalize_block prune_vote_records
  finalizing_parts = ground arith

  finalizing_records :
      let s' = (submit_dvf_vote cfg (signed who) u s).1 in
      (s'.vote_records ≡ (insert_vote_record s.current_round u s).vote_records)
      ⊎ ((n : ℕ) × (s'.vote_records
            ≡ clear_rounds n (insert_vote_record s.current_round u s).vote_records))
  unfolding submit_dvf_vote insert_vote_record finalize_block prune_vote_records
  finalizing_records = elim (Bool-cases (ltb cfg.vote_retention_rounds s.current_round)) [
    | inl e ↦ inr (s.current_round - cfg.vote_retention_rounds, ground arith)
    | inr e ↦ inl (ground arith)
  ]

-- Validator `v` votes for a block, and another vote `u` finalizes an earlier block.
module _ (cfg : Config) (who who' : ℕ) (v u : DvfVote) (w x : ℕ) (s : Finality)
    (el : Eligible cfg v w s) (fresh : vote_record s.current_round v.validator_account s ≡ none)
    (unused : vote_record (s.current_round + 1) v.validator_account s ≡ none)
    (el' : Eligible cfg u x s) (fresh' : vote_record s.current_round u.validator_account s ≡ none)
    (distinct : (v.validator_account == u.validator_account) ≡ false)
    (apart : (u.block_hash == v.block_hash) ≡ false) (earlier : u.block_number < v.block_number)
    (reached : cfg.finality_threshold s.total_voting_weight ≤ tally_with u x s)
    (small : s.current_round + 1 < u32_max)
    (fits : get 0 v.block_hash s.vote_tallies + w + w ≤ u128_max)
    (short : get 0 v.block_hash s.vote_tallies + w + w
      < cfg.finality_threshold s.total_voting_weight) where
  abbrev after_v : Finality
  after_v = counted v w s

  abbrev after_u : Finality
  after_u = (submit_dvf_vote cfg (signed who') u after_v).1

  u_fresh : vote_record s.current_round u.validator_account after_v ≡ none
  u_fresh =
      ground (arith, fresh', distinct, vote_record-insert s.current_round u.validator_account v s)

  tally_u : tally_with u x after_v ≡ tally_with u x s
  tally_u =
      ground
        (arith, apart, lookup-insert v.block_hash u.block_hash (tally_with v w s) s.vote_tallies)

  tally_v : get 0 v.block_hash after_v.vote_tallies ≡ get 0 v.block_hash s.vote_tallies + w
  tally_v =
      ground
        (arith, fits, lookup-insert v.block_hash v.block_hash (tally_with v w s) s.vote_tallies)

  el_u : Eligible cfg u x after_v
  el_u = Eligible-counted cfg v u w x s el'

  reached_u : cfg.finality_threshold after_v.total_voting_weight ≤ tally_with u x after_v
  unfolding insert_vote_record
  reached_u = omega (arith, reached, tally_u)

  u_parts :
      (after_u.finalized_block_number ≡ u.block_number)
      × (after_u.finalized_block_hash ≡ some u.block_hash)
      × (after_u.current_round ≡ s.current_round + 1)
      × (after_u.epoch_voting_weight ≡ s.epoch_voting_weight)
      × (after_u.total_voting_weight ≡ s.total_voting_weight)
      × (get 0 v.block_hash after_u.vote_tallies ≡ get 0 v.block_hash s.vote_tallies + w)
  unfolding insert_vote_record
  u_parts =
      let (number, hash, round, weights, total, tallies) =
        finalizing_parts cfg who' u x after_v el_u u_fresh reached_u in
      let t = tally_with u x after_v in
      (
        number,
        hash,
        omega (arith, round, small),
        weights,
        total,
        ap (get 0 v.block_hash) tallies
            ∙ ground (
              arith,
              apart,
              tally_v,
              lookup-erase u.block_hash v.block_hash (insert u.block_hash t after_v.vote_tallies),
              lookup-insert u.block_hash v.block_hash t after_v.vote_tallies,
            ),
      )

  unused_v :
      lookup v.validator_account
        (get [] (s.current_round + 1) (insert_vote_record s.current_round u after_v).vote_records)
      ≡ none
  unfolding insert_vote_record
  unused_v = ground (
    arith,
    unused,
    lookup-insert s.current_round (s.current_round + 1)
        (insert v.validator_account v (get [] s.current_round s.vote_records)) s.vote_records,
    lookup-insert s.current_round (s.current_round + 1)
        (insert u.validator_account u (get [] s.current_round after_v.vote_records))
        after_v.vote_records,
  )

  v_fresh : vote_record after_u.current_round v.validator_account after_u ≡ none
  unfolding insert_vote_record
  v_fresh =
      let r = s.current_round + 1 in
      ap (λ n. vote_record n v.validator_account after_u) u_parts.2
      ∙ elim (finalizing_records cfg who' u x after_v el_u u_fresh reached_u) [
        | inl same ↦ ap (λ m. lookup v.validator_account (get [] r m)) same ∙ unused_v
        | inr (n, cleared) ↦
            ap (λ m. lookup v.validator_account (get [] r m)) cleared
            ∙ clear_rounds-absent n r v.validator_account
                (insert_vote_record s.current_round u after_v).vote_records unused_v
      ]

  el_v : Eligible cfg v w after_u
  el_v = record {
    signature_valid = el.signature_valid;
    weighted = ap (lookup v.validator_account) (u_parts.3) ∙ el.weighted;
    checkpoint = el.checkpoint;
    newer = omega (arith, u_parts.0, earlier);
  }

  again :
      get 0 v.block_hash (submit_dvf_vote cfg (signed who) v after_u).1.vote_tallies
      ≡ get 0 v.block_hash s.vote_tallies + w + w
  again =
      let tally = u_parts.5 in
      let short' : tally_with v w after_u < cfg.finality_threshold after_u.total_voting_weight =
        ground (arith, tally, short, u_parts.4, fits) in
      ap (λ (r : Result ⊤ × Finality). get 0 v.block_hash r.1.vote_tallies)
        (submit_dvf_vote_counts cfg who v w after_u el_v v_fresh short')
      ∙ ground (
        arith,
        tally,
        fits,
        lookup-insert v.block_hash v.block_hash (tally_with v w after_u) after_u.vote_tallies,
      )

  -- The tally of a block is not tied to the round: after a vote is counted, a vote of another
  -- validator finalizes an earlier block, and the first vote is sent again. It is counted a second
  -- time, and the tally of its block holds twice its weight on top of what it was.
  pub submit_dvf_vote_next_round :
      let s1 = (submit_dvf_vote cfg (signed who) v s).1 in
      let s2 = (submit_dvf_vote cfg (signed who') u s1).1 in
      let s3 = (submit_dvf_vote cfg (signed who) v s2).1 in
      (s2.finalized_block_hash ≡ some u.block_hash)
      × (get 0 v.block_hash s3.vote_tallies ≡ get 0 v.block_hash s.vote_tallies + w + w)
  submit_dvf_vote_next_round =
      let first : (submit_dvf_vote cfg (signed who) v s).1 ≡ after_v =
        ap (λ (r : Result ⊤ × Finality). r.1)
          (submit_dvf_vote_counts cfg who v w s el fresh (omega (arith, short))) in
      subst⁻¹
        (λ s1.
          let s2 = (submit_dvf_vote cfg (signed who') u s1).1 in
          let s3 = (submit_dvf_vote cfg (signed who) v s2).1 in
          (s2.finalized_block_hash ≡ some u.block_hash)
          × (get 0 v.block_hash s3.vote_tallies ≡ get 0 v.block_hash s.vote_tallies + w + w))
        first (u_parts.1, again)
