-- ===== src/Justify/OnChain.antt =====
-- The justification that cerulea-node/src/cerulea-consensus/src/vote_aggregator.rs sends to the
-- finality pallet, and what the pallet makes of it.
use mathlib.Core.Path.{subst⁻¹}
use cerulea.Common.{
  ℕ, ◌≤◌, ◌<◌, ◌≡◌, refl, ap, ◌∙◌, inl, true, false, ◌==◌, List, [], ◌∷◌, map, Option, none, some,
  Map, lookup, is_empty, contains, arith, All, saturating_add, u128_max, collect,
}
use cerulea.Frame.Action.{ok, Result, Action}
use cerulea.Gossip.Pool.{DvfVoteMessage, DvfVotePool, get_votes}
use cerulea.Dvf.State
use cerulea.Dvf.State.{DvfVote, Config, Finality}
use cerulea.Dvf.Finality
use cerulea.Dvf.Finality.{or_else, verify_and_finalize_justification, is_checkpoint_block}
use cerulea.Justify.{
  Node, DvfJustification, built, check_duplicates, accumulate, construct_justification,
  total_weight,
}
use cerulea.Justify.Selected.{HasWeight}
use cerulea.Justify.Accepted.{
  construct_justification-Constructed, construct_justification-All, Fixed, Fixed-or_else,
}

unfoldable pub to_pallet_vote : DvfVoteMessage → DvfVote
to_pallet_vote v = record {
  payload = record {
    epoch_id = v.epoch_id;
    validator_set_id = v.validator_set_id;
    round_id = v.round_number;
    block_number = v.block_number;
    block_hash = v.block_hash;
    validator_account = v.validator_account_id;
  };
  signature = v.signature;
}

unfoldable pub to_pallet : DvfJustification → State.DvfJustification
to_pallet j = record {
  round_number = j.round_number;
  block_hash = j.block_hash;
  votes = map to_pallet_vote j.votes;
}

-- What the pallet asks of a vote: the signature is one of the account that it names, and the vote is
-- for the round, the block and the validator set.
pub record Signed (cfg : Config) (round hash number id : ℕ) (v : DvfVoteMessage) : Type 0 where
  pub by_account : cfg.verify (to_pallet_vote v).payload v.validator_account_id v.signature ≡ true
  pub of_set : (v.validator_set_id == id) ≡ true
  pub of_round : (v.round_number == round) ≡ true
  pub of_block : (v.block_hash == hash) ≡ true
  pub of_number : v.block_number ≡ number

module _ (cfg : Config) (weights : Map ℕ) (s : Finality)
    (agree : (a : ℕ) → lookup a s.epoch_voting_weight ≡ lookup a weights)
    (j : State.DvfJustification) (number id : ℕ) where
  pallet_vote_lem :
      (seen : List ℕ) (expected : Option ℕ) (v : DvfVoteMessage) (w : ℕ)
      → contains seen v.validator_account_id ≡ false
      → Fixed expected id
      → Signed cfg j.round_number j.block_hash number id v
      → lookup v.validator_account_id weights ≡ some w
      → Finality.check_vote cfg j seen expected (to_pallet_vote v) s ≡ (ok w, s)
  unfolding Finality.check_vote to_pallet_vote
  pallet_vote_lem seen expected v w new f g e = ground (
    arith,
    new,
    f,
    g.by_account,
    g.of_set,
    g.of_round,
    g.of_block,
    e,
    agree v.validator_account_id,
  )

  pallet_votes_lem :
      (seen : List ℕ) (expected : Option ℕ) (acc : ℕ) (vs : List DvfVoteMessage)
      → check_duplicates seen vs ≡ built tt
      → Fixed expected id
      → All (HasWeight (Signed cfg j.round_number j.block_hash number id) weights) vs
      → Finality.check_votes cfg j seen expected acc (map to_pallet_vote vs) s
        ≡ (ok (accumulate weights acc vs), s)
  unfolding Finality.check_votes check_duplicates accumulate to_pallet_vote
  pallet_votes_lem seen expected acc [] d f h = refl
  pallet_votes_lem seen expected acc (v ∷ vs) d f h =
      let (g, (w, e)) = h.0 in
      let one = pallet_vote_lem seen expected v w (ground (arith, d)) f g e in
      let rest =
        pallet_votes_lem (v.validator_account_id ∷ seen) (or_else expected v.validator_set_id)
          (saturating_add u128_max acc w) vs (ground (arith, d))
          (Fixed-or_else expected id v.validator_set_id f g.of_set) h.1 in
      ground (arith, one, rest, e)

  -- The checks of the pallet on a justification with these votes, whose first names the number.
  verify_votes_lem :
      (vs : List DvfVoteMessage)
      → j.votes ≡ map to_pallet_vote vs
      → check_duplicates [] vs ≡ built tt
      → All (HasWeight (Signed cfg j.round_number j.block_hash number id) weights) vs
      → is_checkpoint_block cfg number ≡ true
      → s.finalized_block_number < number
      → cfg.finality_threshold s.total_voting_weight ≤ accumulate weights 0 vs
      → Finality.verify_votes cfg j number s
        ≡ Finality.finalize_block cfg j.block_hash number j.round_number (accumulate weights 0 vs) s
  unfolding Finality.verify_votes
  verify_votes_lem vs e d h check newer enough =
      let counted = pallet_votes_lem [] none 0 vs d (inl refl) h in
      let at : Finality.check_votes cfg j [] none 0 j.votes s ≡ (ok (accumulate weights 0 vs), s) =
        ap (λ xs. Finality.check_votes cfg j [] none 0 xs s) e ∙ counted in
      ground (arith, at, check, newer, enough)

finalize_block_lem :
    (cfg : Config) (hash number round weight : ℕ) (s : Finality)
    → ((Finality.finalize_block cfg hash number round weight s).0 ≡ ok tt)
      × ((Finality.finalize_block cfg hash number round weight s).1.finalized_block_number ≡ number)
      × ((Finality.finalize_block cfg hash number round weight s).1.finalized_block_hash
          ≡ some hash)
unfolding Finality.finalize_block Finality.prune_vote_records
finalize_block_lem cfg hash number round weight s = (ground arith, ground arith, ground arith)

headed_lem :
    (cfg : Config) (weights : Map ℕ) (j : State.DvfJustification) (round hash number id : ℕ)
    (vs : List DvfVoteMessage)
    → is_empty vs ≡ false
    → All (HasWeight (Signed cfg round hash number id) weights) vs
    → Finality.verify_headed cfg j (map to_pallet_vote vs) ≡ Finality.verify_votes cfg j number
unfolding Finality.verify_headed to_pallet_vote
headed_lem cfg weights j round hash number id [] e h = absurd (ground (arith, e))
headed_lem cfg weights j round hash number id (v ∷ vs) e h =
    ap (Finality.verify_votes cfg j) h.0.0.of_number

-- The finality pallet accepts a justification that is built, and finalizes its block, if the votes of
-- the pool for it are signed by the accounts that they name, for one validator set and one block
-- number, a checkpoint above the finalized head, and if the pallet holds the weights and at most the
-- threshold that the runtime answers.
pub submit-construct_justification :
    (node : Node) (pool : DvfVotePool) (round hash number id : ℕ) (entries : List (ℕ × ℕ))
    (perbill : ℕ → ℕ) (j : DvfJustification) (cfg : Config) (s : Finality)
    → node.get_validator_weights ≡ some entries
    → node.get_finality_threshold_perbill ≡ some perbill
    → All (Signed cfg round hash number id) (get_votes round hash pool)
    → ((a : ℕ) → lookup a s.epoch_voting_weight ≡ lookup a (collect entries []))
    → cfg.finality_threshold s.total_voting_weight ≤ perbill (total_weight (collect entries []))
    → is_checkpoint_block cfg number ≡ true
    → s.finalized_block_number < number
    → construct_justification node pool round hash ≡ built j
    → ((verify_and_finalize_justification cfg (to_pallet j) s).0 ≡ ok tt)
      × ((verify_and_finalize_justification cfg (to_pallet j) s).1.finalized_block_number ≡ number)
      × ((verify_and_finalize_justification cfg (to_pallet j) s).1.finalized_block_hash
          ≡ some j.block_hash)
unfolding verify_and_finalize_justification to_pallet
submit-construct_justification node pool round hash number id entries perbill j cfg s he hp signed
      agree threshold check newer h =
    let c = construct_justification-Constructed node pool round hash entries perbill j he hp h in
    let weights = collect entries [] in
    let (filled, all) =
      construct_justification-All node pool round hash entries perbill j
        (Signed cfg round hash number id) he hp c signed in
    let here =
      subst⁻¹ (λ r. All (HasWeight (Signed cfg r hash number id) weights) j.votes) c.round_is all in
    let there =
      subst⁻¹ (λ b. All (HasWeight (Signed cfg j.round_number b number id) weights) j.votes)
        c.hash_is here in
    let sent = to_pallet j in
    let weight = accumulate weights 0 j.votes in
    let head =
      headed_lem cfg weights sent j.round_number j.block_hash number id j.votes filled there in
    let passed =
      verify_votes_lem cfg weights s agree sent number id j.votes refl c.single there check newer
        (omega (arith, c.enough, threshold)) in
    subst⁻¹
      (λ (r : Result (Unit {0}) × Finality).
        (r.0 ≡ ok tt)
        × (r.1.finalized_block_number ≡ number)
        × (r.1.finalized_block_hash ≡ some j.block_hash))
      (ap (λ (m : Action Finality (Unit {0})). m s) head ∙ passed)
      (finalize_block_lem cfg j.block_hash number j.round_number weight s)
