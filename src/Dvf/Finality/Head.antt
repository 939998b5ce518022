-- ===== src/Dvf/Finality/Head.antt =====
-- The finalized head of pallet-cerulea-dvf over any sequence of votes, justifications, new epochs
-- and blocks.
use cerulea.Common.{
  [], ◌∷◌, ◌∙◌, ℕ, ◌+◌, ◌<◌, ◌≡◌, refl, ap, ◌⊎◌, inl, inr, true, List, some, none, arith, min,
  u32_max,
}
use cerulea.Frame.Errors.{DispatchError}
use cerulea.Frame.Action.{Origin, root, signed, unsigned, Result-cases, err}
use cerulea.Dvf.State.{DvfVote, DvfJustification, Config, Finality}
use cerulea.Dvf.Finality.{
  is_checkpoint_block, finalize_block, submit_dvf_vote, submit_justification, prune_vote_records,
  verify_and_finalize_justification, verify_headed, verify_votes,
}
use cerulea.Dvf.Finality.Justified.{verify_votes-Passed, check_votes_state}
use cerulea.Dvf.Weights.{Entry, freeze_epoch_weights}
use cerulea.Dvf.Weights.Total.{freeze_epoch_weights_head}

pub finalize_block_head :
    (cfg : Config) (hash number round weight : ℕ) (s : Finality)
    → let s' = (finalize_block cfg hash number round weight s).1 in
      (s'.finalized_block_number ≡ number)
      × (s'.finalized_block_hash ≡ some hash)
      × (s'.current_round ≡ min (round + 1) u32_max)
unfolding finalize_block prune_vote_records
finalize_block_head cfg hash number round weight s = ground arith

-- A call leaves the head, or moves it up to a checkpoint block.
abbrev pub Advances : Config → Finality → Finality → Type 0
Advances cfg s t =
    (t.finalized_block_number ≡ s.finalized_block_number)
    ⊎ ((s.finalized_block_number < t.finalized_block_number)
        × (is_checkpoint_block cfg t.finalized_block_number ≡ true))

submit_dvf_vote-Advances :
    (cfg : Config) (o : Origin) (v : DvfVote) (s : Finality)
    → Advances cfg s (submit_dvf_vote cfg o v s).1
unfolding submit_dvf_vote finalize_block prune_vote_records
submit_dvf_vote-Advances cfg o v s = ground arith

-- A justification that is refused changes nothing.
pub verify_votes_refused :
    (cfg : Config) (j : DvfJustification) (n : ℕ) (s : Finality) (e : DispatchError)
    → (verify_votes cfg j n s).0 ≡ err e
    → (verify_votes cfg j n s).1 ≡ s
unfolding verify_votes finalize_block
verify_votes_refused cfg j n s e h = ground (arith, check_votes_state cfg j [] none 0 j.votes s)

verify_votes-Advances :
    (cfg : Config) (j : DvfJustification) (n : ℕ) (s : Finality)
    → Advances cfg s (verify_votes cfg j n s).1
verify_votes-Advances cfg j n s = elim (Result-cases (verify_votes cfg j n s).0) [
  | inl (x, h) ↦
      let p = verify_votes-Passed cfg j n s h in
      let (head, _, _) = finalize_block_head cfg j.block_hash n j.round_number p.weight s in
      let e : (verify_votes cfg j n s).1.finalized_block_number ≡ n =
        ap (λ r. r.1.finalized_block_number) p.result ∙ head in
      inr (omega (arith, e, p.newer), ap (is_checkpoint_block cfg) e ∙ p.checkpoint)
  | inr (x, h) ↦
      inl (ap (λ (t : Finality). t.finalized_block_number) (verify_votes_refused cfg j n s x h))
]

submit_justification-Advances :
    (cfg : Config) (o : Origin) (j : DvfJustification) (s : Finality)
    → Advances cfg s (submit_justification cfg o j s).1
unfolding submit_justification verify_and_finalize_justification
submit_justification-Advances cfg root j s = inl refl
submit_justification-Advances cfg (signed who) j s = inl refl
submit_justification-Advances cfg unsigned j s = headed j.votes
  where
    headed : (vs : List DvfVote) → Advances cfg s (verify_headed cfg j vs s).1
    headed [] = inl refl
    headed (v ∷ vs) = verify_votes-Advances cfg j v.block_number s

-- One step of the chain's finality part: a call, new weights, or a new block.
pub data Step (cfg : Config) (s : Finality) : Finality → Type 0 where
  votes : (o : Origin) (v : DvfVote) → Step cfg s (submit_dvf_vote cfg o v s).1
  justifies : (o : Origin) (j : DvfJustification) → Step cfg s (submit_justification cfg o j s).1
  freezes : (epoch : ℕ) (es : List Entry) → Step cfg s (freeze_epoch_weights cfg epoch es s).1
  begins : (n : ℕ) → Step cfg s (record s { block_number = n })

pub data Reach (cfg : Config) (s : Finality) : Finality → Type 0 where
  here : Reach cfg s s
  next : {t u : Finality} → Reach cfg s t → Step cfg t u → Reach cfg s u

Step-Advances : (cfg : Config) {s t : Finality} → Step cfg s t → Advances cfg s t
Step-Advances cfg {s} (votes o v) = submit_dvf_vote-Advances cfg o v s
Step-Advances cfg {s} (justifies o j) = submit_justification-Advances cfg o j s
Step-Advances cfg {s} (freezes epoch es) = inl (freeze_epoch_weights_head cfg epoch es s)
Step-Advances cfg (begins n) = inl refl

-- Over any sequence of steps the finalized head only moves up, and where it has moved it is a
-- checkpoint block.
pub Reach-Advances : (cfg : Config) {s t : Finality} → Reach cfg s t → Advances cfg s t
Reach-Advances cfg here = inl refl
Reach-Advances cfg (next r st) = ground (arith, Reach-Advances cfg r, Step-Advances cfg st)
