-- ===== src/Justify/Accepted.antt =====
-- A justification that construct_justification builds is one that verify_justification accepts.
use mathlib.Core.Path.{subst⁻¹}
use cerulea.Common.{
  take, ℕ, suc, ◌≤◌, ◌<◌, ◌≡◌, refl, ap, ◌∙◌, ◌⊎◌, inl, inr, true, false, ◌==◌, List, [], ◌∷◌,
  Option, none, some, Map, lookup, length, is_empty, contains, arith, All, saturating_add, u128_max,
  collect,
}
use cerulea.Dvf.Finality.{or_else}
use cerulea.Gossip.Pool.{DvfVoteMessage, DvfVotePool, get_votes}
use cerulea.Gossip.Validate.{signed_part}
use cerulea.Justify.{
  Node, DvfJustification, built, select_votes, check_duplicates, accumulate,
  construct_justification, check_vote, check_votes, or_else, verify_justification, total_weight,
  with_weights, sort_heavy,
}
use cerulea.Justify.Selected.{
  HasWeight, with_weights-All, sort_heavy-All, take_votes-All, is_empty-sort_heavy,
  is_empty-take_votes, select_votes_lem, take_votes-below,
}

-- What the pool has checked of a vote of a round and a block: the signature and the voter, with the
-- validator set id of the vote.
pub record Sound (node : Node) (active : List ℕ) (round hash id : ℕ) (v : DvfVoteMessage)
    : Type 0 where
  pub signed : node.ed25519_verify (signed_part v) v.signature v.validator_public_key ≡ true
  pub of_set : (v.validator_set_id == id) ≡ true
  pub of_round : (v.round_number == round) ≡ true
  pub of_block : (v.block_hash == hash) ≡ true
  pub is_active : contains active v.validator_account_id ≡ true

-- What a successful construction has shown.
pub record Constructed (node : Node) (pool : DvfVotePool) (round hash : ℕ) (entries : List (ℕ × ℕ))
    (perbill : ℕ → ℕ) (j : DvfJustification) : Type 0 where
  pub selected : select_votes node pool round hash ≡ built j.votes
  pub single : check_duplicates [] j.votes ≡ built tt
  pub round_is : j.round_number ≡ round
  pub hash_is : j.block_hash ≡ hash
  pub enough :
      perbill (total_weight (collect entries [])) ≤ accumulate (collect entries []) 0 j.votes

pub construct_justification-Constructed :
    (node : Node) (pool : DvfVotePool) (round hash : ℕ) (entries : List (ℕ × ℕ)) (perbill : ℕ → ℕ)
    (j : DvfJustification)
    → node.get_validator_weights ≡ some entries
    → node.get_finality_threshold_perbill ≡ some perbill
    → construct_justification node pool round hash ≡ built j
    → Constructed node pool round hash entries perbill j
unfolding construct_justification
construct_justification-Constructed node pool round hash entries perbill j he hp h = record {
  selected = ground (arith, he, hp, h);
  single = ground (arith, he, hp, h);
  round_is = ground (arith, he, hp, h);
  hash_is = ground (arith, he, hp, h);
  enough = ground (arith, he, hp, h);
}

All-unit : (vs : List DvfVoteMessage) → All (λ v. Unit {0}) vs
All-unit [] = tt
All-unit (v ∷ vs) = (tt, All-unit vs)

-- The id that the first vote has fixed, if any.
abbrev pub Fixed : Option ℕ → ℕ → Type 0
Fixed expected id = (expected ≡ none) ⊎ (expected ≡ some id)

pub Fixed-or_else :
    (expected : Option ℕ) (id set : ℕ)
    → Fixed expected id
    → (set == id) ≡ true
    → Fixed (or_else expected set) id
Fixed-or_else none id set h e = inr (ground (arith, e))
Fixed-or_else (some x) id set h e = h

module _ (node : Node) (active : List ℕ) (weights : Map ℕ) (j : DvfJustification) (id : ℕ) where
  check_vote_lem :
      (seen : List ℕ) (expected : Option ℕ) (v : DvfVoteMessage) (w : ℕ)
      → contains seen v.validator_account_id ≡ false
      → Fixed expected id
      → Sound node active j.round_number j.block_hash id v
      → lookup v.validator_account_id weights ≡ some w
      → check_vote node active weights j seen expected v ≡ built w
  unfolding check_vote
  check_vote_lem seen expected v w new f s e =
      ground (arith, new, f, s.signed, s.of_set, s.of_round, s.of_block, s.is_active, e)

  check_votes_lem :
      (seen : List ℕ) (expected : Option ℕ) (acc : ℕ) (vs : List DvfVoteMessage)
      → check_duplicates seen vs ≡ built tt
      → Fixed expected id
      → All (HasWeight (Sound node active j.round_number j.block_hash id) weights) vs
      → check_votes node active weights j seen expected acc vs ≡ built (accumulate weights acc vs)
  unfolding check_votes check_duplicates accumulate
  check_votes_lem seen expected acc [] d f h = refl
  check_votes_lem seen expected acc (v ∷ vs) d f h =
      let (s, (w, e)) = h.0 in
      let one = check_vote_lem seen expected v w (ground (arith, d)) f s e in
      let rest =
        check_votes_lem (v.validator_account_id ∷ seen) (or_else expected v.validator_set_id)
          (saturating_add u128_max acc w) vs (ground (arith, d))
          (Fixed-or_else expected id v.validator_set_id f s.of_set) h.1 in
      ground (arith, one, rest, e)

-- A justification that is built names the round and the block, and holds votes of the pool for them,
-- with weights.
pub construct_justification-All :
    (node : Node) (pool : DvfVotePool) (round hash : ℕ) (entries : List (ℕ × ℕ)) (perbill : ℕ → ℕ)
    (j : DvfJustification) (P : DvfVoteMessage → Type 0)
    → node.get_validator_weights ≡ some entries
    → node.get_finality_threshold_perbill ≡ some perbill
    → Constructed node pool round hash entries perbill j
    → All P (get_votes round hash pool)
    → (is_empty j.votes ≡ false) × All (HasWeight P (collect entries [])) j.votes
construct_justification-All node pool round hash entries perbill j P he hp c h =
    let weights = collect entries [] in
    let threshold = perbill (total_weight weights) in
    let weighted = with_weights weights (get_votes round hash pool) in
    let (some_weighted, taken) =
      select_votes_lem node pool round hash entries perbill j.votes he hp c.selected in
    let sorted = sort_heavy weighted in
    (
      ap is_empty taken
          ∙ is_empty-take_votes threshold 0 sorted (is_empty-sort_heavy weighted ∙ some_weighted),
      subst⁻¹ (All (HasWeight P weights)) taken (
          take_votes-All P weights threshold 0 sorted (
            sort_heavy-All P weights weighted
              (with_weights-All P weights (get_votes round hash pool) h))),
    )

-- A justification that is built is verified, if the votes of the pool for the round and the block are
-- signed, of active validators and of one validator set, and name the round and the block.
pub verify-construct_justification :
    (node : Node) (pool : DvfVotePool) (round hash id : ℕ) (active : List ℕ)
    (entries : List (ℕ × ℕ)) (perbill : ℕ → ℕ) (j : DvfJustification)
    → node.get_validator_set ≡ some active
    → node.get_validator_weights ≡ some entries
    → node.get_finality_threshold_perbill ≡ some perbill
    → All (Sound node active round hash id) (get_votes round hash pool)
    → construct_justification node pool round hash ≡ built j
    → verify_justification node j ≡ built tt
unfolding verify_justification
verify-construct_justification node pool round hash id active entries perbill j ha he hp sound h =
    let c = construct_justification-Constructed node pool round hash entries perbill j he hp h in
    let weights = collect entries [] in
    let (filled, all) =
      construct_justification-All node pool round hash entries perbill j
        (Sound node active round hash id) he hp c sound in
    let here =
      subst⁻¹ (λ r. All (HasWeight (Sound node active r hash id) weights) j.votes) c.round_is all in
    let there =
      subst⁻¹ (λ b. All (HasWeight (Sound node active j.round_number b id) weights) j.votes)
        c.hash_is here in
    let checked =
      check_votes_lem node active weights j id [] none 0 j.votes c.single (inl refl) there in
    ground (arith, ha, he, hp, filled, checked, c.enough)

-- The votes of a justification that is built are no more than are needed: any part of them from the
-- front, but at least one, weighs less than the threshold.
pub construct_justification-take :
    (node : Node) (pool : DvfVotePool) (round hash n : ℕ) (entries : List (ℕ × ℕ)) (perbill : ℕ → ℕ)
    (j : DvfJustification)
    → node.get_validator_weights ≡ some entries
    → node.get_finality_threshold_perbill ≡ some perbill
    → construct_justification node pool round hash ≡ built j
    → suc n < length j.votes
    → accumulate (collect entries []) 0 (take (suc n) j.votes)
      < perbill (total_weight (collect entries []))
construct_justification-take node pool round hash n entries perbill j he hp h k =
    let c = construct_justification-Constructed node pool round hash entries perbill j he hp h in
    let weights = collect entries [] in
    let threshold = perbill (total_weight weights) in
    let weighted = with_weights weights (get_votes round hash pool) in
    let (_, taken) =
      select_votes_lem node pool round hash entries perbill j.votes he hp c.selected in
    let trivial : (vs : List DvfVoteMessage) → All (λ v. Unit {0}) vs = All-unit in
    subst⁻¹ (λ vs. suc n < length vs → accumulate weights 0 (take (suc n) vs) < threshold) taken
      (take_votes-below weights threshold 0 n (sort_heavy weighted) (
        sort_heavy-All (λ v. Unit {0}) weights weighted
          (with_weights-All (λ v. Unit {0}) weights (get_votes round hash pool)
            (trivial (get_votes round hash pool)))))
      k
