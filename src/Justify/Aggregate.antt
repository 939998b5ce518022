-- ===== src/Justify/Aggregate.antt =====
-- cerulea-node/src/cerulea-consensus/src/vote_aggregator.rs: the check that looks for a block whose
-- votes reach the threshold and triggers its justification, and the pruning of the pool. The answers
-- of the client are parameters; logging, metrics and the sending of the extrinsic are left out.
pub mod Once
mod Tests
use cerulea.Common.{
  ℕ, ◌+◌, ◌%◌, ◌^◌, max, Bool, true, false, not, ◌&&◌, ◌||◌, List, [], ◌∷◌, Option, none, some,
  if◌then◌else◌, leb, ltb, ◌==◌, Map, collect, map_total, is_empty, retain,
}
use cerulea.Gossip.Pool.{
  DvfVotePool, get_votes, get_candidate_blocks, prune_by_round_age, prune_by_finalized_block,
  enforce_max_size,
}
use cerulea.Dvf.State
use cerulea.Justify.{
  Node, DvfJustification, BuildError, Built, built, failed, answer, runtime_api_failed, no_votes,
  finality_refused, accumulate, construct_justification, ◌>>=◌,
}
use cerulea.Justify.OnChain.{to_pallet}

-- What the service keeps.
pub record Aggregator : Type 0 where
  pub last_finalized_round : ℕ
  pub last_triggered_block : ℕ

-- What the client answers, `none` where a call fails: the number of a block by its hash, and whether
-- it takes a justification for a block and finalizes it.
pub record View : Type 0 where
  pub get_current_round : Option ℕ
  pub get_dvf_finalized_block : Option ℕ
  pub header : ℕ → Option ℕ
  pub apply_finality : ℕ → DvfJustification → Bool

unfoldable pub calculate_accumulated_weight : Node → DvfVotePool → ℕ → ℕ → Built ℕ
calculate_accumulated_weight node pool round block_hash =
    answer node.get_validator_weights >>= λ entries.
    built (accumulate (collect entries []) 0 (get_votes round block_hash pool))

-- Whether a block is known and above a number.
unfoldable pub is_above : View → ℕ → ℕ → Bool
is_above view n block_hash = elim (view.header block_hash) [
  | none ↦ false
  | some number ↦ ltb n number
]

-- The loop over the candidates: the heaviest so far that reaches the threshold, with its weight.
unfoldable pub best_candidate :
    Node → DvfVotePool → ℕ → ℕ → List ℕ → Option ℕ → ℕ → Built (Option ℕ × ℕ)
unfolding calculate_accumulated_weight
best_candidate node pool round threshold [] best best_weight = built (best, best_weight)
best_candidate node pool round threshold (h ∷ hs) best best_weight =
    calculate_accumulated_weight node pool round h >>= λ weight.
    let better = leb threshold weight && ltb best_weight weight in
    best_candidate node pool round threshold hs (if better then some h else best)
      (if better then weight else best_weight)

-- The justification that is sent to the pallet.
unfoldable pub trigger_justification_construction :
    Node → View → DvfVotePool → ℕ → ℕ → Built State.DvfJustification
trigger_justification_construction node view pool round block_hash =
    construct_justification node pool round block_hash >>= λ j.
    if is_empty j.votes
    then failed no_votes
    else if view.apply_finality block_hash j
    then built (to_pallet j)
    else failed finality_refused

-- A check that triggers a block returns its hash and the outcome.
abbrev pub Triggered : Type 0
Triggered = Option (ℕ × Built State.DvfJustification)

-- The end of the check for the chosen block.
unfoldable pub trigger :
    Node → View → DvfVotePool → ℕ → ℕ → ℕ → Aggregator → Built Triggered × Aggregator
unfolding trigger_justification_construction
trigger node view pool round finalized block_hash a = elim (view.header block_hash) [
  | none ↦ (failed runtime_api_failed, a)
  | some number ↦
      let marked : Aggregator = record a {
        last_triggered_block = max number a.last_triggered_block;
      } in
      if leb number a.last_triggered_block || leb number finalized
      then (built none, a)
      else elim (trigger_justification_construction node view pool round block_hash) [
        | failed e ↦ (built (some (block_hash, failed e)), marked)
        | built j ↦
            (built (some (block_hash, built j)), record marked { last_finalized_round = round })
      ]
]

unfoldable pub check_vote_accumulation :
    Node → View → DvfVotePool → Aggregator → Built Triggered × Aggregator
unfolding is_above best_candidate trigger
check_vote_accumulation node view pool a = elim (view.get_current_round) [
  | none ↦ (failed runtime_api_failed, a)
  | some round ↦ elim (view.get_dvf_finalized_block) [
    | none ↦ (failed runtime_api_failed, a)
    | some finalized ↦
        let candidates =
          retain (λ h. is_above view a.last_triggered_block h && is_above view finalized h)
            (get_candidate_blocks round pool) in
        if is_empty candidates
        then (built none, a)
        else elim (node.get_finality_threshold_perbill) [
          | none ↦ (failed runtime_api_failed, a)
          | some perbill ↦ elim (node.get_validator_weights) [
            | none ↦ (failed runtime_api_failed, a)
            | some entries ↦
                let threshold = perbill (map_total entries % 2 ^ 128) in
                elim (best_candidate node pool round threshold candidates none 0) [
                  | failed e ↦ (failed e, a)
                  | built (none, weight) ↦ (built none, a)
                  | built (some block_hash, weight) ↦
                      trigger node view pool round finalized block_hash a
                ]
          ]
        ]
  ]
]

-- The pruning after a block is finalized, with the checkpoint interval and the number of rounds to
-- keep that the runtime answers; a failed answer counts as 10 and 20.
unfoldable pub prune_after_finalization : Option ℕ → Option ℕ → ℕ → ℕ → DvfVotePool → DvfVotePool
prune_after_finalization interval_answer rounds_answer finalized_block_number current_round pool =
    let interval : ℕ = elim interval_answer [ none ↦ 10 | some n ↦ n ] in
    let rounds : ℕ = elim rounds_answer [ none ↦ 20 | some n ↦ n ] in
    if interval == 0 || not (finalized_block_number % interval == 0)
    then pool
    else let by_round = (prune_by_round_age current_round rounds pool).1 in
      let by_block = (prune_by_finalized_block finalized_block_number by_round).1 in
      (enforce_max_size 10_000 by_block).1
