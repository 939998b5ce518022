-- ===== src/Justify/Aggregate/Tests.antt =====
-- Checks of the service over the pool of the tests of justifications.
use cerulea.Common.{◌≡◌, refl, false, List, [], ◌∷◌, some}
use cerulea.Gossip.Pool.{DvfVotePool, get_candidate_blocks, get_votes}
use cerulea.Justify.{Node, accumulate, construct_justification}
use cerulea.Justify.Sample.{node, pool}
use cerulea.Justify.Aggregate.{Aggregator, View, check_vote_accumulation}
use cerulea.Justify.Aggregate.Once.{all_triggered, IsRising, all_triggered-IsRising}

abbrev view : View
view = record {
  get_current_round = some 4;
  get_dvf_finalized_block = some 10;
  header = λ h. some 20;
  apply_finality = λ h j. false;
}

abbrev start : Aggregator
start = record { last_finalized_round = 3; last_triggered_block = 10 }

abbrev checks : List (Node × View × DvfVotePool)
checks = (node, view, pool) ∷ (node, view, pool) ∷ []

-- The client refuses the justification, and the second check does not try again.
tried_once : all_triggered checks start ≡ 20 ∷ []
unfolding all_triggered check_vote_accumulation get_candidate_blocks get_votes accumulate
    construct_justification
tried_once = refl

all_triggered-IsRising_example : IsRising 10 (all_triggered checks start)
all_triggered-IsRising_example = all_triggered-IsRising checks start
