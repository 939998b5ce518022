-- ===== src/Dcf/Governance/Tests.antt =====
-- Governance at a small chain.
use cerulea.Common.{ℕ, ◌≡◌, refl, true, false, List, [], ◌∷◌, none, arith}
use cerulea.Frame.Errors.{dcf_error, proposal_not_approved}
use cerulea.Frame.Action.{root, signed, err}
use cerulea.Frame.Bank.{Bank, bank}
use cerulea.Dvf.Registry.{manual_ejection}
use cerulea.Dcf.State.{Chain, slash, eject, remove_validator, pending, approved}
use cerulea.Dcf.Sample.{cfg, pos_cfg, chain}
use cerulea.Dcf.Governance.Execute.{execute_proposal, is_approved, execute_action}
use cerulea.Dcf.Governance.Parts.{IsTallied, execute_proposal-execute_proposal}
use cerulea.Dcf.Governance.Reach
use cerulea.Dcf.Governance.Reach.{run_all, run_all-IsTallied}

abbrev score : ℕ → ℕ
score v = 50

abbrev calls : List (Reach.Call cfg pos_cfg bank score)
calls =
    Reach.submits (signed 9) (eject 1 manual_ejection) none
    ∷ Reach.votes_on (signed 8) 0 true
    ∷ Reach.votes_on (signed 8) 0 false
    ∷ Reach.executes root 0
    ∷ Reach.creates 7 (remove_validator 2)
    ∷ Reach.processes
    ∷ []

chain-IsTallied : IsTallied chain.dcf
chain-IsTallied = record {
  unique = tt;
  once = λ id. tt;
  for = λ id p h. absurd (ground (arith, h));
  against = λ id p h. absurd (ground (arith, h));
  agrees = λ id p h. absurd (ground (arith, h));
  fresh = λ id h. (refl, refl);
}

run_all-IsTallied_example : IsTallied (run_all cfg pos_cfg bank score calls chain).dcf
run_all-IsTallied_example =
    run_all-IsTallied cfg pos_cfg bank score calls chain (omega arith) chain-IsTallied

-- The chain with a proposal that was approved.
abbrev waiting : Chain Bank
waiting = record chain {
  dcf = record (chain.dcf) {
    proposals =
        (
          0,
          record {
            proposer = 9;
            action = slash 1 5;
            status = approved;
            votes_for = 1;
            votes_against = 0;
          },
        )
        ∷ [];
    next_proposal_id = 1;
  };
}

execute_proposal-execute_proposal_example :
    (execute_proposal cfg pos_cfg bank score root 0
      (execute_proposal cfg pos_cfg bank score root 0 waiting).1).0
    ≡ err (dcf_error proposal_not_approved)
unfolding execute_proposal is_approved execute_action
execute_proposal-execute_proposal_example =
    execute_proposal-execute_proposal cfg pos_cfg bank score 0 waiting refl

-- Two pending proposals without a vote.
abbrev proposed : Chain Bank
proposed = record chain {
  dcf = record (chain.dcf) {
    proposals =
        (
          0,
          record {
            proposer = 9;
            action = remove_validator 2;
            status = pending;
            votes_for = 0;
            votes_against = 0;
          },
        )
        ∷ (
          1,
          record {
            proposer = 9;
            action = slash 1 5;
            status = pending;
            votes_for = 0;
            votes_against = 0;
          },
        )
        ∷ [];
    next_proposal_id = 2;
  };
}
