-- ===== src/Dcf/Governance/Epoch.antt =====
-- The epoch hook of cerulea-pallets/pallet-cerulea-dcf/src/lib.rs that approves and executes pending
-- proposals of some kinds without votes.
pub mod Kept
pub mod Settled
use cerulea.Common.{
  ℕ, ⊤, Bool, ◌&&◌, List, [], ◌∷◌, Option, none, some, if◌then◌else◌, Map, lookup, insert, retain,
}
use cerulea.Frame.Action.{Action, ◌>>=◌, ◌>>◌, pure, gets, modify}
use cerulea.Frame.Currency.{Currency}
use cerulea.Pos.State
use cerulea.Dcf.State.{
  Chain, Config, GovernanceProposal, ProposalAction, executed, slash, reward, eject, add_validator,
  remove_validator, reward_multiple, on_dcf,
}
use cerulea.Dcf.Governance.{is_pending, should_auto_approve_proposal}
use cerulea.Dcf.Governance.Execute.{execute_action}

-- The pending proposals when the hook starts.
unfoldable pub pending_proposals : Map GovernanceProposal → Map GovernanceProposal
unfolding is_pending
pending_proposals = retain (λ e. is_pending e.1.status)

module _ {B : Type 0} (cfg : Config) (pcfg : State.Config) (cur : Currency B)
    (get_score : ℕ → ℕ) where
  -- Additions, removals and ejections are carried out as by `execute_proposal`, the outcome dropped.
  unfoldable pub execute_automatic : ProposalAction → Action (Chain B) ⊤
  execute_automatic (slash validator amount) = pure tt
  execute_automatic (reward validator amount) = pure tt
  execute_automatic (reward_multiple validators amount) = pure tt
  execute_automatic (eject validator reason) =
      execute_action cfg pcfg cur get_score (eject validator reason)
  execute_automatic (add_validator validator) =
      execute_action cfg pcfg cur get_score (add_validator validator)
  execute_automatic (remove_validator validator) =
      execute_action cfg pcfg cur get_score (remove_validator validator)

  -- `Proposals::try_mutate` of the loop: the proposal is read again, and written when it is there.
  unfoldable pub process_proposal : ℕ → Action (Chain B) ⊤
  unfolding execute_automatic
  process_proposal proposal_id = do
    found ← gets (λ c. lookup proposal_id c.dcf.proposals)
    elim found [
      | none ↦ pure tt
      | some prop ↦
          execute_automatic prop.action
          >> on_dcf (
              modify (λ d. record d {
                proposals = insert proposal_id (record prop { status = executed }) d.proposals;
              }))
    ]

  unfoldable pub process_proposals : Map GovernanceProposal → Action (Chain B) ⊤
  unfolding process_proposal
  process_proposals [] = pure tt
  process_proposals ((proposal_id, proposal) ∷ rest) =
      (if should_auto_approve_proposal proposal.action
        then process_proposal proposal_id
        else pure tt)
      >> process_proposals rest

  unfoldable pub process_epoch_proposals : Action (Chain B) ⊤
  unfolding process_proposals pending_proposals
  process_epoch_proposals = do
    waiting ← gets (λ c. pending_proposals c.dcf.proposals)
    process_proposals waiting
