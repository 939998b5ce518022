-- ===== src/Dcf/Governance/Parts.antt =====
-- What the governance calls do to the proposals and the votes.

use cerulea.Common.{
  ℕ, ◌+◌, ◌%◌, ◌^◌, ◌≡◌, refl, ◌⊎◌, inl, inr, Bool, true, false, List, [], ◌∷◌, Option, none, some,
  Map, lookup, lookup-insert, has_key, get, insert, length, arith, Option-cases,
}
use cerulea.Frame.Errors.{dcf_error, proposal_not_approved}
use cerulea.Frame.Action.{root, signed, ok, err}
use cerulea.Frame.Currency.{Currency}
use cerulea.Pos.State
use cerulea.Pos.State.{World}
use cerulea.Dvf.Registry.{Registry}
use cerulea.Dcf.Limits.Config.{DispatchableType}
use cerulea.Dcf.State.{
  Dcf, Chain, Config, GovernanceProposal, ProposalAction, slash, reward, eject, add_validator,
  remove_validator, reward_multiple, executed,
}
use cerulea.Dcf.Private.{validate_governance_in_private_mode, validate_proposal_in_private_mode}
use cerulea.Dcf.Governance.{
  submit_proposal_call, vote_proposal_call, new_proposal, counted, decided, is_pending,
  within_limits, record_limits, validate_in_private_mode,
}
use cerulea.Dcf.Governance.Execute.{
  execute_proposal, is_approved, execute_action, reward_each, execute_add_validator,
}
use cerulea.Dcf.Governance.Tally.{Tallied}

abbrev pub Parts : Type 0
Parts = Map GovernanceProposal × Map (Map Bool) × ℕ

abbrev pub parts : Dcf → Parts
parts d = (d.proposals, d.proposal_votes, d.next_proposal_id)

abbrev pub TalliedParts : Parts → Type 0
TalliedParts (ps, vs, next) = Tallied ps vs next

abbrev pub IsTallied : Dcf → Type 0
IsTallied d = TalliedParts (parts d)

within_limits-parts :
    (who op_code weight : ℕ) (op : DispatchableType) (d : Dcf)
    → parts (within_limits who op op_code weight d).1 ≡ parts d
unfolding within_limits
within_limits-parts who op_code weight op d = ground arith

validate_in_private_mode-parts :
    (who : ℕ) (action : ProposalAction) (d : Dcf)
    → parts (validate_in_private_mode who action d).1 ≡ parts d
unfolding validate_in_private_mode validate_governance_in_private_mode
    validate_proposal_in_private_mode
validate_in_private_mode-parts who action d = ground arith

pub submit_proposal-parts :
    (cfg : Config) (who : ℕ) (action : ProposalAction) (text : Option (List ℕ)) (d : Dcf)
    → (parts (submit_proposal_call cfg (signed who) action text d).1 ≡ parts d)
      ⊎ (parts (submit_proposal_call cfg (signed who) action text d).1 ≡ (
        insert d.next_proposal_id (new_proposal who action) d.proposals,
        d.proposal_votes,
        (d.next_proposal_id + 1) % 2 ^ 32,
      ))
unfolding submit_proposal_call record_limits
submit_proposal-parts cfg who action text d =
    ground (arith, validate_in_private_mode-parts who action d)

pub vote_proposal-parts :
    (cfg : Config) (r : Registry) (who id : ℕ) (approve : Bool) (p : GovernanceProposal) (d : Dcf)
    → lookup id d.proposals ≡ some p
    → (parts (vote_proposal_call cfg r (signed who) id approve d).1 ≡ parts d)
      ⊎ ((is_pending p.status ≡ true)
          × (has_key who (get [] id d.proposal_votes) ≡ false)
          × (parts (vote_proposal_call cfg r (signed who) id approve d).1 ≡ (
            insert id (decided (length r.active_validators) (counted approve p)) d.proposals,
            insert id (insert who approve (get [] id d.proposal_votes)) d.proposal_votes,
            d.next_proposal_id,
          )))
unfolding vote_proposal_call record_limits
vote_proposal-parts cfg r who id approve p d found = ground (arith, found)

module _ {B : Type 0} (cfg : Config) (pcfg : State.Config) (cur : Currency B)
    (get_score : ℕ → ℕ) where
  reward_each-parts :
      (vs : List ℕ) (amount : ℕ) (c : Chain B)
      → parts (reward_each cfg pcfg cur get_score vs amount c).1.dcf ≡ parts c.dcf
  unfolding reward_each
  reward_each-parts [] amount c = refl
  reward_each-parts (v ∷ vs) amount c = reward_each-parts vs amount _

  pub execute_action-parts :
      (action : ProposalAction) (c : Chain B)
      → parts (execute_action cfg pcfg cur get_score action c).1.dcf ≡ parts c.dcf
  unfolding execute_action execute_add_validator
  execute_action-parts (slash v amount) c = refl
  execute_action-parts (reward v amount) c = refl
  execute_action-parts (reward_multiple vs amount) c = reward_each-parts vs amount c
  execute_action-parts (eject v reason) c = ground arith
  execute_action-parts (add_validator v) c = ground arith
  execute_action-parts (remove_validator v) c = ground arith

  pub execute_proposal-parts :
      (id : ℕ) (p : GovernanceProposal) (c : Chain B)
      → lookup id c.dcf.proposals ≡ some p
      → (parts (execute_proposal cfg pcfg cur get_score root id c).1.dcf ≡ parts c.dcf)
        ⊎ ((is_approved p.status ≡ true)
            × (parts (execute_proposal cfg pcfg cur get_score root id c).1.dcf ≡ (
              insert id (record p { status = executed }) c.dcf.proposals,
              c.dcf.proposal_votes,
              c.dcf.next_proposal_id,
            )))
  unfolding execute_proposal
  execute_proposal-parts id p c found = ground (arith, found, execute_action-parts p.action c)

  pub vote_unknown :
      (r : Registry) (who id : ℕ) (approve : Bool) (d : Dcf)
      → lookup id d.proposals ≡ none
      → parts (vote_proposal_call cfg r (signed who) id approve d).1 ≡ parts d
  unfolding vote_proposal_call
  vote_unknown r who id approve d found = ground (arith, found)

  pub execute_unknown :
      (id : ℕ) (c : Chain B)
      → lookup id c.dcf.proposals ≡ none
      → parts (execute_proposal cfg pcfg cur get_score root id c).1.dcf ≡ parts c.dcf
  unfolding execute_proposal
  execute_unknown id c found = ground (arith, found)

  execute_refused :
      (id : ℕ) (q : GovernanceProposal) (c : Chain B)
      → lookup id c.dcf.proposals ≡ some q
      → is_approved q.status ≡ false
      → (execute_proposal cfg pcfg cur get_score root id c).0
        ≡ err (dcf_error proposal_not_approved)
  unfolding execute_proposal
  execute_refused id q c found h = ground (arith, found, h)

  executed_lem :
      (id : ℕ) (p : GovernanceProposal) (c : Chain B)
      → (execute_proposal cfg pcfg cur get_score root id c).0 ≡ ok tt
      → lookup id c.dcf.proposals ≡ some p
      → lookup id (execute_proposal cfg pcfg cur get_score root id c).1.dcf.proposals
        ≡ some (record p { status = executed })
  unfolding execute_proposal
  executed_lem id p c h found =
      let after = (execute_action cfg pcfg cur get_score p.action c).1 in
      ground
        (arith, h, found, lookup-insert id id (record p { status = executed }) after.dcf.proposals)

  -- A proposal that was executed is not executed again, whatever its action did.
  pub execute_proposal-execute_proposal :
      (id : ℕ) (c : Chain B)
      → (execute_proposal cfg pcfg cur get_score root id c).0 ≡ ok tt
      → (execute_proposal cfg pcfg cur get_score root id
          (execute_proposal cfg pcfg cur get_score root id c).1).0
        ≡ err (dcf_error proposal_not_approved)
  unfolding execute_proposal is_approved
  execute_proposal-execute_proposal id c h = elim (Option-cases (lookup id c.dcf.proposals)) [
    | inl e ↦ absurd (ground (arith, h, e))
    | inr (p, found) ↦
        execute_refused id (record p { status = executed })
          (execute_proposal cfg pcfg cur get_score root id c).1 (executed_lem id p c h found) refl
  ]
