-- ===== src/Dcf/Governance.antt =====
-- The governance calls of cerulea-pallets/pallet-cerulea-dcf/src/lib.rs: proposals are submitted,
-- voted on and executed.
pub mod Execute
pub mod Epoch
pub mod Counts
pub mod Tally
pub mod Parts
pub mod Reach
mod Tests
use cerulea.Common.{
  ℕ, ◌+◌, ◌*◌, ◌/◌, ◌%◌, ◌^◌, ⊤, Bool, true, false, not, List, [], ◌∷◌, Option, none, some,
  if◌then◌else◌, leb, ltb, Map, lookup, has_key, get, insert, length, u32_max,
}
use cerulea.Frame.Errors.{
  dcf_error, proposal_not_approved, proposal_already_executed, already_voted, DispatchError,
}
use cerulea.Frame.Action.{
  Action, ◌>>=◌, ◌>>◌, pure, fail, gets, modify, ensure, ok_or, Origin, ensure_signed, ensure_root,
}
use cerulea.Dvf.Registry.{Registry, score_below_threshold, excess_validators}
use cerulea.Dcf.Limits.Config.{DispatchableType, submit_proposal, vote_proposal}
use cerulea.Dcf.Limits.{
  RateLimitViolation, per_block_limit_exceeded, per_account_limit_exceeded,
  minimum_interval_violated, weight_exceeded, check_rate_limits, record_operation,
}
use cerulea.Dcf.State.{
  Dcf, Config, GovernanceProposal, ProposalAction, ProposalStatus, pending, approved, rejected,
  executed, slash, reward, eject, add_validator, remove_validator, reward_multiple, deposit_event,
  Event, rate_limit_violation, proposal_submitted, proposal_created, proposal_voted,
  proposal_passed, proposal_rejected,
}
use cerulea.Dcf.Private.{
  is_private_chain_mode, validate_governance_in_private_mode, validate_proposal_in_private_mode,
}

-- The event of a violation, with the code that the call gives the operation.
violation_event : ℕ → ℕ → RateLimitViolation → Event
violation_event who op (per_block_limit_exceeded o count limit) =
    rate_limit_violation who op 0 count limit
violation_event who op (per_account_limit_exceeded o count limit window) =
    rate_limit_violation who op 1 count limit
violation_event who op (minimum_interval_violated o since required) =
    rate_limit_violation who op 2 since required
violation_event who op (weight_exceeded o weight max) =
    rate_limit_violation who op 3 (weight / 1_000 % 2 ^ 32) (max / 1_000 % 2 ^ 32)

-- The check at the start of a call, which deposits the event and returns the error.
within_limits : ℕ → DispatchableType → ℕ → ℕ → Action Dcf ⊤
unfolding violation_event
within_limits who op op_code weight = do
  found ← gets (λ d. check_rate_limits who op weight d.limits)
  elim found [
    | none ↦ pure tt
    | some (e, violation) ↦
        deposit_event (violation_event who op_code violation) >> fail (dcf_error e)
  ]

record_limits : ℕ → DispatchableType → Dcf → Dcf
record_limits who op d = record d { limits = record_operation who op d.limits }

-- The validator that an action is about, where the call checks it against the allowlist.
target : ProposalAction → Option ℕ
target (slash validator amount) = some validator
target (reward validator amount) = some validator
target (eject validator reason) = some validator
target (add_validator validator) = none
target (remove_validator validator) = none
target (reward_multiple validators amount) = none

validate_in_private_mode : ℕ → ProposalAction → Action Dcf ⊤
unfolding target
validate_in_private_mode who action = do
  private ← gets is_private_chain_mode
  if private
      then (do
        validate_governance_in_private_mode who
        elim (target action) [
          | none ↦ pure tt
          | some validator ↦ validate_proposal_in_private_mode who validator
        ])
      else pure tt

-- The bytes of "No description provided".
abbrev no_description : List ℕ
no_description =
    78 ∷ 111 ∷ 32 ∷ 100 ∷ 101 ∷ 115 ∷ 99 ∷ 114 ∷ 105 ∷ 112 ∷ 116 ∷ 105 ∷ 111 ∷ 110 ∷ 32 ∷ 112 ∷ 114
    ∷ 111 ∷ 118 ∷ 105 ∷ 100 ∷ 101 ∷ 100 ∷ []

unfoldable pub new_proposal : ℕ → ProposalAction → GovernanceProposal
new_proposal who action = record {
  proposer = who;
  action = action;
  status = pending;
  votes_for = 0;
  votes_against = 0;
}

-- The id of a proposal is a u32 whose increment wraps.
pub submit_proposal_call : Config → Origin → ProposalAction → Option (List ℕ) → Action Dcf ⊤
unfolding within_limits record_limits validate_in_private_mode new_proposal
submit_proposal_call cfg origin action description = do
  who ← ensure_signed origin
  within_limits who submit_proposal 0 cfg.submit_proposal_weight
  validate_in_private_mode who action
  proposal_id ← gets (λ d. d.next_proposal_id)
  modify (λ d. record d { proposals = insert proposal_id (new_proposal who action) d.proposals })
  modify (λ d. record d { next_proposal_id = (proposal_id + 1) % 2 ^ 32 })
  deposit_event (proposal_submitted proposal_id who action)
  deposit_event (
      proposal_created proposal_id who action
        (elim description [ none ↦ no_description | some text ↦ text ]))
  modify (record_limits who submit_proposal)

-- The proposals that the epoch hook approves without votes.
unfoldable pub should_auto_approve_proposal : ProposalAction → Bool
should_auto_approve_proposal (add_validator validator) = true
should_auto_approve_proposal (remove_validator validator) = true
should_auto_approve_proposal (eject validator score_below_threshold) = true
should_auto_approve_proposal (eject validator excess_validators) = true
should_auto_approve_proposal _ = false

-- What the sudo calls do once their guards have passed, and the hook that proposes an ejection.
unfoldable pub create_proposal : ℕ → ProposalAction → Action Dcf ⊤
unfolding new_proposal
create_proposal proposer action = do
  proposal_id ← gets (λ d. d.next_proposal_id)
  modify
      (λ d. record d { proposals = insert proposal_id (new_proposal proposer action) d.proposals })
  modify (λ d. record d { next_proposal_id = (proposal_id + 1) % 2 ^ 32 })
  deposit_event (proposal_submitted proposal_id proposer action)

unfoldable pub is_pending : ProposalStatus → Bool
is_pending pending = true
is_pending approved = false
is_pending rejected = false
is_pending executed = false

-- The proposal with one more vote.
unfoldable pub counted : Bool → GovernanceProposal → GovernanceProposal
counted approve p =
    if approve
    then record p { votes_for = (p.votes_for + 1) % 2 ^ 32 }
    else record p { votes_against = (p.votes_against + 1) % 2 ^ 32 }

-- The verdict once at least half of the active validators' number has voted.
unfoldable pub decided : ℕ → GovernanceProposal → GovernanceProposal
decided active p =
    let quorum = (active % 2 ^ 32 + 1) % 2 ^ 32 / 2 in
    if leb quorum ((p.votes_for + p.votes_against) % 2 ^ 32)
    then record p { status = if ltb p.votes_against p.votes_for then approved else rejected }
    else p

verdict_events : ℕ → ProposalStatus → List Event
verdict_events proposal_id pending = []
verdict_events proposal_id approved = proposal_passed proposal_id ∷ []
verdict_events proposal_id rejected = proposal_rejected proposal_id ∷ []
verdict_events proposal_id executed = []

abbrev pub votes : ℕ → Dcf → Map Bool
votes proposal_id d = get [] proposal_id d.proposal_votes

-- `registry` holds the active validators.
pub vote_proposal_call : Config → Registry → Origin → ℕ → Bool → Action Dcf ⊤
unfolding within_limits record_limits is_pending counted decided verdict_events
vote_proposal_call cfg registry origin proposal_id approve = do
  who ← ensure_signed origin
  within_limits who vote_proposal 2 cfg.vote_proposal_weight
  found ← gets (λ d. lookup proposal_id d.proposals)
  p ← ok_or found (dcf_error proposal_not_approved)
  ensure (is_pending p.status) (dcf_error proposal_already_executed)
  voted ← gets (λ d. has_key who (votes proposal_id d))
  ensure (not voted) (dcf_error already_voted)
  let p' = decided (length registry.active_validators) (counted approve p)
  modify (λ d. record d {
    proposal_votes = insert proposal_id (insert who approve (votes proposal_id d)) d.proposal_votes;
  })
  deposit_event (proposal_voted proposal_id who approve)
  elim (verdict_events proposal_id p'.status) [ [] ↦ pure tt | e ∷ es ↦ deposit_event e ]
  modify (λ d. record d { proposals = insert proposal_id p' d.proposals })
  modify (record_limits who vote_proposal)
