-- ===== src/Dcf/Governance/Epoch/Settled.antt =====
-- Which proposals the epoch hook executes.
use cerulea.Common.{ℕ, Bool, ◌&&◌, Option, none, some, if◌then◌else◌}
use cerulea.Frame.Currency.{Currency}
use cerulea.Pos.State
use cerulea.Dcf.State.{Config, GovernanceProposal, executed}
use cerulea.Dcf.Governance.{is_pending, should_auto_approve_proposal}
use cerulea.Dcf.Governance.Parts.{Parts}

abbrev close : Option GovernanceProposal → Option GovernanceProposal
close none = none
close (some p) = some (record p { status = executed })

-- A stored proposal after the hook: executed if it was pending and is of a kind that needs no votes.
abbrev pub settled : Option GovernanceProposal → Option GovernanceProposal
settled none = none
settled (some p) =
    if is_pending p.status && should_auto_approve_proposal p.action
    then some (record p { status = executed })
    else some p

abbrev waits : ℕ × GovernanceProposal → Bool
waits e = is_pending e.1.status

module _ {B : Type 0} (cfg : Config) (pcfg : State.Config) (cur : Currency B) (get_score : ℕ → ℕ)
    (id : ℕ) where
  -- What the loop leaves of one proposal, by its entry in the snapshot.
  abbrev outcome : Option GovernanceProposal → Option GovernanceProposal → Option GovernanceProposal
  outcome none now = now
  outcome (some p) now = if should_auto_approve_proposal p.action then close now else now
