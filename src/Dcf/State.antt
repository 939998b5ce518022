-- ===== src/Dcf/State.antt =====
-- Storage, constants and events of cerulea-pallets/pallet-cerulea-dcf/src/lib.rs that governance and
-- the private chain mode use. `ValidatorSet`, `ActiveValidators`, `ValidatorStates`,
-- `ValidatorJoinTime` and `PendingValidatorActions` of the pallet are those of the registry of
-- pallet-cerulea-dvf, to which the runtime redirects them.
use cerulea.Common.{ℕ, ⊤, Bool, List, ◌∷◌, Option, Map}
use cerulea.Frame.Action.{Action, modify}
use cerulea.Pos.State.{World}
use cerulea.Dvf.Registry.{Registry, EjectionReason}
use cerulea.Dcf.Limits.{RateLimits}

-- Amounts and lists of accounts; `reward_multiple` takes at most as many as its bound.
pub data ProposalAction : Type 0 where
  slash : ℕ → ℕ → ProposalAction
  reward : ℕ → ℕ → ProposalAction
  eject : ℕ → EjectionReason → ProposalAction
  add_validator : ℕ → ProposalAction
  remove_validator : ℕ → ProposalAction
  reward_multiple : List ℕ → ℕ → ProposalAction

pub data ProposalStatus : Type 0 where
  pending approved rejected executed : ProposalStatus

pub record GovernanceProposal : Type 0 where
  pub proposer : ℕ
  pub action : ProposalAction
  pub status : ProposalStatus
  pub votes_for : ℕ
  pub votes_against : ℕ

-- The set is the list of its members in ascending order.
pub record PrivateChainConfig : Type 0 where
  pub enabled : Bool
  pub validator_allowlist : List ℕ
  pub allow_allowlist_updates : Bool
  pub max_allowlist_size : ℕ

pub data Event : Type 0 where
  -- account, operation code, kind of violation, count, limit
  rate_limit_violation : ℕ → ℕ → ℕ → ℕ → ℕ → Event
  -- proposals per block, joins per block, leaves per block
  rate_limit_config_updated : ℕ → ℕ → ℕ → Event
  proposal_submitted : ℕ → ℕ → ProposalAction → Event
  -- with the description
  proposal_created : ℕ → ℕ → ProposalAction → List ℕ → Event
  proposal_voted : ℕ → ℕ → Bool → Event
  proposal_passed : ℕ → Event
  proposal_rejected : ℕ → Event
  proposal_executed : ℕ → ProposalStatus → Event
  validator_ejected : ℕ → EjectionReason → Event
  validator_added : ℕ → Event
  validator_removed : ℕ → Event
  validator_added_to_allowlist : ℕ → Event
  validator_removed_from_allowlist : ℕ → Event
  private_chain_mode_enabled : ℕ → Bool → Event
  private_chain_mode_disabled : Event
  validator_forced_to_leave : ℕ → Event

pub record Dcf : Type 0 where
  pub current_epoch : ℕ
  pub pos_weight : ℕ
  pub poi_weight : ℕ
  pub proposals : Map GovernanceProposal
  pub proposal_votes : Map (Map Bool)
  pub next_proposal_id : ℕ
  pub private_chain_config : Option PrivateChainConfig
  pub limits : RateLimits
  pub events : List Event

-- The constants of the `Config` trait that the calls read, with the weights of two calls.
pub record Config : Type 0 where
  pub max_validators : ℕ
  pub percentage_precision : ℕ
  pub max_validator_score : ℕ
  pub submit_proposal_weight : ℕ
  pub vote_proposal_weight : ℕ

-- The pallet's storage with that of the staking pallet, the registry and the balances.
pub record Chain (B : Type 0) : Type 0 where
  pub dcf : Dcf
  pub world : World Registry B

module _ {B : Type 0} where
  abbrev pub on_dcf : {A : Type 0} → Action Dcf A → Action (Chain B) A
  on_dcf m c = let (r, d) = m c.dcf in (r, record c { dcf = d })

  abbrev pub on_world : {A : Type 0} → Action (World Registry B) A → Action (Chain B) A
  on_world m c = let (r, w) = m c.world in (r, record c { world = w })

  abbrev pub on_registry : (Registry → Registry) → Action (Chain B) ⊤
  on_registry f =
      modify (λ c. record c { world = record (c.world) { handler = f c.world.handler } })

abbrev pub deposit_event : Event → Action Dcf ⊤
deposit_event e = modify (λ d. record d { events = e ∷ d.events })
