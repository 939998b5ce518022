-- ===== src/Dcf/Private.antt =====
-- cerulea-pallets/pallet-cerulea-dcf/src/private_chain.rs: the private chain mode, in which the
-- validators come from an allowlist.
pub mod Allowed
pub mod Forced
pub mod Reach
mod Tests
use cerulea.Common.{
  ℕ, ◌+◌, ◌%◌, ◌^◌, ⊤, Bool, true, false, not, ◌||◌, List, [], ◌∷◌, Option, none, some,
  if◌then◌else◌, ltb, leb, ◌==◌, length, retain, contains, remove_first, erase,
}
use cerulea.Common.Sort.{insert_sorted}
use cerulea.Frame.Errors.{
  dcf_error, private_chain_mode_disabled, allowlist_updates_disabled, allowlist_full,
  too_many_validators, proposer_not_in_allowlist, target_not_in_allowlist, not_in_allowlist,
}
use cerulea.Frame.Action.{Action, ◌>>=◌, ◌>>◌, pure, gets, modify, ensure, ok_or, ignore, ok}
use cerulea.Frame.Currency.{Currency}
use cerulea.Dcf.State.{
  Dcf, Chain, Config, PrivateChainConfig, on_dcf, on_registry, deposit_event,
  validator_added_to_allowlist, validator_removed_from_allowlist, private_chain_mode_enabled,
  private_chain_mode_disabled, validator_forced_to_leave,
}

abbrev default_config : PrivateChainConfig
default_config = record {
  enabled = false;
  validator_allowlist = [];
  allow_allowlist_updates = false;
  max_allowlist_size = 100;
}

abbrev config_or_default : Dcf → PrivateChainConfig
config_or_default d = elim d.private_chain_config [ none ↦ default_config | some c ↦ c ]

unfoldable pub is_private_chain_mode : Dcf → Bool
is_private_chain_mode d = elim d.private_chain_config [ none ↦ false | some c ↦ c.enabled ]

unfoldable pub is_validator_allowed : ℕ → Dcf → Bool
is_validator_allowed account d = elim d.private_chain_config [
  | none ↦ true
  | some c ↦ if not c.enabled then true else contains c.validator_allowlist account
]

-- `try_insert` of a set of at most 100: `none` where it fails.
pub try_insert : ℕ → List ℕ → Option (List ℕ)
try_insert a xs =
    if contains xs a
    then some xs
    else if ltb (length xs) 100
    then some (insert_sorted a xs)
    else none

put_config : PrivateChainConfig → Action Dcf ⊤
put_config c = modify (λ d. record d { private_chain_config = some c })

pub add_to_validator_allowlist : ℕ → Action Dcf ⊤
unfolding try_insert put_config
add_to_validator_allowlist account = do
  stored ← gets (λ d. d.private_chain_config)
  config ← ok_or stored (dcf_error private_chain_mode_disabled)
  ensure config.enabled (dcf_error private_chain_mode_disabled)
  ensure config.allow_allowlist_updates (dcf_error allowlist_updates_disabled)
  ensure (not (leb config.max_allowlist_size (length config.validator_allowlist)))
      (dcf_error allowlist_full)
  elim (try_insert account config.validator_allowlist) [
    | none ↦ pure tt
    | some allowlist ↦
        put_config (record config { validator_allowlist = allowlist })
        >> deposit_event (validator_added_to_allowlist account)
  ]

pub disable_private_chain_mode : Action Dcf ⊤
unfolding put_config
disable_private_chain_mode = do
  stored ← gets (λ d. d.private_chain_config)
  config ← ok_or stored (dcf_error private_chain_mode_disabled)
  ensure config.enabled (dcf_error private_chain_mode_disabled)
  put_config (record config { enabled = false; validator_allowlist = [] })
  deposit_event private_chain_mode_disabled

unfoldable pub validate_proposal_in_private_mode : ℕ → ℕ → Action Dcf ⊤
validate_proposal_in_private_mode proposer target = do
  config ← gets config_or_default
  if not config.enabled then pure tt else (do
    ensure (contains config.validator_allowlist proposer) (dcf_error proposer_not_in_allowlist)
    ensure (contains config.validator_allowlist target) (dcf_error target_not_in_allowlist))

unfoldable pub validate_governance_in_private_mode : ℕ → Action Dcf ⊤
validate_governance_in_private_mode account = do
  config ← gets config_or_default
  if not config.enabled
      then pure tt
      else ensure (contains config.validator_allowlist account) (dcf_error not_in_allowlist)

-- The allowlist that the loop over the initial one fills; an insertion that fails is dropped.
unfoldable pub fill : List ℕ → List ℕ → List ℕ
unfolding try_insert
fill [] allowlist = allowlist
fill (v ∷ vs) allowlist =
    fill vs (elim (try_insert v allowlist) [ none ↦ allowlist | some xs ↦ xs ])

module _ {B : Type 0} (cur : Currency B) where
  unfoldable pub is_validator_active : ℕ → Chain B → Bool
  is_validator_active v c = contains c.world.handler.active_validators v

  release : ℕ → Chain B → Chain B
  release v c =
      let reserved = cur.reserved_balance v c.world.balances in
      record c {
        world = record (c.world) { balances = (cur.unreserve v reserved c.world.balances).1 };
      }

  -- Trust scores, inference counts and the last block seen are not in the model.
  unfoldable pub force_validator_leave : ℕ → Action (Chain B) ⊤
  unfolding is_validator_active release
  force_validator_leave v = do
    is_active ← gets (is_validator_active v)
    if not is_active then pure tt else (do
      on_registry (λ r. record r { validator_set = retain (λ u. not (u == v)) r.validator_set })
      modify (release v)
      on_registry (λ r. record r { validator_states = erase v r.validator_states })
      on_dcf (deposit_event (validator_forced_to_leave v)))

  unfoldable pub remove_from_validator_allowlist : ℕ → Action (Chain B) ⊤
  unfolding put_config is_validator_active
  remove_from_validator_allowlist account = do
    stored ← gets (λ c. c.dcf.private_chain_config)
    config ← ok_or stored (dcf_error private_chain_mode_disabled)
    ensure config.enabled (dcf_error private_chain_mode_disabled)
    ensure config.allow_allowlist_updates (dcf_error allowlist_updates_disabled)
    if contains config.validator_allowlist account
        then (do
          on_dcf (
              put_config (record config {
                validator_allowlist = remove_first account config.validator_allowlist;
              }))
          on_dcf (deposit_event (validator_removed_from_allowlist account))
          is_active ← gets (is_validator_active account)
          if is_active then ignore (force_validator_leave account) else pure tt)
        else pure tt

  -- The loop over the active validators, each checked against the allowlist as it then is.
  unfoldable pub leave_if_not_allowed : List ℕ → Action (Chain B) ⊤
  unfolding is_validator_allowed
  leave_if_not_allowed [] c = (ok tt, c)
  leave_if_not_allowed (v ∷ vs) c =
      leave_if_not_allowed vs
        (if is_validator_allowed v c.dcf then c else (force_validator_leave v c).1)

  unfoldable pub enable_private_chain_mode : Config → List ℕ → Bool → Action (Chain B) ⊤
  unfolding put_config fill leave_if_not_allowed
  enable_private_chain_mode cfg initial_allowlist allow_updates = do
    ensure (leb (length initial_allowlist) cfg.max_validators) (dcf_error too_many_validators)
    on_dcf (
        put_config (record {
          enabled = true;
          validator_allowlist = fill initial_allowlist [];
          allow_allowlist_updates = allow_updates;
          max_allowlist_size = cfg.max_validators;
        }))
    on_dcf (
        deposit_event
          (private_chain_mode_enabled (length initial_allowlist % 2 ^ 32) allow_updates))
    active ← gets (λ c. c.world.handler.active_validators)
    leave_if_not_allowed active
