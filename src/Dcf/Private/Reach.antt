-- ===== src/Dcf/Private/Reach.antt =====
-- The private chain mode over any sequence of its operations.
use cerulea.Common.{
  ℕ, ◌≡◌, refl, ◌∙◌, ⊤, Bool, true, false, if◌then◌else◌, leb, List, [], ◌∷◌, some, length, arith,
  if-cases, leb→le, ◌%◌, ◌^◌,
}
use mathlib.Core.Path.{subst⁻¹}
use cerulea.Frame.Errors.{dcf_error, too_many_validators}
use cerulea.Frame.Action.{err, Result}
use cerulea.Frame.Currency.{Currency}
use cerulea.Dcf.State.{Chain, Config, on_dcf, private_chain_mode_enabled}
use cerulea.Dcf.Private.{
  fill, put_config, is_validator_allowed, add_to_validator_allowlist, disable_private_chain_mode,
  remove_from_validator_allowlist, enable_private_chain_mode, force_validator_leave,
  leave_if_not_allowed,
}
use cerulea.Dcf.Private.Allowed.{
  IsValid, fill-IsAllowlist, added-IsValid, dropped, dropped-IsValid, disabled-IsValid,
  add_to_validator_allowlist-config, disable_private_chain_mode-config,
}

module _ {B : Type 0} (cur : Currency B) where
  pub force_validator_leave-dcf :
      (v : ℕ) (c : Chain B)
      → (force_validator_leave cur v c).1.dcf.private_chain_config ≡ c.dcf.private_chain_config
  unfolding force_validator_leave
  force_validator_leave-dcf v c = ground arith

  remove_from_validator_allowlist-config :
      (a : ℕ) (c : Chain B)
      → (remove_from_validator_allowlist cur a c).1.dcf.private_chain_config
        ≡ dropped a c.dcf.private_chain_config
  unfolding remove_from_validator_allowlist dropped put_config force_validator_leave
  remove_from_validator_allowlist-config a c = ground arith

  leave_if_not_allowed-config :
      (vs : List ℕ) (c : Chain B)
      → (leave_if_not_allowed cur vs c).1.dcf.private_chain_config ≡ c.dcf.private_chain_config
  unfolding leave_if_not_allowed
  leave_if_not_allowed-config [] c = refl
  leave_if_not_allowed-config (v ∷ vs) c =
      let next = if is_validator_allowed v c.dcf then c else (force_validator_leave cur v c).1 in
      leave_if_not_allowed-config vs next ∙ same (is_validator_allowed v c.dcf)
    where
      same :
          (b : Bool)
          → (if b then c else (force_validator_leave cur v c).1).dcf.private_chain_config
            ≡ c.dcf.private_chain_config
      same true = refl
      same false = force_validator_leave-dcf v c

  -- The state once the list is stored, before validators are made to leave.
  unfoldable pub opened : Config → List ℕ → Bool → Chain B → Chain B
  unfolding fill
  opened cfg vs updates c = record c {
    dcf = record (c.dcf) {
      private_chain_config = some (record {
        enabled = true;
        validator_allowlist = fill vs [];
        allow_allowlist_updates = updates;
        max_allowlist_size = cfg.max_validators;
      });
      events = private_chain_mode_enabled (length vs % 2 ^ 32) updates ∷ c.dcf.events;
    };
  }

  pub enable_private_chain_mode-opened :
      (cfg : Config) (vs : List ℕ) (updates : Bool) (c : Chain B)
      → enable_private_chain_mode cur cfg vs updates c ≡ (
          if leb (length vs) cfg.max_validators
          then leave_if_not_allowed cur c.world.handler.active_validators (opened cfg vs updates c)
          else (err (dcf_error too_many_validators), c))
  unfolding enable_private_chain_mode put_config opened
  enable_private_chain_mode-opened cfg vs updates c = ground arith

  enable_private_chain_mode-IsValid :
      (cfg : Config) (vs : List ℕ) (updates : Bool) (c : Chain B)
      → IsValid c.dcf.private_chain_config
      → IsValid (enable_private_chain_mode cur cfg vs updates c).1.dcf.private_chain_config
  unfolding opened
  enable_private_chain_mode-IsValid cfg vs updates c v =
      let active = c.world.handler.active_validators in
      subst⁻¹ (λ x. IsValid x.1.dcf.private_chain_config)
        (enable_private_chain_mode-opened cfg vs updates c)
        (if-cases (λ (x : Result ⊤ × Chain B). IsValid x.1.dcf.private_chain_config)
          (leb (length vs) cfg.max_validators)
          (λ e. subst⁻¹ IsValid (leave_if_not_allowed-config active (opened cfg vs updates c)) (
            fill-IsAllowlist cfg.max_validators vs []
              (omega (arith, leb→le (length vs) cfg.max_validators e))
              (record { distinct = tt; within_set = omega arith; within_max = omega arith })))
          (λ e. v))

  -- The operations on the configuration.
  pub data Call : Type 0 where
    adds removes : ℕ → Call
    enables : Config → List ℕ → Bool → Call
    disables : Call

  pub run : Call → Chain B → Chain B
  run (adds a) c = (on_dcf (add_to_validator_allowlist a) c).1
  run (removes a) c = (remove_from_validator_allowlist cur a c).1
  run (enables cfg vs updates) c = (enable_private_chain_mode cur cfg vs updates c).1
  run disables c = (on_dcf disable_private_chain_mode c).1

  pub run_all : List Call → Chain B → Chain B
  unfolding run
  run_all [] c = c
  run_all (call ∷ calls) c = run_all calls (run call c)

  run-IsValid :
      (call : Call) (c : Chain B)
      → IsValid c.dcf.private_chain_config
      → IsValid (run call c).dcf.private_chain_config
  unfolding run
  run-IsValid (adds a) c v =
      subst⁻¹ IsValid (add_to_validator_allowlist-config a c.dcf)
        (added-IsValid a c.dcf.private_chain_config v)
  run-IsValid (removes a) c v =
      subst⁻¹ IsValid (remove_from_validator_allowlist-config a c)
        (dropped-IsValid a c.dcf.private_chain_config v)
  run-IsValid (enables cfg vs updates) c v = enable_private_chain_mode-IsValid cfg vs updates c v
  run-IsValid disables c v =
      subst⁻¹ IsValid (disable_private_chain_mode-config c.dcf)
        (disabled-IsValid c.dcf.private_chain_config v)

  -- However the mode is switched on and off and the list changed, no account stands twice on the
  -- list, and it stays within its configured size and the 100 entries of its type.
  pub run_all-IsValid :
      (calls : List Call) (c : Chain B)
      → IsValid c.dcf.private_chain_config
      → IsValid (run_all calls c).dcf.private_chain_config
  unfolding run_all
  run_all-IsValid [] c v = v
  run_all-IsValid (call ∷ calls) c v = run_all-IsValid calls (run call c) (run-IsValid call c v)
