-- ===== src/Dcf/Private/Forced.antt =====
-- Which validators are made to leave when the private chain mode is switched on or an account comes
-- off the allowlist.

use cerulea.Common.{
  ℕ, ◌≡◌, refl, sym, ap, ◌∙◌, Bool, true, false, not, if◌then◌else◌, ◌==◌, leb, List, [], ◌∷◌,
  contains, length, retain, arith, Bool-cases, inl, inr,
}
use cerulea.Frame.Action.{ok}
use cerulea.Frame.Currency.{Currency}
use cerulea.Dcf.State.{Chain, Config}
use cerulea.Dcf.Private.{
  fill, is_validator_allowed, remove_from_validator_allowlist, enable_private_chain_mode,
  force_validator_leave, is_validator_active, leave_if_not_allowed, put_config, config_or_default,
}
use cerulea.Dcf.Private.Reach.{opened, enable_private_chain_mode-opened, force_validator_leave-dcf}

abbrev set : {B : Type 0} → Chain B → List ℕ
set c = c.world.handler.validator_set

abbrev actives : {B : Type 0} → Chain B → List ℕ
actives c = c.world.handler.active_validators

without : ℕ → List ℕ → List ℕ
without v xs = retain (λ u. not (u == v)) xs

contains-without :
    (v u : ℕ) (xs : List ℕ) → contains (without v xs) u ≡ (if v == u then false else contains xs u)
unfolding without
contains-without v u [] = ground arith
contains-without v u (x ∷ xs) = ground (arith, contains-without v u xs)

module _ {B : Type 0} (cur : Currency B) where
  force_validator_leave-set :
      (v : ℕ) (c : Chain B)
      → set (force_validator_leave cur v c).1
        ≡ (if contains (actives c) v then without v (set c) else set c)
  unfolding force_validator_leave is_validator_active without
  force_validator_leave-set v c = ground arith

  force_validator_leave-actives :
      (v : ℕ) (c : Chain B) → actives (force_validator_leave cur v c).1 ≡ actives c
  unfolding force_validator_leave is_validator_active
  force_validator_leave-actives v c = ground arith

  -- The state after one round of the loop.
  checked : ℕ → Chain B → Chain B
  checked v c = if is_validator_allowed v c.dcf then c else (force_validator_leave cur v c).1

  checked-actives : (v : ℕ) (c : Chain B) → actives (checked v c) ≡ actives c
  unfolding checked
  checked-actives v c = ground (arith, force_validator_leave-actives v c)

  checked-config :
      (v : ℕ) (c : Chain B) → (checked v c).dcf.private_chain_config ≡ c.dcf.private_chain_config
  unfolding checked
  checked-config v c = ground (arith, force_validator_leave-dcf cur v c)

  checked-allowed :
      (v u : ℕ) (c : Chain B)
      → is_validator_allowed u (checked v c).dcf ≡ is_validator_allowed u c.dcf
  unfolding is_validator_allowed
  checked-allowed v u c = ground (arith, checked-config v c)

  checked-set :
      (v u : ℕ) (c : Chain B) → contains (set (checked v c)) u ≡ true → contains (set c) u ≡ true
  unfolding checked
  checked-set v u c h =
      ground (arith, h, force_validator_leave-set v c, contains-without v u (set c))

  checked-left :
      (v : ℕ) (c : Chain B)
      → contains (actives c) v ≡ true
      → contains (set (checked v c)) v ≡ true
      → is_validator_allowed v c.dcf ≡ true
  unfolding checked
  checked-left v c k h =
      ground (arith, h, k, force_validator_leave-set v c, contains-without v v (set c))

  leave_if_not_allowed-actives :
      (vs : List ℕ) (c : Chain B) → actives (leave_if_not_allowed cur vs c).1 ≡ actives c
  unfolding leave_if_not_allowed checked
  leave_if_not_allowed-actives [] c = refl
  leave_if_not_allowed-actives (v ∷ vs) c =
      leave_if_not_allowed-actives vs (checked v c) ∙ checked-actives v c

  leave_if_not_allowed-set :
      (vs : List ℕ) (u : ℕ) (c : Chain B)
      → contains (set (leave_if_not_allowed cur vs c).1) u ≡ true
      → contains (set c) u ≡ true
  unfolding leave_if_not_allowed checked
  leave_if_not_allowed-set [] u c h = h
  leave_if_not_allowed-set (v ∷ vs) u c h =
      checked-set v u c (leave_if_not_allowed-set vs u (checked v c) h)

  leave_if_not_allowed-left :
      (vs : List ℕ) (u : ℕ) (c : Chain B)
      → contains vs u ≡ true
      → contains (actives c) u ≡ true
      → contains (set (leave_if_not_allowed cur vs c).1) u ≡ true
      → is_validator_allowed u c.dcf ≡ true
  unfolding leave_if_not_allowed checked
  leave_if_not_allowed-left [] u c k a h = absurd (ground (arith, k))
  leave_if_not_allowed-left (v ∷ vs) u c k a h = elim (Bool-cases (v == u)) [
    | inl e ↦
        let same : v ≡ u = ground (arith, e) in
        let inside = leave_if_not_allowed-set vs u (checked v c) h in
        ground
          (arith, same, checked-left u c a, ap (λ w. contains (set (checked w c)) u) same, inside)
    | inr e ↦
        sym (checked-allowed v u c)
        ∙ leave_if_not_allowed-left vs u (checked v c) (ground (arith, k, e))
            (ap (λ xs. contains xs u) (checked-actives v c) ∙ a) h
  ]

  -- When the private chain mode is switched on, an active validator that stays in the validator set
  -- is on the list that was stored; none leaves the active set.
  enable_private_chain_mode-set :
      (cfg : Config) (vs : List ℕ) (updates : Bool) (u : ℕ) (c : Chain B)
      → leb (length vs) cfg.max_validators ≡ true
      → contains c.world.handler.active_validators u ≡ true
      → contains (enable_private_chain_mode cur cfg vs updates c).1.world.handler.validator_set u
        ≡ true
      → (contains (fill vs []) u ≡ true)
        × ((enable_private_chain_mode cur cfg vs updates c).1.world.handler.active_validators
            ≡ c.world.handler.active_validators)
  unfolding opened is_validator_allowed
  enable_private_chain_mode-set cfg vs updates u c room a h =
      let active = actives c in
      let o = opened cur cfg vs updates c in
      let e : enable_private_chain_mode cur cfg vs updates c ≡ leave_if_not_allowed cur active o =
        ground (arith, enable_private_chain_mode-opened cur cfg vs updates c, room) in
      (
        leave_if_not_allowed-left active u o a a (sym (ap (λ x. contains (set x.1) u) e) ∙ h),
        ap (λ x. actives x.1) e ∙ leave_if_not_allowed-actives active o,
      )

  -- An account that is taken off the allowlist of the running mode, while it is an active validator,
  -- leaves the validator set but stays in the active set.
  pub remove_from_validator_allowlist-set :
      (a : ℕ) (c : Chain B)
      → (remove_from_validator_allowlist cur a c).0 ≡ ok tt
      → contains c.world.handler.active_validators a ≡ true
      → contains (config_or_default c.dcf).validator_allowlist a ≡ true
      → (contains (remove_from_validator_allowlist cur a c).1.world.handler.validator_set a ≡ false)
        × (contains (remove_from_validator_allowlist cur a c).1.world.handler.active_validators a
            ≡ true)
  unfolding without remove_from_validator_allowlist put_config force_validator_leave
      is_validator_active
  remove_from_validator_allowlist-set a c h k l =
      ground (arith, h, k, l, contains-without a a (set c))
