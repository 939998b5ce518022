-- ===== src/Dvf/Registry/Valid.antt =====
-- The invariant of the validator registry of pallet-cerulea-dvf, on the three storage items that it
-- is about, and the changes that keep it.
use mathlib.Core.Path.{subst⁻¹}
use cerulea.Common.{
  ℕ, ◌≤◌, ◌<◌, ◌≡◌, Bool, true, false, List, [], ◌∷◌, ◌++◌, some, none, arith, Map, has_key, lookup,
  insert, erase, lookup-insert, lookup-erase, length, contains, remove_first, take, take_all,
  IsDistinct, remove_first-IsDistinct, contains-remove_first_iff, length-remove_first-le,
  length-append, contains-append_one, append_one-IsDistinct, Option,
}
use cerulea.Frame.Action.{◌>>◌}
use cerulea.Dvf.Registry.{
  Config, Registry, EjectionReason, eject_validator, check_validator, check_validators,
  check_and_handle_underperforming_validators, expire_removed, cleanup_recently_removed_validators,
  eject_if, ValidatorState, check_state, expired,
}

-- Both sets hold no account twice and are bounded, an active validator stands in the validator
-- set, and nobody who has asked to leave is active.
pub record Valid (max : ℕ) (set active : List ℕ) (requests : Map ℕ) : Type 0 where
  pub set_distinct : IsDistinct set
  pub active_distinct : IsDistinct active
  pub set_bounded : length set ≤ max
  pub active_bounded : length active ≤ max
  pub active_in_set : (a : ℕ) → contains active a ≡ true → contains set a ≡ true
  pub leaving_inactive : (a : ℕ) → has_key a requests ≡ true → contains active a ≡ false

abbrev pub IsValid : Config → Registry → Type 0
IsValid cfg r =
    Valid cfg.max_validators r.validator_set r.active_validators r.validator_leave_requests

module _ {max : ℕ} {set active : List ℕ} {requests : Map ℕ} (v : ℕ) where
  pub deactivate-Valid :
      Valid max set active requests → Valid max set (remove_first v active) requests
  deactivate-Valid h = record {
    set_distinct = h.set_distinct;
    active_distinct = remove_first-IsDistinct v active h.active_distinct;
    set_bounded = h.set_bounded;
    active_bounded = omega (arith, length-remove_first-le v active, h.active_bounded);
    active_in_set = λ a m.
        ground (arith, contains-remove_first_iff v a active h.active_distinct, h.active_in_set a);
    leaving_inactive = λ a m.
        ground
          (arith, contains-remove_first_iff v a active h.active_distinct, h.leaving_inactive a);
  }

  pub drop-Valid :
      Valid max set active requests
      → Valid max (remove_first v set) (remove_first v active) (erase v requests)
  drop-Valid h = record {
    set_distinct = remove_first-IsDistinct v set h.set_distinct;
    active_distinct = remove_first-IsDistinct v active h.active_distinct;
    set_bounded = omega (arith, length-remove_first-le v set, h.set_bounded);
    active_bounded = omega (arith, length-remove_first-le v active, h.active_bounded);
    active_in_set = λ a m. ground (
      arith,
      contains-remove_first_iff v a active h.active_distinct,
      contains-remove_first_iff v a set h.set_distinct,
      h.active_in_set a,
    );
    leaving_inactive = λ a m. ground (
      arith,
      lookup-erase v a requests,
      contains-remove_first_iff v a active h.active_distinct,
      h.leaving_inactive a,
    );
  }

  pub request-Valid :
      (n : ℕ)
      → Valid max set active requests
      → Valid max set (remove_first v active) (insert v n requests)
  request-Valid n h =
      let k = deactivate-Valid h in
      record {
        set_distinct = k.set_distinct;
        active_distinct = k.active_distinct;
        set_bounded = k.set_bounded;
        active_bounded = k.active_bounded;
        active_in_set = k.active_in_set;
        leaving_inactive = λ a m. ground (
          arith,
          lookup-insert v a n requests,
          contains-remove_first_iff v a active h.active_distinct,
          h.leaving_inactive a,
        );
      }

  pub withdraw-Valid : Valid max set active requests → Valid max set active (erase v requests)
  withdraw-Valid h = record {
    set_distinct = h.set_distinct;
    active_distinct = h.active_distinct;
    set_bounded = h.set_bounded;
    active_bounded = h.active_bounded;
    active_in_set = h.active_in_set;
    leaving_inactive = λ a m. ground (arith, lookup-erase v a requests, h.leaving_inactive a);
  }

  pub enroll-Valid :
      length set < max
      → contains set v ≡ false
      → Valid max set active requests
      → Valid max (set ++ v ∷ []) active requests
  enroll-Valid room new h = record {
    set_distinct = append_one-IsDistinct set v h.set_distinct new;
    active_distinct = h.active_distinct;
    set_bounded = omega (arith, length-append set (v ∷ []), room);
    active_bounded = h.active_bounded;
    active_in_set = λ a m. ground (arith, contains-append_one set v a, h.active_in_set a);
    leaving_inactive = h.leaving_inactive;
  }

  pub restore-Valid :
      length active < max
      → contains set v ≡ true
      → contains active v ≡ false
      → has_key v requests ≡ false
      → Valid max set active requests
      → Valid max set (active ++ v ∷ []) requests
  restore-Valid room member new free h = record {
    set_distinct = h.set_distinct;
    active_distinct = append_one-IsDistinct active v h.active_distinct new;
    set_bounded = h.set_bounded;
    active_bounded = omega (arith, length-append active (v ∷ []), room);
    active_in_set = λ a m. ground (arith, contains-append_one active v a, h.active_in_set a);
    leaving_inactive = λ a m. ground (arith, contains-append_one active v a, h.leaving_inactive a);
  }

-- The writes of the coordination pallet that fit the rest.
module _ {max : ℕ} {set active : List ℕ} {requests : Map ℕ} where
  pub set_active-Valid :
      (vs : List ℕ)
      → IsDistinct vs
      → length vs ≤ max
      → ((a : ℕ) → contains vs a ≡ true → contains set a ≡ true)
      → ((a : ℕ) → has_key a requests ≡ true → contains vs a ≡ false)
      → Valid max set active requests
      → Valid max set (take max vs) requests
  set_active-Valid vs distinct bound member free h =
      subst⁻¹ (λ xs. Valid max set xs requests) (take_all max vs bound)
        (record {
          set_distinct = h.set_distinct;
          active_distinct = distinct;
          set_bounded = h.set_bounded;
          active_bounded = bound;
          active_in_set = member;
          leaving_inactive = free;
        })

  pub set_members-Valid :
      (vs : List ℕ)
      → IsDistinct vs
      → length vs ≤ max
      → ((a : ℕ) → contains active a ≡ true → contains vs a ≡ true)
      → Valid max set active requests
      → Valid max (take max vs) active requests
  set_members-Valid vs distinct bound member h =
      subst⁻¹ (λ xs. Valid max xs active requests) (take_all max vs bound)
        (record {
          set_distinct = distinct;
          active_distinct = h.active_distinct;
          set_bounded = bound;
          active_bounded = h.active_bounded;
          active_in_set = member;
          leaving_inactive = h.leaving_inactive;
        })

  pub set_request-Valid :
      (v n : ℕ)
      → contains active v ≡ false
      → Valid max set active requests
      → Valid max set active (insert v n requests)
  set_request-Valid v n idle h = record {
    set_distinct = h.set_distinct;
    active_distinct = h.active_distinct;
    set_bounded = h.set_bounded;
    active_bounded = h.active_bounded;
    active_in_set = h.active_in_set;
    leaving_inactive =
        λ a m. ground (arith, idle, m, lookup-insert v a n requests, h.leaving_inactive a);
  }

module _ (cfg : Config) where
  pub eject_validator-IsValid :
      (v : ℕ) (reason : EjectionReason) (r : Registry)
      → IsValid cfg r
      → IsValid cfg (eject_validator v reason r).1
  unfolding eject_validator
  eject_validator-IsValid v reason r h = deactivate-Valid v h

  eject_twice-IsValid :
      (b c : Bool) (v : ℕ) (r : Registry)
      → IsValid cfg r
      → IsValid cfg ((eject_if b v >> eject_if c v) r).1
  unfolding eject_if eject_validator
  eject_twice-IsValid true true v r h = deactivate-Valid v (deactivate-Valid v h)
  eject_twice-IsValid true false v r h = deactivate-Valid v h
  eject_twice-IsValid false true v r h = deactivate-Valid v h
  eject_twice-IsValid false false v r h = h

  check_validator-IsValid :
      (epoch v : ℕ) (r : Registry) → IsValid cfg r → IsValid cfg (check_validator cfg epoch v r).1
  unfolding check_validator
  check_validator-IsValid epoch v r h = state (lookup v r.validator_states)
    where
      state : (st : Option ValidatorState) → IsValid cfg (check_state cfg epoch v st r).1
      state none = h
      state (some st) = eject_twice-IsValid _ _ v r h

  check_validators-IsValid :
      (epoch : ℕ) (vs : List ℕ) (r : Registry)
      → IsValid cfg r
      → IsValid cfg (check_validators cfg epoch vs r).1
  unfolding check_validators
  check_validators-IsValid epoch [] r h = h
  check_validators-IsValid epoch (v ∷ vs) r h =
      check_validators-IsValid epoch vs (check_validator cfg epoch v r).1
        (check_validator-IsValid epoch v r h)

  pub check_and_handle-IsValid :
      (epoch : ℕ) (r : Registry)
      → IsValid cfg r
      → IsValid cfg (check_and_handle_underperforming_validators cfg epoch r).1
  unfolding check_and_handle_underperforming_validators
  check_and_handle-IsValid epoch r h = check_validators-IsValid epoch r.active_validators r h

  expire_removed-IsValid :
      (vs : List ℕ) (r : Registry) → IsValid cfg r → IsValid cfg (expire_removed vs r).1
  unfolding expire_removed
  expire_removed-IsValid [] r h = h
  expire_removed-IsValid (v ∷ vs) r h = expire_removed-IsValid vs _ h

  pub cleanup-IsValid :
      (r : Registry) → IsValid cfg r → IsValid cfg (cleanup_recently_removed_validators cfg r).1
  unfolding cleanup_recently_removed_validators
  cleanup-IsValid r h =
      expire_removed-IsValid
        (expired cfg.leave_cooldown r.block_number r.recently_removed_validators) r h
