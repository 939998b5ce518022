-- ===== src/Dvf/Registry/Calls/Leaving.antt =====
-- Leave requests of pallet-cerulea-dvf: what is left of them after the hook of a block, and what
-- withdrawing one does.
use cerulea.Common.{
  ap, ◌∙◌, if◌then◌else◌, insert, remove_first, ℕ, ◌-◌, ◌≤◌, ◌<◌, ◌≡◌, refl, true, false, List, [],
  ◌∷◌, some, none, arith, Map, lookup, lookup-erase, lookup-insert, has_key, contains,
  contains-append_one, erase, length, length-remove_first-le,
}
use cerulea.Frame.Action.{signed}
use cerulea.Frame.Currency.{Currency}
use cerulea.Pos.State.{World}
use cerulea.Dvf.Registry.{Config, Registry, expired, validate_leave_request_eligibility}
use cerulea.Dvf.Registry.Calls.{
  leave_validators, cancel_leave_request, request_leave, restore_active, expire_request,
  expire_requests, process_expired_leave_requests,
}

expired-contains :
    (cooldown now v n : ℕ) (m : Map ℕ)
    → lookup v m ≡ some n
    → cooldown ≤ now - n
    → contains (expired cooldown now m) v ≡ true
unfolding expired
expired-contains cooldown now v n [] e h = ground arith
expired-contains cooldown now v n ((j, k) ∷ m) e h =
    ground (arith, expired-contains cooldown now v n m)

module _ {B : Type 0} (cfg : Config) (cur : Currency B) where
  requests-expire_request :
      (v a : ℕ) (w : World Registry B)
      → let w' = (expire_request cfg cur v w).1 in
        w'.handler.validator_leave_requests ≡ erase v w.handler.validator_leave_requests
  unfolding expire_request
  requests-expire_request v a w = ground arith

  lookup-expire_requests :
      (a : ℕ) (vs : List ℕ) (w : World Registry B)
      → lookup a (expire_requests cfg cur vs w).1.handler.validator_leave_requests
        ≡ (if contains vs a then none else lookup a w.handler.validator_leave_requests)
  unfolding expire_requests
  lookup-expire_requests a [] w = refl
  lookup-expire_requests a (v ∷ vs) w = ground (
    arith,
    lookup-expire_requests a vs (expire_request cfg cur v w).1,
    requests-expire_request v a w,
    lookup-erase v a w.handler.validator_leave_requests,
  )

  -- After the hook has processed the leave requests, every one that is left is younger than the
  -- cooldown, and is one that was there before.
  pub process_expired_leave_requests_young :
      (a n : ℕ) (w : World Registry B)
      → lookup a (process_expired_leave_requests cfg cur w).1.handler.validator_leave_requests
        ≡ some n
      → (w.handler.block_number - n < cfg.leave_cooldown)
        × (lookup a w.handler.validator_leave_requests ≡ some n)
  unfolding process_expired_leave_requests
  process_expired_leave_requests_young a n w e = ground (
    arith,
    e,
    lookup-expire_requests a
        (expired cfg.leave_cooldown w.handler.block_number w.handler.validator_leave_requests) w,
    expired-contains cfg.leave_cooldown w.handler.block_number a n
        w.handler.validator_leave_requests,
  )

  leave_state :
      (who : ℕ) (w : World Registry B)
      → contains w.handler.validator_set who ≡ true
      → has_key who w.handler.validator_leave_requests ≡ false
      → let r = w.handler in
        let r1 = (leave_validators cfg cur (signed who) w).1.handler in
        (r1.validator_set ≡ r.validator_set)
        × (r1.active_validators ≡ remove_first who r.active_validators)
        × (r1.validator_leave_requests ≡ insert who r.block_number r.validator_leave_requests)
        × (r1.block_number ≡ r.block_number)
  unfolding leave_validators request_leave validate_leave_request_eligibility
  leave_state who w member free = ground arith

  cancel_state :
      (who n : ℕ) (w : World Registry B)
      → contains w.handler.validator_set who ≡ true
      → lookup who w.handler.validator_leave_requests ≡ some n
      → w.handler.block_number - n < cfg.leave_cooldown
      → length w.handler.active_validators < cfg.max_validators
      → contains (cancel_leave_request cfg cur (signed who) w).1.handler.active_validators who
        ≡ true
  unfolding cancel_leave_request restore_active
  cancel_state who n w member asked young room =
      ground (arith, contains-append_one w.handler.active_validators who who)

  -- A member of the validator set who was never active becomes active by asking to leave and
  -- withdrawing the request in the same block: no score, epoch or vote is asked for. There must be
  -- room in the active set, no request open, and a cooldown.
  cancel-leave_activates :
      (who : ℕ) (w : World Registry B)
      → contains w.handler.validator_set who ≡ true
      → has_key who w.handler.validator_leave_requests ≡ false
      → length w.handler.active_validators < cfg.max_validators
      → 0 < cfg.leave_cooldown
      → let w1 = (leave_validators cfg cur (signed who) w).1 in
        let w2 = (cancel_leave_request cfg cur (signed who) w1).1 in
        contains w2.handler.active_validators who ≡ true
  cancel-leave_activates who w member free room cooldown =
      let (set, active, requests, block) = leave_state who w member free in
      cancel_state who w.handler.block_number (leave_validators cfg cur (signed who) w).1
        (ap (λ s. contains s who) set ∙ member)
        (ap (lookup who) requests
          ∙ ground (
            arith,
            lookup-insert who who w.handler.block_number w.handler.validator_leave_requests,
          ))
        (omega (arith, block, cooldown))
        (omega (
          arith,
          ap (λ (s : List ℕ). length s) active,
          length-remove_first-le who w.handler.active_validators,
          room,
        ))
