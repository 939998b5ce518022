-- ===== src/Dvf/Registry/Calls/Invariant.antt =====
-- The registry's invariant through the calls and hooks of pallet-cerulea-dvf.
use cerulea.Common.{
  ⊤, ◌%◌, ◌==◌, ℕ, ◌<◌, ◌≡◌, Bool, true, false, List, [], ◌∷◌, ◌++◌, arith, Map, lookup-erase,
  insert, erase, length, contains, remove_first, ◌⊎◌, inl, inr, if◌then◌else◌,
}
use mathlib.Core.Path.{subst⁻¹}
use cerulea.Frame.Action.{Action, Keeps, >>=-Keeps, pure, Origin, root, signed, unsigned, ◌>>◌}
use cerulea.Frame.Currency.{Currency}
use cerulea.Pos.State.{World, on_handler}
use cerulea.Dvf.Registry.{
  expired, cleanup_recently_removed_validators, check_and_handle_underperforming_validators, Config,
  Registry, validate_leave_request_eligibility, validate_rejoin_eligibility, add_state,
}
use cerulea.Dvf.Registry.Valid.{
  cleanup-IsValid, check_and_handle-IsValid, Valid, IsValid, request-Valid, enroll-Valid,
  restore-Valid, withdraw-Valid, drop-Valid,
}
use cerulea.Dvf.Registry.Calls.{
  on_initialize, expire_requests, process_expired_leave_requests, leave_validators, join_validators,
  cancel_leave_request, request_leave, expire_request, add_to_set, restore_active,
}

abbrev pub Items : Type 0
Items = List ℕ × List ℕ × Map ℕ

abbrev pub items : Registry → Items
items r = (r.validator_set, r.active_validators, r.validator_leave_requests)

abbrev pub ValidItems : ℕ → Items → Type 0
ValidItems max (s, a, q) = Valid max s a q

module _ {B : Type 0} (cfg : Config) (cur : Currency B) where
  leave_items :
      (who : ℕ) (w : World Registry B)
      → let r = w.handler in
        let r' = (leave_validators cfg cur (signed who) w).1.handler in
        (items r' ≡ items r)
        ⊎ (items r' ≡ (
          r.validator_set,
          remove_first who r.active_validators,
          insert who r.block_number r.validator_leave_requests,
        ))
  unfolding leave_validators request_leave validate_leave_request_eligibility
  leave_items who w = ground arith

  join_items :
      (who : ℕ) (w : World Registry B)
      → let r = w.handler in
        let r' = (join_validators cfg cur (signed who) w).1.handler in
        (items r' ≡ items r)
        ⊎ ((length r.validator_set < cfg.max_validators)
            × (contains r.validator_set who ≡ false)
            × (items r'
                ≡ (r.validator_set ++ who ∷ [], r.active_validators, r.validator_leave_requests)))
  unfolding join_validators add_to_set add_state validate_rejoin_eligibility
  join_items who w = ground arith

  cancel_items :
      (who : ℕ) (w : World Registry B)
      → let r = w.handler in
        let r' = (cancel_leave_request cfg cur (signed who) w).1.handler in
        (items r' ≡ items r)
        ⊎ (items r' ≡ (r.validator_set, r.active_validators, erase who r.validator_leave_requests))
        ⊎ ((contains r.validator_set who ≡ true)
            × (contains r.active_validators who ≡ false)
            × (length r.active_validators < cfg.max_validators)
            × (items r' ≡ (
              r.validator_set,
              r.active_validators ++ who ∷ [],
              erase who r.validator_leave_requests,
            )))
  unfolding cancel_leave_request restore_active
  cancel_items who w = ground arith

  expire_items :
      (who : ℕ) (w : World Registry B)
      → let r = w.handler in
        let r' = (expire_request cfg cur who w).1.handler in
        items r' ≡ (
          remove_first who r.validator_set,
          remove_first who r.active_validators,
          erase who r.validator_leave_requests,
        )
  unfolding expire_request
  expire_items who w = ground arith

  pub carry :
      (r : Registry) {t : Items} → items r ≡ t → ValidItems cfg.max_validators t → IsValid cfg r
  carry r e h = subst⁻¹ (ValidItems cfg.max_validators) e h

  pub leave_validators-IsValid :
      (o : Origin) (w : World Registry B)
      → IsValid cfg w.handler
      → IsValid cfg (leave_validators cfg cur o w).1.handler
  unfolding leave_validators
  leave_validators-IsValid root w h = h
  leave_validators-IsValid unsigned w h = h
  leave_validators-IsValid (signed who) w h = elim (leave_items who w) [
    | inl e ↦ carry (leave_validators cfg cur (signed who) w).1.handler e h
    | inr e ↦
        carry (leave_validators cfg cur (signed who) w).1.handler e
          (request-Valid who w.handler.block_number h)
  ]

  pub join_validators-IsValid :
      (o : Origin) (w : World Registry B)
      → IsValid cfg w.handler
      → IsValid cfg (join_validators cfg cur o w).1.handler
  unfolding join_validators
  join_validators-IsValid root w h = h
  join_validators-IsValid unsigned w h = h
  join_validators-IsValid (signed who) w h = elim (join_items who w) [
    | inl e ↦ carry (join_validators cfg cur (signed who) w).1.handler e h
    | inr (room, new, e) ↦
        carry (join_validators cfg cur (signed who) w).1.handler e (enroll-Valid who room new h)
  ]

  pub cancel_leave_request-IsValid :
      (o : Origin) (w : World Registry B)
      → IsValid cfg w.handler
      → IsValid cfg (cancel_leave_request cfg cur o w).1.handler
  unfolding cancel_leave_request
  cancel_leave_request-IsValid root w h = h
  cancel_leave_request-IsValid unsigned w h = h
  cancel_leave_request-IsValid (signed who) w h = elim (cancel_items who w) [
    | inl e ↦ carry (cancel_leave_request cfg cur (signed who) w).1.handler e h
    | inr (inl e) ↦
        carry (cancel_leave_request cfg cur (signed who) w).1.handler e (withdraw-Valid who h)
    | inr (inr (member, new, room, e)) ↦
        carry (cancel_leave_request cfg cur (signed who) w).1.handler e (
          restore-Valid who room member new
            (ground (arith, lookup-erase who who w.handler.validator_leave_requests))
            (withdraw-Valid who h))
  ]

  expire_request-IsValid :
      (v : ℕ) (w : World Registry B)
      → IsValid cfg w.handler
      → IsValid cfg (expire_request cfg cur v w).1.handler
  expire_request-IsValid v w h =
      carry (expire_request cfg cur v w).1.handler (expire_items v w) (drop-Valid v h)

  expire_requests-IsValid :
      (vs : List ℕ) (w : World Registry B)
      → IsValid cfg w.handler
      → IsValid cfg (expire_requests cfg cur vs w).1.handler
  unfolding expire_requests
  expire_requests-IsValid [] w h = h
  expire_requests-IsValid (v ∷ vs) w h =
      expire_requests-IsValid vs (expire_request cfg cur v w).1 (expire_request-IsValid v w h)

  abbrev pub HandlerIsValid : World Registry B → Type 0
  HandlerIsValid w = IsValid cfg w.handler

  process-IsValid : Keeps HandlerIsValid (process_expired_leave_requests cfg cur)
  unfolding process_expired_leave_requests
  process-IsValid w h =
      expire_requests-IsValid
        (expired cfg.leave_cooldown w.handler.block_number w.handler.validator_leave_requests) w h

  check-IsValid :
      (b : Bool) (epoch : ℕ)
      → Keeps HandlerIsValid (
          if b then on_handler (check_and_handle_underperforming_validators cfg epoch) else pure tt)
  check-IsValid true epoch w h = check_and_handle-IsValid cfg epoch w.handler h
  check-IsValid false epoch w h = h

  -- The end of `on_initialize`.
  abbrev check_interval : Action (World Registry B) ⊤
  check_interval w =
      (if w.handler.block_number % cfg.underperformance_check_interval == 0
          then on_handler (check_and_handle_underperforming_validators cfg w.pos.current_epoch)
          else pure tt)
        w

  pub on_initialize-IsValid : Keeps HandlerIsValid (on_initialize cfg cur)
  unfolding on_initialize
  on_initialize-IsValid =
      >>=-Keeps HandlerIsValid (on_handler (cleanup_recently_removed_validators cfg))
        (λ _. process_expired_leave_requests cfg cur >> check_interval)
        (λ w h. cleanup-IsValid cfg w.handler h)
        (λ _.
          >>=-Keeps HandlerIsValid (process_expired_leave_requests cfg cur) (λ _. check_interval)
            process-IsValid
            (λ _ w.
              check-IsValid (w.handler.block_number % cfg.underperformance_check_interval == 0)
                w.pos.current_epoch w))
