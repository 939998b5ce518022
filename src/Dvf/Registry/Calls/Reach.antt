-- ===== src/Dvf/Registry/Calls/Reach.antt =====
-- The steps of the validator registry of pallet-cerulea-dvf and what every sequence of them keeps.
use cerulea.Common.{
  ⊤, ℕ, ◌≤◌, true, has_key, IsDistinct, List, ◌<◌, ◌≡◌, false, [], ◌∷◌, ◌++◌, arith, length,
  contains, ◌⊎◌, inl, inr,
}
use cerulea.Frame.Action.{Action, Keeps, Origin}
use cerulea.Frame.Currency.{Currency}
use cerulea.Pos.State.{World, on_handler, Pos}
use cerulea.Dvf.Registry.{
  update_active_validators, update_validator_set, set_validator_leave_request,
  remove_validator_leave_request, eject_validator, EjectionReason, Config, Registry, add_state,
  ValidatorState,
}
use cerulea.Dvf.Registry.Valid.{
  eject_validator-IsValid, request-Valid, enroll-Valid, drop-Valid, IsValid, set_active-Valid,
  set_members-Valid, set_request-Valid, withdraw-Valid,
}
use cerulea.Dvf.Registry.Calls.{
  join_validator_set, leave_validator_set, on_initialize, validator_handler, on_joined,
  on_leave_requested, change_state, leave_validators, join_validators, cancel_leave_request,
  add_to_set,
}
use cerulea.Dvf.Registry.Calls.Invariant.{
  items, carry, HandlerIsValid, join_validators-IsValid, leave_validators-IsValid,
  cancel_leave_request-IsValid, on_initialize-IsValid,
}

module _ {B : Type 0} (cfg : Config) (cur : Currency B) where
  -- A step of the registry: a call of `Pallet::join_validators` and its siblings, the hook at the
  -- start of a block, an ejection, or a call of the handler by the staking pallet.
  pub data Call : Type 0 where
    joins leaves cancels asks_to_join asks_to_leave : Origin → Call
    initializes : Call
    ejects : ℕ → EjectionReason → Call
    handles_left : ℕ → Call
    handles_stake_increased handles_stake_decreased : ℕ → ℕ → Call
    handles_slashed handles_rewarded : ℕ → ℕ → ℕ → Call
    handles_joined : ℕ → ℕ → ℕ → Call
    handles_leave_requested : ℕ → Call

  pub run : Call → Action (World Registry B) ⊤
  run (joins o) = join_validators cfg cur o
  run (leaves o) = leave_validators cfg cur o
  run (cancels o) = cancel_leave_request cfg cur o
  run (asks_to_join o) = join_validator_set cfg cur o
  run (asks_to_leave o) = leave_validator_set cfg cur o
  run initializes = on_initialize cfg cur
  run (ejects v reason) = on_handler (eject_validator v reason)
  run (handles_left v) = on_handler (validator_handler.on_left v)
  run (handles_stake_increased v amount) =
      on_handler (validator_handler.on_stake_increased v amount)
  run (handles_stake_decreased v amount) =
      on_handler (validator_handler.on_stake_decreased v amount)
  run (handles_slashed v amount penalty) =
      on_handler (validator_handler.on_slashed v amount penalty)
  run (handles_rewarded v amount boost) = on_handler (validator_handler.on_rewarded v amount boost)
  run (handles_joined epoch v stake) = on_handler (on_joined cfg epoch v stake)
  run (handles_leave_requested v) = on_handler (on_leave_requested v)

  states_items :
      (v : ℕ) (f : ValidatorState → ValidatorState) (r : Registry)
      → items (change_state v f r) ≡ items r
  unfolding change_state
  states_items v f r = ground arith

  asks_to_join_items :
      (o : Origin) (w : World Registry B)
      → items (join_validator_set cfg cur o w).1.handler ≡ items w.handler
  unfolding join_validator_set
  asks_to_join_items o w = ground arith

  asks_to_leave_items :
      (o : Origin) (w : World Registry B)
      → items (leave_validator_set cfg cur o w).1.handler ≡ items w.handler
  unfolding leave_validator_set
  asks_to_leave_items o w = ground arith

  joined_items :
      (epoch v stake : ℕ) (r : Registry)
      → let r' = (on_joined cfg epoch v stake r).1 in
        (items r' ≡ items r)
        ⊎ ((length r.validator_set < cfg.max_validators)
            × (contains r.validator_set v ≡ false)
            × (items r'
                ≡ (r.validator_set ++ v ∷ [], r.active_validators, r.validator_leave_requests)))
  unfolding on_joined add_to_set add_state
  joined_items epoch v stake r = ground arith

  -- Every step keeps the registry's invariant.
  run-IsValid : (c : Call) → Keeps (HandlerIsValid cfg cur) (run c)
  unfolding run validator_handler on_leave_requested
  run-IsValid (joins o) w h = join_validators-IsValid cfg cur o w h
  run-IsValid (leaves o) w h = leave_validators-IsValid cfg cur o w h
  run-IsValid (cancels o) w h = cancel_leave_request-IsValid cfg cur o w h
  run-IsValid (asks_to_join o) w h =
      carry cfg cur (join_validator_set cfg cur o w).1.handler (asks_to_join_items o w) h
  run-IsValid (asks_to_leave o) w h =
      carry cfg cur (leave_validator_set cfg cur o w).1.handler (asks_to_leave_items o w) h
  run-IsValid initializes w h = on_initialize-IsValid cfg cur w h
  run-IsValid (ejects v reason) w h = eject_validator-IsValid cfg v reason w.handler h
  run-IsValid (handles_left v) w h = drop-Valid v h
  run-IsValid (handles_stake_increased v amount) w h =
      carry cfg cur (change_state v _ w.handler) (states_items v _ w.handler) h
  run-IsValid (handles_stake_decreased v amount) w h =
      carry cfg cur (change_state v _ w.handler) (states_items v _ w.handler) h
  run-IsValid (handles_slashed v amount penalty) w h =
      carry cfg cur (change_state v _ w.handler) (states_items v _ w.handler) h
  run-IsValid (handles_rewarded v amount boost) w h =
      carry cfg cur (change_state v _ w.handler) (states_items v _ w.handler) h
  run-IsValid (handles_joined epoch v stake) w h = elim (joined_items epoch v stake w.handler) [
    | inl e ↦ carry cfg cur (on_joined cfg epoch v stake w.handler).1 e h
    | inr (room, new, e) ↦
        carry cfg cur (on_joined cfg epoch v stake w.handler).1 e (enroll-Valid v room new h)
  ]
  run-IsValid (handles_leave_requested v) w h = request-Valid v w.handler.block_number h

  -- The sequences. Between the steps the rest of the chain changes the staking pallet's storage and
  -- the balances, blocks begin, and the coordination pallet writes the sets and the leave requests
  -- through the interface of the registry: those writes are steps where what is written fits the
  -- rest. The registry does not check it, and `force_validator_leave` of the private chain mode writes
  -- a set without a validator that stays active.
  pub data Reach : World Registry B → World Registry B → Type 0 where
    here : {w : World Registry B} → Reach w w
    calls : {w w' : World Registry B} → Reach w w' → (c : Call) → Reach w (run c w').1
    moves :
        {w w' : World Registry B}
        → Reach w w'
        → (p : Pos) (b : B) (n : ℕ)
        → Reach w (record w' {
          pos = p;
          balances = b;
          handler = record (w'.handler) { block_number = n };
        })
    -- distinct members of the set without a leave request
    sets_active :
        {w w' : World Registry B}
        → Reach w w'
        → (vs : List ℕ) → IsDistinct vs
        → length vs ≤ cfg.max_validators
        → ((a : ℕ) → contains vs a ≡ true → contains w'.handler.validator_set a ≡ true)
        → ((a : ℕ) → has_key a w'.handler.validator_leave_requests ≡ true → contains vs a ≡ false)
        → Reach w (on_handler (update_active_validators cfg vs) w').1
    -- distinct validators, the active ones among them
    sets_members :
        {w w' : World Registry B}
        → Reach w w'
        → (vs : List ℕ) → IsDistinct vs
        → length vs ≤ cfg.max_validators
        → ((a : ℕ) → contains w'.handler.active_validators a ≡ true → contains vs a ≡ true)
        → Reach w (on_handler (update_validator_set cfg vs) w').1
    -- a request of a validator that is not active
    sets_request :
        {w w' : World Registry B}
        → Reach w w'
        → (v n : ℕ) → contains w'.handler.active_validators v ≡ false
        → Reach w (on_handler (set_validator_leave_request v n) w').1
    removes_request :
        {w w' : World Registry B}
        → Reach w w'
        → (v : ℕ) → Reach w (on_handler (remove_validator_leave_request v) w').1

  -- Whatever steps are taken, in whatever order: both validator sets hold nobody twice and stay
  -- within the bound, active validators stand in the validator set, and nobody with a leave request
  -- is active. The steps are the calls and hooks of the finality pallet, the calls of its handler,
  -- and those writes of the coordination pallet to the sets and the leave requests that fit the rest:
  -- active validators that are distinct members of the set without a leave request, a set of distinct
  -- validators with the active ones among them, both within the bound, a leave request of a validator
  -- that is not active, and the removal of a leave request.
  pub Reach-IsValid :
      {w w' : World Registry B} → Reach w w' → IsValid cfg w.handler → IsValid cfg w'.handler
  unfolding update_active_validators update_validator_set set_validator_leave_request
      remove_validator_leave_request
  Reach-IsValid here h = h
  Reach-IsValid (calls s c) h = run-IsValid c _ (Reach-IsValid s h)
  Reach-IsValid (moves s p b n) h = Reach-IsValid s h
  Reach-IsValid (sets_active s vs distinct bound member free) h =
      set_active-Valid vs distinct bound member free (Reach-IsValid s h)
  Reach-IsValid (sets_members s vs distinct bound member) h =
      set_members-Valid vs distinct bound member (Reach-IsValid s h)
  Reach-IsValid (sets_request s v n idle) h = set_request-Valid v n idle (Reach-IsValid s h)
  Reach-IsValid (removes_request s v) h = withdraw-Valid v (Reach-IsValid s h)
