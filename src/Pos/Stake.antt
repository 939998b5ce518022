-- ===== src/Pos/Stake.antt =====
-- The calls of cerulea-pallets/pallet-cerulea-pos/src/lib.rs that move reserved funds together with
-- the stake record, and the forced ejection.
pub mod Released
use cerulea.Common.{
  ℕ, ◌-◌, ⊤, if◌then◌else◌, leb, ltb, has_key, get, insert, erase, saturating_add, u128_max, none,
  some,
}
use cerulea.Frame.Errors.{pos_error, validator_not_in_set, insufficient_stake}
use cerulea.Frame.Action.{
  Action, ◌>>=◌, ◌>>◌, pure, gets, modify, ensure, ignore, Origin, ensure_signed, ok, err,
}
use cerulea.Frame.Currency.{Currency}
use cerulea.Pos.State.{
  Config, World, ValidatorHandler, on_pos, on_handler, deposit_event, validator_stake_reserved,
  validator_stake_unreserved, validator_stake_increased, validator_stake_decreased, validator_left,
}

module _ {H B : Type 0} (cur : Currency B) where
  -- `T::Currency::reserve(..).map_err(|_| InsufficientStake)?`
  abbrev pub reserve_or_fail : ℕ → ℕ → Action (World H B) ⊤
  reserve_or_fail who amount w = elim (cur.reserve who amount w.balances) [
    | none ↦ (err (pos_error insufficient_stake), w)
    | some b ↦ (ok tt, record w { balances = b })
  ]

  abbrev pub unreserve : ℕ → ℕ → Action (World H B) ℕ
  unreserve who amount w =
      let (rest, b) = cur.unreserve who amount w.balances in (ok rest, record w { balances = b })

module _ {H B : Type 0} (cfg : Config) (cur : Currency B) (hdl : ValidatorHandler H) where
  pub increase_validator_stake : Origin → ℕ → Action (World H B) ⊤
  increase_validator_stake origin additional_amount = do
    who ← ensure_signed origin
    known ← gets (λ w. has_key who w.pos.validators)
    ensure known (pos_error validator_not_in_set)
    free_balance ← gets (λ w. cur.free_balance who w.balances)
    ensure (leb additional_amount free_balance) (pos_error insufficient_stake)
    reserve_or_fail cur who additional_amount
    modify (λ w. record w {
      pos = record (w.pos) {
        stake =
            insert who (saturating_add u128_max (get 0 who w.pos.stake) additional_amount)
              w.pos.stake;
      };
    })
    on_handler (hdl.on_stake_increased who additional_amount)
    on_pos (deposit_event (validator_stake_reserved who additional_amount))
    on_pos (deposit_event (validator_stake_increased who additional_amount))

  pub decrease_validator_stake : Origin → ℕ → Action (World H B) ⊤
  decrease_validator_stake origin decrease_amount = do
    who ← ensure_signed origin
    known ← gets (λ w. has_key who w.pos.validators)
    ensure known (pos_error validator_not_in_set)
    current_stake ← gets (λ w. get 0 who w.pos.stake)
    ensure (leb cfg.min_stake (current_stake - decrease_amount)) (pos_error insufficient_stake)
    unreserved ← unreserve cur who decrease_amount
    modify (λ w. record w {
      pos = record (w.pos) { stake = insert who (get 0 who w.pos.stake - unreserved) w.pos.stake };
    })
    on_handler (hdl.on_stake_decreased who unreserved)
    on_pos (deposit_event (validator_stake_unreserved who unreserved))
    on_pos (deposit_event (validator_stake_decreased who unreserved))

  pub force_eject_validator : ℕ → Action (World H B) ⊤
  force_eject_validator validator = do
    stake_amount ← gets (λ w. get 0 validator w.pos.stake)
    if ltb 0 stake_amount
        then (do
          ignore (unreserve cur validator stake_amount)
          on_pos (deposit_event (validator_stake_unreserved validator stake_amount)))
        else pure tt
    modify (λ w. record w {
      pos = record (w.pos) {
        validators = erase validator w.pos.validators;
        stake = erase validator w.pos.stake;
      };
    })
    ignore (on_handler (hdl.on_left validator))
    on_pos (deposit_event (validator_left validator))
