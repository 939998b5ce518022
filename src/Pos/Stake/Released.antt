-- ===== src/Pos/Stake/Released.antt =====
-- Reserved funds and the stake record of pallet-cerulea-pos.
use cerulea.Common.{
  ap, ◌∙◌, min, ℕ, ◌+◌, ◌-◌, ◌≤◌, ◌≡◌, true, has_key, get, lookup-insert, arith, u128_max, some,
}
use cerulea.Frame.Action.{ok, signed}
use cerulea.Frame.Currency.{Currency, Laws}
use cerulea.Pos.State.{Config, World, ValidatorHandler}
use cerulea.Pos.Stake.{increase_validator_stake, decrease_validator_stake}

module _ {H B : Type 0} (cfg : Config) (cur : Currency B) (laws : Laws cur)
    (hdl : ValidatorHandler H) where
  -- A decrease that the reserved funds cover and that leaves the smallest stake frees the amount,
  -- and the stake record stays as it was: the code subtracts what `unreserve` could not move.
  pub decrease_validator_stake_releases :
      (who amount : ℕ) (w : World H B)
      → has_key who w.pos.validators ≡ true
      → cfg.min_stake ≤ get 0 who w.pos.stake - amount
      → amount ≤ cur.reserved_balance who w.balances
      → let w' = (decrease_validator_stake cfg cur hdl (signed who) amount w).1 in
        (get 0 who w'.pos.stake ≡ get 0 who w.pos.stake)
        × (cur.free_balance who w'.balances ≡ cur.free_balance who w.balances + amount)
        × (cur.reserved_balance who w'.balances ≡ cur.reserved_balance who w.balances - amount)
  unfolding decrease_validator_stake
  decrease_validator_stake_releases who amount w known enough covered = ground (
    arith,
    known,
    enough,
    laws.unreserve_covered who amount w.balances covered,
    lookup-insert who who (get 0 who w.pos.stake - (cur.unreserve who amount w.balances).0)
        w.pos.stake,
  )

  -- An increase that the free balance covers succeeds: it moves the amount into the reserve and adds
  -- it to the stake record. The handler must succeed, and the sum must fit in a u128.
  pub increase_validator_stake_adds :
      (who amount : ℕ) (w : World H B) (b : B)
      → has_key who w.pos.validators ≡ true
      → amount ≤ cur.free_balance who w.balances
      → cur.reserve who amount w.balances ≡ some b
      → get 0 who w.pos.stake + amount ≤ u128_max
      → ((hdl.on_stake_increased who amount w.handler).0 ≡ ok tt)
      → let (r, w') = increase_validator_stake cfg cur hdl (signed who) amount w in
        (r ≡ ok tt)
        × (get 0 who w'.pos.stake ≡ get 0 who w.pos.stake + amount)
        × (cur.reserved_balance who w'.balances ≡ cur.reserved_balance who w.balances + amount)
        × (cur.free_balance who w'.balances + amount ≡ cur.free_balance who w.balances)
  unfolding increase_validator_stake
  increase_validator_stake_adds who amount w b known covered reserved fits handled = ground (
    arith,
    known,
    covered,
    reserved,
    fits,
    handled,
    laws.reserve_moves who amount w.balances b reserved,
    lookup-insert who who (min (get 0 who w.pos.stake + amount) u128_max) w.pos.stake,
  )

  increase_keeps :
      (who amount : ℕ) (w : World H B) (b : B)
      → has_key who w.pos.validators ≡ true
      → amount ≤ cur.free_balance who w.balances
      → cur.reserve who amount w.balances ≡ some b
      → ((hdl.on_stake_increased who amount w.handler).0 ≡ ok tt)
      → (increase_validator_stake cfg cur hdl (signed who) amount w).1.pos.validators
        ≡ w.pos.validators
  unfolding increase_validator_stake
  increase_keeps who amount w b known covered reserved handled =
      ground (arith, known, covered, reserved, handled)

  -- Raising the stake and lowering it by the same amount gives the funds back and leaves the stake
  -- record higher by the amount, under the conditions of the raise, for a validator whose stake is
  -- at least the smallest one.
  pub decrease-increase_inflates :
      (who amount : ℕ) (w : World H B) (b : B)
      → has_key who w.pos.validators ≡ true
      → cfg.min_stake ≤ get 0 who w.pos.stake
      → amount ≤ cur.free_balance who w.balances
      → cur.reserve who amount w.balances ≡ some b
      → get 0 who w.pos.stake + amount ≤ u128_max
      → ((hdl.on_stake_increased who amount w.handler).0 ≡ ok tt)
      → let w1 = (increase_validator_stake cfg cur hdl (signed who) amount w).1 in
        let w2 = (decrease_validator_stake cfg cur hdl (signed who) amount w1).1 in
        (get 0 who w2.pos.stake ≡ get 0 who w.pos.stake + amount)
        × (cur.reserved_balance who w2.balances ≡ cur.reserved_balance who w.balances)
        × (cur.free_balance who w2.balances ≡ cur.free_balance who w.balances)
  decrease-increase_inflates who amount w b known enough covered reserved fits handled =
      let w1 = (increase_validator_stake cfg cur hdl (signed who) amount w).1 in
      let (r, stake, held, free) =
        increase_validator_stake_adds who amount w b known covered reserved fits handled in
      let same = increase_keeps who amount w b known covered reserved handled in
      let (stake', free', held') =
        decrease_validator_stake_releases who amount w1 (ap (has_key who) same ∙ known)
          (omega (arith, stake, enough)) (omega (arith, held)) in
      (omega (arith, stake, stake'), omega (arith, held, held'), omega (arith, free, free'))
