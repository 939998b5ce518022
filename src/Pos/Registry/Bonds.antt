-- ===== src/Pos/Registry/Bonds.antt =====
-- Bonding and unbonding of the plain stake record of pallet-cerulea-pos.
use cerulea.Common.{
  ℕ, ◌+◌, ◌-◌, ◌≤◌, ◌≡◌, ap, ◌∙◌, true, has_key, get, insert, lookup-insert, u128_max, arith,
}
use cerulea.Frame.Action.{signed, ok}
use cerulea.Pos.State.{Config, Pos}
use cerulea.Pos.Registry.{bond_stake, unbond_stake}

module _ (cfg : Config) where
  bond_state :
      (who amount : ℕ) (p : Pos)
      → has_key who p.validators ≡ true
      → cfg.min_stake ≤ amount
      → get 0 who p.stake + amount ≤ u128_max
      → let (r, p') = bond_stake cfg (signed who) amount p in
        (r ≡ ok tt)
        × (p'.validators ≡ p.validators)
        × (p'.stake ≡ insert who (get 0 who p.stake + amount) p.stake)
  unfolding bond_stake
  bond_state who amount p known enough fits = ground (arith, known, enough, fits)

  unbond_state :
      (who amount : ℕ) (p : Pos)
      → has_key who p.validators ≡ true
      → cfg.min_stake + amount ≤ get 0 who p.stake
      → let (r, p') = unbond_stake cfg (signed who) amount p in
        (r ≡ ok tt) × (p'.stake ≡ insert who (get 0 who p.stake - amount) p.stake)
  unfolding unbond_stake
  unbond_state who amount p known enough = ground (arith, known, enough)

  -- A bond is undone by an unbond of the same amount: both succeed and every stake is what it was.
  -- The validator is registered and has the smallest stake before, the amount is at least that, and
  -- the sum fits in a u128.
  pub unbond_stake-bond_stake :
      (who amount : ℕ) (p : Pos)
      → has_key who p.validators ≡ true
      → cfg.min_stake ≤ amount
      → cfg.min_stake ≤ get 0 who p.stake
      → get 0 who p.stake + amount ≤ u128_max
      → let (r1, p1) = bond_stake cfg (signed who) amount p in
        let (r2, p2) = unbond_stake cfg (signed who) amount p1 in
        (r1 ≡ ok tt) × (r2 ≡ ok tt) × ((a : ℕ) → get 0 a p2.stake ≡ get 0 a p.stake)
  unbond_stake-bond_stake who amount p known enough staked fits =
      let p1 = (bond_stake cfg (signed who) amount p).1 in
      let total = get 0 who p.stake + amount in
      let (r1, same, stake) = bond_state who amount p known enough fits in
      let now : get 0 who p1.stake ≡ total =
        ap (get 0 who) stake ∙ ground (arith, lookup-insert who who total p.stake) in
      let (r2, stake') =
        unbond_state who amount p1 (ap (has_key who) same ∙ known) (omega (arith, now, staked)) in
      (
        r1,
        r2,
        λ a.
            ap (get 0 a) stake'
            ∙ ground (
              arith,
              lookup-insert who a (get 0 who p1.stake - amount) p1.stake,
              ap (get 0 a) stake,
              now,
              lookup-insert who a total p.stake,
            ),
      )
