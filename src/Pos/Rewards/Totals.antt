-- ===== src/Pos/Rewards/Totals.antt =====
-- The totals of rewards and slashes in an epoch of pallet-cerulea-pos.
use cerulea.Frame.Action.{Keeps, Action}
use cerulea.Common.{
  ◌==◌, ◌*◌, ◌/◌, ℕ, ◌+◌, ◌≤◌, ◌≡◌, ◌⊎◌, Map, map_total, map_total-insert, lookup-insert, get,
  insert, min, ltb, if◌then◌else◌, saturating_add, u128_max, arith, ⊤, [], List, ◌∷◌, refl, inl,
  inr,
}
use mathlib.Core.Path.{subst⁻¹}
use cerulea.Frame.Currency.{Currency}
use cerulea.Pos.State.{Config, Pos, World, ValidatorHandler}
use cerulea.Pos.Rewards.{
  add_rewarded, add_slashed, requested_slash, execute_reward_validator, execute_slash_validator,
  for_each,
}

-- A total within its bound that is the sum of what each validator has, which is bounded too.
pub record Account (max_total max_each total : ℕ) (each : Map ℕ) : Type 0 where
  pub bounded : total ≤ max_total
  pub summed : map_total each ≡ total
  pub each_bounded : (v : ℕ) → get 0 v each ≤ max_each

add-Account :
    {max_total max_each total : ℕ} {each : Map ℕ} (v amount : ℕ)
    → total + amount ≤ max_total
    → total + amount ≤ u128_max
    → get 0 v each + amount ≤ max_each
    → get 0 v each + amount ≤ u128_max
    → Account max_total max_each total each
    → Account max_total max_each
        (saturating_add u128_max total amount)
        (insert v (saturating_add u128_max (get 0 v each) amount) each)
add-Account {total = total} {each = each} v amount le fits le' fits' h = record {
  bounded = omega (arith, le);
  summed = omega (
    arith,
    map_total-insert v (min (get 0 v each + amount) u128_max) each,
    h.summed,
    fits,
    fits',
  );
  each_bounded = λ a.
      ground (
        arith,
        lookup-insert v a (min (get 0 v each + amount) u128_max) each,
        h.each_bounded a,
        le',
      );
}

pub zero-Account : {max_total max_each : ℕ} → Account max_total max_each 0 []
zero-Account = record { bounded = omega arith; summed = refl; each_bounded = λ a. omega arith }

-- The totals and the two maps of an epoch.
abbrev Totals : Type 0
Totals = (ℕ × Map ℕ) × (ℕ × Map ℕ)

abbrev totals : Pos → Totals
totals p = (
  (p.epoch_total_rewarded, p.validator_epoch_rewarded),
  (p.epoch_total_slashed, p.validator_epoch_slashed),
)

abbrev pub Accounts : Config → Pos → Type 0
Accounts cfg p =
    Account cfg.max_reward_per_epoch cfg.max_reward_per_validator p.epoch_total_rewarded
      p.validator_epoch_rewarded
    × Account cfg.max_slash_per_epoch cfg.max_slash_per_validator p.epoch_total_slashed
        p.validator_epoch_slashed

abbrev AccountsOf : Config → Totals → Type 0
AccountsOf cfg ((r, rs), (s, ss)) =
    Account cfg.max_reward_per_epoch cfg.max_reward_per_validator r rs
    × Account cfg.max_slash_per_epoch cfg.max_slash_per_validator s ss

module _ {H B : Type 0} (cfg : Config) (cur : Currency B) (hdl : ValidatorHandler H) where
  reward_totals :
      (v amount : ℕ) (w : World H B)
      → let p = w.pos in
        let p' = (execute_reward_validator cfg cur hdl v amount w).1.pos in
        let a = if ltb 0 amount then amount else cfg.validator_reward in
        (totals p' ≡ totals p)
        ⊎ ((p.epoch_total_rewarded + a ≤ cfg.max_reward_per_epoch)
            × (p.epoch_total_rewarded + a ≤ u128_max)
            × (get 0 v p.validator_epoch_rewarded + a ≤ cfg.max_reward_per_validator)
            × (get 0 v p.validator_epoch_rewarded + a ≤ u128_max)
            × (totals p' ≡ (
              (
                saturating_add u128_max p.epoch_total_rewarded a,
                insert v
                    (saturating_add u128_max (get 0 v p.validator_epoch_rewarded) a)
                    p.validator_epoch_rewarded,
              ),
              (p.epoch_total_slashed, p.validator_epoch_slashed),
            )))
  unfolding execute_reward_validator add_rewarded
  reward_totals v amount w = ground arith

  slash_totals :
      (v amount : ℕ) (w : World H B)
      → let p = w.pos in
        let p' = (execute_slash_validator cfg cur hdl v amount w).1.pos in
        let q =
          if amount == 0 then cur.free_balance v w.balances * cfg.slash_percent / 100 else amount in
        let a = min (cur.slash v q w.balances).0 q in
        (totals p' ≡ totals p)
        ⊎ ((p.epoch_total_slashed + a ≤ cfg.max_slash_per_epoch)
            × (p.epoch_total_slashed + a ≤ u128_max)
            × (get 0 v p.validator_epoch_slashed + a ≤ cfg.max_slash_per_validator)
            × (get 0 v p.validator_epoch_slashed + a ≤ u128_max)
            × (totals p' ≡ (
              (p.epoch_total_rewarded, p.validator_epoch_rewarded),
              (
                saturating_add u128_max p.epoch_total_slashed a,
                insert v
                    (saturating_add u128_max (get 0 v p.validator_epoch_slashed) a)
                    p.validator_epoch_slashed,
              ),
            )))
  unfolding execute_slash_validator add_slashed requested_slash
  slash_totals v amount w = ground arith

  abbrev pub WorldAccounts : World H B → Type 0
  WorldAccounts w = Accounts cfg w.pos

  carry : (p : Pos) {t : Totals} → totals p ≡ t → AccountsOf cfg t → Accounts cfg p
  carry p e h = subst⁻¹ (AccountsOf cfg) e h

  pub execute_reward_validator-Accounts :
      (v amount : ℕ) → Keeps WorldAccounts (execute_reward_validator cfg cur hdl v amount)
  execute_reward_validator-Accounts v amount w (hr, hs) = elim (reward_totals v amount w) [
    | inl e ↦ carry (execute_reward_validator cfg cur hdl v amount w).1.pos e (hr, hs)
    | inr (le, fits, le', fits', e) ↦
        carry (execute_reward_validator cfg cur hdl v amount w).1.pos e (
          add-Account v (if ltb 0 amount then amount else cfg.validator_reward) le fits le' fits'
              hr,
          hs,
        )
  ]

  pub execute_slash_validator-Accounts :
      (v amount : ℕ) → Keeps WorldAccounts (execute_slash_validator cfg cur hdl v amount)
  execute_slash_validator-Accounts v amount w (hr, hs) = elim (slash_totals v amount w) [
    | inl e ↦ carry (execute_slash_validator cfg cur hdl v amount w).1.pos e (hr, hs)
    | inr (le, fits, le', fits', e) ↦
        carry (execute_slash_validator cfg cur hdl v amount w).1.pos e
          (hr, add-Account v _ le fits le' fits' hs)
  ]

  pub for_each-Accounts :
      (call : ℕ → Action (World H B) ⊤)
      → ((v : ℕ) → Keeps WorldAccounts (call v))
      → (vs : List ℕ) → Keeps WorldAccounts (for_each cfg cur hdl call vs)
  unfolding for_each
  for_each-Accounts call k [] w h = h
  for_each-Accounts call k (v ∷ vs) w h = for_each-Accounts call k vs (call v w).1 (k v w h)
