-- ===== src/Dvf/Weights.antt =====
-- `freeze_epoch_weights` of cerulea-pallets/pallet-cerulea-dvf/src/lib.rs: the voting weights of an
-- epoch, and the id of the validator set.
pub mod Total
mod Tests
use cerulea.Common.{
  ℕ, ◌+◌, ◌/◌, ◌%◌, ◌^◌, ⊤, Bool, true, false, not, ◌&&◌, List, [], ◌∷◌, map, some, if◌then◌else◌,
  leb, ltb, ◌==◌, Map, insert, length, take, saturating_add, saturating_mul, u32_max, u128_max,
}
use cerulea.Common.Sort.{sort}
use cerulea.Frame.Action.{Action, ◌>>=◌, ◌>>◌, pure, gets, modify}
use cerulea.Dvf.State.{Config, Finality, deposit_event, weights_frozen, validator_set_changed}

-- An entry of the argument: account, stake, score.
abbrev pub Entry : Type 0
Entry = ℕ × ℕ × ℕ

abbrev pub accounts : List Entry → List ℕ
accounts = map (λ e. e.0)

abbrev pub vote_weight_scale : ℕ
vote_weight_scale = 32_000

-- The comparison of the sorted account lists.
same : List ℕ → List ℕ → Bool
same [] [] = true
same [] (y ∷ ys) = false
same (x ∷ xs) [] = false
same (x ∷ xs) (y ∷ ys) = x == y && same xs ys

pub set_changed : List ℕ → List ℕ → Bool
unfolding same
set_changed previous new =
    if not (length previous == length new) then true else not (same (sort previous) (sort new))

-- `.sum()` of u128 stakes, before it wraps.
abbrev pub stake_sum : List Entry → ℕ
stake_sum [] = 0
stake_sum (e ∷ es) = e.1 + stake_sum es

pub normalized_weight : ℕ → ℕ → ℕ → ℕ
normalized_weight total_stake count stake =
    if ltb 0 total_stake
    then saturating_mul u128_max stake vote_weight_scale / total_stake
    else if ltb 0 count
    then vote_weight_scale / count
    else 0

-- The loop that fills the weights and adds up the total.
pub freeze : ℕ → ℕ → List Entry → Map ℕ → ℕ → Map ℕ × ℕ
unfolding normalized_weight
freeze total_stake count [] m total = (m, total)
freeze total_stake count (e ∷ es) m total =
    let w = normalized_weight total_stake count e.1 in
    freeze total_stake count es (insert e.0 w m) (saturating_add u128_max total w)

pub update_set_id : List ℕ → Action Finality ⊤
unfolding set_changed
update_set_id new = do
  changed ← gets (λ s. set_changed s.previous_validator_set new)
  if changed
      then (do
        old_id ← gets (λ s. s.validator_set_id)
        let new_id = saturating_add u32_max old_id 1
        modify (λ s. record s {
          validator_set_id = new_id;
          validator_set_id_changed_at = some s.block_number;
        })
        deposit_event (validator_set_changed old_id new_id))
      else pure tt

-- The map is cleared before the loop fills it.
pub freeze_epoch_weights : Config → ℕ → List Entry → Action Finality ⊤
unfolding update_set_id freeze
freeze_epoch_weights cfg epoch validators = do
  update_set_id (accounts validators)
  modify (λ s. record s { previous_validator_set = take cfg.max_validators (accounts validators) })
  let frozen = freeze (stake_sum validators % 2 ^ 128) (length validators) validators [] 0
  modify (λ s. record s { epoch_voting_weight = frozen.0; total_voting_weight = frozen.1 })
  deposit_event (weights_frozen epoch frozen.1)
