-- ===== src/Dvf/Weights/Total.antt =====
-- The total of the frozen voting weights in pallet-cerulea-dvf: it covers the weight map and stays
-- within the scale.
use native.Mathlib.Nat.{div-add-mod}
use cerulea.Common.{
  zero, suc, ap, map_total, insert-map_total-le, ℕ, ◌+◌, ◌*◌, ◌/◌, ◌%◌, ◌^◌, ◌≤◌, ◌<◌, ◌≡◌, refl,
  List, [], ◌∷◌, arith, Map, insert, length, saturating_add, u128_max,
}
use cerulea.Dvf.State.{Config, Finality}
use cerulea.Dvf.Weights.{
  Entry, stake_sum, normalized_weight, freeze, freeze_epoch_weights, vote_weight_scale,
  update_set_id,
}

weight_sum : ℕ → ℕ → List Entry → ℕ
weight_sum ts n [] = 0
weight_sum ts n (e ∷ es) = normalized_weight ts n e.1 + weight_sum ts n es

freeze_total :
    (ts n : ℕ) (es : List Entry) (m : Map ℕ) (t : ℕ)
    → t + weight_sum ts n es ≤ u128_max
    → map_total m ≤ t
    → ((freeze ts n es m t).1 ≡ t + weight_sum ts n es)
      × (map_total (freeze ts n es m t).0 ≤ t + weight_sum ts n es)
unfolding freeze weight_sum
freeze_total ts n [] m t h c = (omega arith, omega arith)
freeze_total ts n (e ∷ es) m t h c =
    let w = normalized_weight ts n e.1 in
    let (p, q) =
      freeze_total ts n es (insert e.0 w m) (saturating_add u128_max t w) (omega arith)
        (omega (arith, insert-map_total-le e.0 w m)) in
    (omega (arith, p), omega (arith, q))

mul-div-le : (x d : ℕ) → d * (x / d) ≤ x
mul-div-le x d = omega (arith, div-add-mod x d)

normalized_weight-le :
    (ts n stake : ℕ) → 0 < ts → ts * normalized_weight ts n stake ≤ stake * vote_weight_scale
unfolding normalized_weight
normalized_weight-le ts n stake h =
    ground (arith, mul-div-le (stake * vote_weight_scale) ts, mul-div-le u128_max ts)

weight_sum_scaled :
    (ts n : ℕ) (es : List Entry)
    → 0 < ts
    → ts * weight_sum ts n es ≤ stake_sum es * vote_weight_scale
unfolding weight_sum
weight_sum_scaled ts n [] h = omega arith
weight_sum_scaled ts n (e ∷ es) h =
    omega (arith, normalized_weight-le ts n e.1 h, weight_sum_scaled ts n es h)

weight_sum_even :
    (n : ℕ) (es : List Entry) → weight_sum 0 n es ≤ length es * (vote_weight_scale / n)
unfolding weight_sum normalized_weight
weight_sum_even n [] = omega arith
weight_sum_even n (e ∷ es) = ground (arith, weight_sum_even n es)

-- All weights of an epoch together stay within the scale.
weight_sum-le :
    (ts n : ℕ) (es : List Entry)
    → ts ≡ stake_sum es
    → n ≡ length es
    → weight_sum ts n es ≤ vote_weight_scale
weight_sum-le zero n es e l = omega (
  arith,
  weight_sum_even n es,
  mul-div-le vote_weight_scale n,
  ap (λ (k : ℕ). k * (vote_weight_scale / n)) l,
)
weight_sum-le (suc k) n es e l =
    let h : suc k * weight_sum (suc k) n es ≤ suc k * vote_weight_scale = omega (
      arith,
      weight_sum_scaled (suc k) n es (omega arith),
      ap (λ (x : ℕ). x * vote_weight_scale) e,
    ) in
    grind (arith, h)

freeze_epoch_weights_weights :
    (cfg : Config) (epoch : ℕ) (es : List Entry) (s : Finality)
    → let f = freeze (stake_sum es % 2 ^ 128) (length es) es [] 0 in
      let s' = (freeze_epoch_weights cfg epoch es s).1 in
      (s'.epoch_voting_weight ≡ f.0) × (s'.total_voting_weight ≡ f.1)
unfolding freeze_epoch_weights update_set_id
freeze_epoch_weights_weights cfg epoch es s = ground arith

-- After the weights of an epoch are frozen, the total covers the sum of the weight map, and is at
-- most the scale of 32000. The stakes must sum to less than 2 ^ 128.
pub freeze_epoch_weights_total :
    (cfg : Config) (epoch : ℕ) (es : List Entry) (s : Finality)
    → stake_sum es < 2 ^ 128
    → let s' = (freeze_epoch_weights cfg epoch es s).1 in
      (map_total s'.epoch_voting_weight ≤ s'.total_voting_weight)
      × (s'.total_voting_weight ≤ vote_weight_scale)
freeze_epoch_weights_total cfg epoch es s h =
    let ts : ℕ = stake_sum es % 2 ^ 128 in
    let bound = weight_sum-le ts (length es) es (omega arith) refl in
    let (p, q) = freeze_total ts (length es) es [] 0 (omega (arith, bound)) (omega arith) in
    let (m, t) = freeze_epoch_weights_weights cfg epoch es s in
    (omega (arith, p, q, ap map_total m, t), omega (arith, p, bound, t))

pub freeze_epoch_weights_head :
    (cfg : Config) (epoch : ℕ) (es : List Entry) (s : Finality)
    → (freeze_epoch_weights cfg epoch es s).1.finalized_block_number ≡ s.finalized_block_number
unfolding freeze_epoch_weights update_set_id
freeze_epoch_weights_head cfg epoch es s = ground arith
