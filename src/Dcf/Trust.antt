-- ===== src/Dcf/Trust.antt =====
-- Trust scores of cerulea-pallets/pallet-cerulea-dcf/src/lib.rs: the bounds on their changes, and the
-- integer square root of the metrics. Products and sums of u64 wrap around.
pub mod Stable
pub mod Sqrt
use cerulea.Common.{
  ℕ, zero, suc, ◌+◌, ◌-◌, ◌*◌, ◌/◌, ◌%◌, ◌^◌, min, max, Bool, true, false, if◌then◌else◌, leb, ltb,
  ◌==◌, saturating_add, u64_max,
}

pub record TrustScoreBoundsData : Type 0 where
  pub min_score : ℕ
  pub max_score : ℕ
  pub max_growth_rate : ℕ
  pub max_decay_rate : ℕ
  pub stability_factor : ℕ
  pub last_updated_epoch : ℕ

-- `(previous_score * rate as u64) / 10000`
limit : ℕ → ℕ → ℕ
limit previous_score rate = previous_score * rate % 2 ^ 64 / 10_000

-- The score after the limits on growth and decay.
bounded : ℕ → ℕ → TrustScoreBoundsData → ℕ
unfolding limit
bounded new_score previous_score bounds =
    if ltb previous_score new_score
    then saturating_add u64_max previous_score
        (min (new_score - previous_score) (max (limit previous_score bounds.max_growth_rate) 1))
    else previous_score
      - min (previous_score - new_score) (max (limit previous_score bounds.max_decay_rate) 1)

-- The weighted average; the weight of the change is a u32 subtraction.
stabilized : ℕ → ℕ → ℕ → ℕ
stabilized previous_score bounded_score stability_weight =
    (previous_score * stability_weight % 2 ^ 64
      + bounded_score * ((10_000 + 2 ^ 32 - stability_weight) % 2 ^ 32) % 2 ^ 64)
    % 2 ^ 64
    / 10_000

pub apply_trust_score_bounds : ℕ → ℕ → TrustScoreBoundsData → ℕ
unfolding bounded stabilized
apply_trust_score_bounds new_score previous_score bounds =
    if previous_score == 0
    then min (max new_score bounds.min_score) bounds.max_score
    else min
        (max
          (stabilized previous_score (bounded new_score previous_score bounds)
            bounds.stability_factor)
          bounds.min_score)
        bounds.max_score

-- The loop of `integer_sqrt` on fuel: `left`, `right` and `result`.
search : ℕ → ℕ → ℕ → ℕ → ℕ → ℕ
search n zero left right result = result
search n (suc fuel) left right result = elim (leb left right) [
  | false ↦ result
  | true ↦
      let mid = left + (right - left) / 2 in
      elim (leb mid (n / mid)) [
        | true ↦ search n fuel (mid + 1) right mid
        | false ↦ search n fuel left (mid - 1) result
      ]
]

-- The interval holds n numbers, and each round takes at least one away.
pub integer_sqrt : ℕ → ℕ
unfolding search
integer_sqrt n = if n == 0 then 0 else search n n 1 n 0
