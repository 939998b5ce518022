-- ===== src/Dcf/Tests.antt =====
-- The theorems on trust scores at the default bounds and at bounds that start lower.
use cerulea.Common.{ℕ, suc, ◌*◌, ◌-◌, ◌<◌, ◌≤◌, arith, min, max, ◌+◌}
use cerulea.Dcf.Trust.{TrustScoreBoundsData, apply_trust_score_bounds, integer_sqrt}
use cerulea.Dcf.Trust.Stable.{Moderate, most, apply_trust_score_bounds_steady}
use cerulea.Dcf.Trust.Sqrt.{integer_sqrt_lem}

abbrev bounds : TrustScoreBoundsData
bounds = record {
  min_score = 10;
  max_score = 10_000;
  max_growth_rate = 500;
  max_decay_rate = 200;
  stability_factor = 8_000;
  last_updated_epoch = 0;
}

new-Moderate :
    (new previous : ℕ)
    → 0 < previous
    → previous ≤ 10_000
    → new ≤ 10_000
    → Moderate new previous bounds
new-Moderate new previous pos small small' = record {
  scored = pos;
  previous_small = omega (arith, small);
  new_small = omega (arith, small');
  growth = omega arith;
  decay = omega arith;
  stability = omega arith;
}

apply_trust_score_bounds_steady_example :
    let r = apply_trust_score_bounds 9_000 5_000 bounds in
    (r ≤ max 10 (5_000 + most 5_000 500)) × (min 10_000 (5_000 - most 5_000 200) ≤ r)
apply_trust_score_bounds_steady_example =
    apply_trust_score_bounds_steady 9_000 5_000 bounds
      (new-Moderate 9_000 5_000 (omega arith) (omega arith) (omega arith))

integer_sqrt_lem_example :
    (integer_sqrt 1_000 * integer_sqrt 1_000 ≤ 1_000)
    × (1_000 < suc (integer_sqrt 1_000) * suc (integer_sqrt 1_000))
integer_sqrt_lem_example = integer_sqrt_lem 1_000
