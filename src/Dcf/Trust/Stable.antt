-- ===== src/Dcf/Trust/Stable.antt =====
-- How far a trust score moves in one step.
use native.Mathlib.Nat.{div-add-mod}
use mathlib.Core.Path.{ap₂}
use cerulea.Common.{
  ap, ◌∙◌, ℕ, zero, suc, ◌+◌, ◌-◌, ◌*◌, ◌/◌, ◌%◌, ◌^◌, ◌<◌, ◌≤◌, ◌≡◌, min, max, arith, mul-le,
}
use cerulea.Dcf.Trust.{TrustScoreBoundsData, limit, bounded, stabilized, apply_trust_score_bounds}

-- A score always lies within the configured range, wherever it came from.
pub apply_trust_score_bounds-range :
    (new previous : ℕ) (b : TrustScoreBoundsData)
    → b.min_score ≤ b.max_score
    → (b.min_score ≤ apply_trust_score_bounds new previous b)
      × (apply_trust_score_bounds new previous b ≤ b.max_score)
unfolding apply_trust_score_bounds
apply_trust_score_bounds-range new previous b h = ground (arith, h)

mul-le-left : (a b w : ℕ) → a ≤ b → a * w ≤ b * w
mul-le-left a b w h = omega (arith, mul-le w a b h)

add-mul : (a b w : ℕ) → (a + b) * w ≡ a * w + b * w
add-mul a b w = omega arith

split : (t w : ℕ) → w ≤ 10_000 → t * w + t * (10_000 - w) ≡ t * 10_000
split zero w h = omega arith
split (suc t) w h = omega (arith, split t w h)

-- A product below 2 ^ 64 does not wrap.
mod-small : (x : ℕ) → x < 2 ^ 64 → x % 2 ^ 64 ≡ x
mod-small x h = omega arith

stabilized-eq :
    (previous next weight : ℕ)
    → previous < 2 ^ 48
    → next < 2 ^ 48
    → weight ≤ 10_000
    → stabilized previous next weight ≡ (previous * weight + next * (10_000 - weight)) / 10_000
unfolding stabilized
stabilized-eq previous next weight hp hn hw =
    let a = mul-le previous weight 10_000 hw in
    let b = mul-le next (10_000 - weight) 10_000 (omega arith) in
    let c : (10_000 + 2 ^ 32 - weight) % 2 ^ 32 ≡ 10_000 - weight = omega (arith, hw) in
    let d = ap (λ (k : ℕ). next * k) c in
    let x = mod-small (previous * weight) (omega (arith, a, hp)) in
    let y = mod-small (next * (10_000 - weight)) (omega (arith, b, hn)) in
    let z =
      mod-small (previous * weight + next * (10_000 - weight)) (omega (arith, a, b, hp, hn)) in
    ap (λ k. (previous * weight % 2 ^ 64 + next * k % 2 ^ 64) % 2 ^ 64 / 10_000) c
    ∙ ap₂ (λ s t. (s + t) % 2 ^ 64 / 10_000) x y
    ∙ ap (λ k. k / 10_000) z

-- A weighted average lies between the two scores.
average-le :
    (p q w top : ℕ) → w ≤ 10_000 → p ≤ top → q ≤ top → (p * w + q * (10_000 - w)) / 10_000 ≤ top
average-le p q w top hw hp hq =
    let a : p * w ≤ top * w = mul-le-left p top w hp in
    let b : q * (10_000 - w) ≤ top * (10_000 - w) = mul-le-left q top (10_000 - w) hq in
    omega (arith, a, b, split top w hw, div-add-mod (p * w + q * (10_000 - w)) 10_000)

average-ge :
    (p q w low : ℕ) → w ≤ 10_000 → low ≤ p → low ≤ q → low ≤ (p * w + q * (10_000 - w)) / 10_000
average-ge p q w low hw hp hq =
    let a : low * w ≤ p * w = mul-le-left low p w hp in
    let b : low * (10_000 - w) ≤ q * (10_000 - w) = mul-le-left low q (10_000 - w) hq in
    omega (arith, a, b, split low w hw, div-add-mod (p * w + q * (10_000 - w)) 10_000)

-- Scores and rates that do not wrap around.
pub record Moderate (new previous : ℕ) (b : TrustScoreBoundsData) : Type 0 where
  pub scored : 0 < previous
  pub previous_small : previous < 2 ^ 48
  pub new_small : new < 2 ^ 48
  pub growth : b.max_growth_rate ≤ 10_000
  pub decay : b.max_decay_rate ≤ 10_000
  pub stability : b.stability_factor ≤ 10_000

abbrev pub most : ℕ → ℕ → ℕ
most previous rate = max (previous * rate / 10_000) 1

limit-eq :
    (previous rate : ℕ)
    → previous < 2 ^ 48
    → rate ≤ 10_000
    → limit previous rate ≡ previous * rate / 10_000
unfolding limit
limit-eq previous rate hp hr =
    ap (λ k. k / 10_000)
      (mod-small (previous * rate) (omega (arith, mul-le previous rate 10_000 hr, hp)))

module _ (new previous : ℕ) (b : TrustScoreBoundsData) (m : Moderate new previous b) where
  bounded-le :
      (bounded new previous b ≤ previous + most previous b.max_growth_rate)
      × (bounded new previous b ≤ max new previous)
  unfolding bounded
  bounded-le =
      ground
        (arith, limit-eq previous b.max_growth_rate m.previous_small m.growth, m.previous_small)

  bounded-ge : previous - most previous b.max_decay_rate ≤ bounded new previous b
  unfolding bounded
  bounded-ge =
      ground (arith, limit-eq previous b.max_decay_rate m.previous_small m.decay, m.previous_small)

  average_of :
      stabilized previous (bounded new previous b) b.stability_factor
      ≡ (previous * b.stability_factor + bounded new previous b * (10_000 - b.stability_factor))
        / 10_000
  average_of =
      stabilized-eq previous (bounded new previous b) b.stability_factor m.previous_small
        (omega (arith, bounded-le.1, m.previous_small, m.new_small)) m.stability

  -- In one step from a previous score above 0, a score rises by at most the growth rate and falls by
  -- at most the decay rate, or by one point where a rate comes to less, apart from being brought back
  -- into the configured range. Both scores are below 2 ^ 48, and the rates and the stability factor
  -- are at most 10000.
  pub apply_trust_score_bounds_steady :
      let r = apply_trust_score_bounds new previous b in
      (r ≤ max b.min_score (previous + most previous b.max_growth_rate))
      × (min b.max_score (previous - most previous b.max_decay_rate) ≤ r)
  unfolding apply_trust_score_bounds
  apply_trust_score_bounds_steady =
      let next = bounded new previous b in
      let up =
        average-le previous next b.stability_factor (previous + most previous b.max_growth_rate)
          m.stability (omega arith) bounded-le.0 in
      let down =
        average-ge previous next b.stability_factor (previous - most previous b.max_decay_rate)
          m.stability (omega arith) bounded-ge in
      (ground (arith, up, average_of, m.scored), ground (arith, down, average_of, m.scored))

  -- Where the growth limit, weighted by what stability leaves to the change, comes to less than one
  -- point, the score does not rise, however high the new one is.
  pub apply_trust_score_bounds_stuck :
      most previous b.max_growth_rate * (10_000 - b.stability_factor) < 10_000
      → apply_trust_score_bounds new previous b ≤ max b.min_score previous
  unfolding apply_trust_score_bounds
  apply_trust_score_bounds_stuck small =
      let w = 10_000 - b.stability_factor in
      let next = bounded new previous b in
      let a : next * w ≤ (previous + most previous b.max_growth_rate) * w =
        mul-le-left next _ w bounded-le.0 in
      let e : (previous + most previous b.max_growth_rate) * w
          ≡ previous * w + most previous b.max_growth_rate * w =
        add-mul previous (most previous b.max_growth_rate) w in
      let q : (previous * b.stability_factor + next * w) / 10_000 ≤ previous = omega (
        arith,
        a,
        e,
        small,
        split previous b.stability_factor m.stability,
        div-add-mod (previous * b.stability_factor + next * w) 10_000,
      ) in
      ground (arith, q, average_of, m.scored)
