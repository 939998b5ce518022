-- ===== src/Pos/Distribute/Shared.antt =====
-- The sharing of the reward pools in pallet-cerulea-pos.
use native.Mathlib.Nat.{div-add-mod}
use cerulea.Common.{
  ℕ, zero, suc, ◌+◌, ◌*◌, ◌/◌, ◌≤◌, ◌≡◌, refl, ap, Bool, true, false, List, [], ◌∷◌, map, min,
  if◌then◌else◌, leb, length, take, retain, contains, IsDistinct, arith, mul-le,
}
use cerulea.Pos.State.{Config}
use cerulea.Pos.Distribute.{is_listed, share, Shares, total_reward, shares}

-- What all the listed validators get.
pub paid : Shares → List (ℕ × ℕ) → ℕ
paid sh [] = 0
paid sh (e ∷ es) = total_reward sh e + paid sh es

high : ℕ → List (ℕ × ℕ) → ℕ
high t xs = length (retain (λ e. leb t e.1) xs)

listed : List (ℕ × ℕ) → List (ℕ × ℕ) → ℕ
listed top [] = 0
listed top (e ∷ es) = (if is_listed e.0 top then 1 else 0) + listed top es

total_reward-le :
    (sh : Shares) (e : ℕ × ℕ)
    → total_reward sh e
      ≤ sh.base
        + (if leb sh.threshold e.1 then sh.performance else 0)
        + (if is_listed e.0 sh.top_performers then sh.top else 0)
unfolding total_reward
total_reward-le sh (v, s) = ground arith

mul-if : (p n : ℕ) (b : Bool) → p * ((if b then 1 else 0) + n) ≡ (if b then p else 0) + p * n
mul-if p n true = omega arith
mul-if p n false = omega arith

high-cons :
    (t : ℕ) (e : ℕ × ℕ) (es : List (ℕ × ℕ))
    → high t (e ∷ es) ≡ (if leb t e.1 then 1 else 0) + high t es
unfolding high
high-cons t e es = ground arith

paid-le :
    (sh : Shares) (es : List (ℕ × ℕ))
    → paid sh es
      ≤ sh.base * length es
        + sh.performance * high sh.threshold es
        + sh.top * listed sh.top_performers es
unfolding paid listed
paid-le sh [] = omega arith
paid-le sh (e ∷ es) = omega (
  arith,
  paid-le sh es,
  total_reward-le sh e,
  mul-if sh.performance (high sh.threshold es) (leb sh.threshold e.1),
  ap (λ (n : ℕ). sh.performance * n) (high-cons sh.threshold e es),
  mul-if sh.top (listed sh.top_performers es) (is_listed e.0 sh.top_performers),
)

abbrev pub ids : List (ℕ × ℕ) → List ℕ
ids es = map (λ e. e.0) es

listed-cons :
    (e : ℕ × ℕ) (top es : List (ℕ × ℕ))
    → contains (ids es) e.0 ≡ false
    → listed (e ∷ top) es ≡ listed top es
unfolding listed is_listed
listed-cons e top [] h = refl
listed-cons e top (x ∷ es) h = ground (arith, h, listed-cons e top es)

listed-none : (es : List (ℕ × ℕ)) → listed [] es ≡ 0
unfolding listed is_listed
listed-none [] = refl
listed-none (e ∷ es) = ground (arith, listed-none es)

-- Among distinct validators, no more are in a prefix than it is long.
listed-take :
    (n : ℕ) (es : List (ℕ × ℕ)) → IsDistinct (ids es) → listed (take n es) es ≤ length (take n es)
unfolding listed
listed-take zero es d = omega (arith, listed-none es)
listed-take (suc n) [] d = omega arith
listed-take (suc n) (e ∷ es) d =
    ground (arith, listed-take n es d.1, listed-cons e (take n es) es d.0)

mul-share-le : (pool n k : ℕ) → k ≤ n → share pool n * k ≤ pool
unfolding share
mul-share-le pool zero k h = ground arith
mul-share-le pool (suc n) k h =
    ground (arith, div-add-mod pool (suc n), mul-le (pool / suc n) k (suc n) h)

-- The rewards that a distribution works out never sum to more than the three pools, when the
-- validators are distinct.
pub paid-shares-le :
    (cfg : Config) (scores : List (ℕ × ℕ)) (base_pool performance_pool top_pool : ℕ)
    → IsDistinct (ids scores)
    → paid (shares cfg scores base_pool performance_pool top_pool) scores
      ≤ base_pool + performance_pool + top_pool
unfolding shares high
paid-shares-le cfg scores base_pool performance_pool top_pool d =
    let n = min (length scores * cfg.top_performer_percentage / 100) (length scores) in
    let sh = shares cfg scores base_pool performance_pool top_pool in
    let b : sh.base * length scores ≤ base_pool =
      mul-share-le base_pool (length scores) (length scores) (omega arith) in
    let h : sh.performance * high sh.threshold scores ≤ performance_pool =
      mul-share-le performance_pool (high cfg.high_performance_score scores)
        (high cfg.high_performance_score scores) (omega arith) in
    let t : sh.top * listed sh.top_performers scores ≤ top_pool =
      mul-share-le top_pool (length (take n scores)) (listed (take n scores) scores)
        (listed-take n scores d) in
    omega (arith, paid-le sh scores, b, h, t)
