-- ===== src/Dcf/Authors/Share.antt =====
-- How often an account is drawn by select_weighted_author.
use native.Mathlib.Nat.{mod-eq_of_lt}
use cerulea.Common.{
  ℕ, zero, suc, ◌+◌, ◌%◌, ◌≤◌, ◌<◌, ◌≡◌, refl, ap, ◌∙◌, if◌then◌else◌, ltb, ◌==◌, [], ◌∷◌, Option,
  none, some, Map, map_total, arith, saturating_add, u64_max, Bool-cases, ltb→lt, inl, inr,
}
use cerulea.Dcf.Authors.{pick, choose, total_weight}

-- The weight of the entries of an account.
abbrev pub share : ℕ → Map ℕ → ℕ
share v [] = 0
share v ((u, w) ∷ ws) = (if u == v then w else 0) + share v ws

abbrev pub draws : ℕ → Option ℕ → ℕ
draws v none = 0
draws v (some u) = if u == v then 1 else 0

-- How many of the `n` numbers from `start` on draw the account.
abbrev pub tally : (ℕ → Option ℕ) → ℕ → ℕ → ℕ → ℕ
tally f v start zero = 0
tally f v start (suc n) = draws v (f start) + tally f v (suc start) n

tally-add :
    (f : ℕ → Option ℕ) (v start m n : ℕ)
    → tally f v start (m + n) ≡ tally f v start m + tally f v (start + m) n
tally-add f v start zero n = grind arith
tally-add f v start (suc m) n = grind (arith, tally-add f v (suc start) m n)

tally-ext :
    (f g : ℕ → Option ℕ) (v start n : ℕ)
    → ((t : ℕ) → start ≤ t → t < start + n → f t ≡ g t)
    → tally f v start n ≡ tally g v start n
tally-ext f g v start zero h = refl
tally-ext f g v start (suc n) h =
    let first = ap (draws v) (h start (omega arith) (omega arith)) in
    let rest = tally-ext f g v (suc start) n (λ t a b. h t (omega (arith, a)) (omega (arith, b))) in
    omega (arith, first, rest)

tally-const : (u v start n : ℕ) → tally (λ t. some u) v start n ≡ (if u == v then n else 0)
tally-const u v start zero = ground arith
tally-const u v start (suc n) = ground (arith, tally-const u v (suc start) n)

pick-in : (u w t c : ℕ) (ws : Map ℕ) → c + w ≤ u64_max → t < c + w → pick t c ((u, w) ∷ ws) ≡ some u
unfolding pick
pick-in u w t c ws room h = ground arith

pick-after :
    (u w t c : ℕ) (ws : Map ℕ)
    → c + w ≤ u64_max
    → c + w ≤ t
    → pick t c ((u, w) ∷ ws) ≡ pick t (c + w) ws
unfolding pick
pick-after u w t c ws room h =
    let sum : saturating_add u64_max c w ≡ c + w = omega (arith, room) in
    ground (arith, ap (λ d. pick t d ws) sum)

pick-tally :
    (ws : Map ℕ) (c v : ℕ)
    → c + map_total ws ≤ u64_max
    → tally (λ t. pick t c ws) v c (map_total ws) ≡ share v ws
pick-tally [] c v room = refl
pick-tally ((u, w) ∷ ws) c v room =
    let f : ℕ → Option ℕ = λ t. pick t c ((u, w) ∷ ws) in
    let total = map_total ws in
    let split = tally-add f v c w total in
    let inside =
      tally-ext f (λ t. some u) v c w (λ t a b. pick-in u w t c ws (omega (arith, room)) b) in
    let after =
      tally-ext f (λ t. pick t (c + w) ws) v (c + w) total
        (λ t a b. pick-after u w t c ws (omega (arith, room)) a) in
    let rest = pick-tally ws (c + w) v (omega (arith, room)) in
    omega (arith, split, inside, after, rest, tally-const u v c w)

-- A target below the sum of the weights is met.
pick-found :
    (ws : Map ℕ) (t c : ℕ)
    → c + map_total ws ≤ u64_max
    → c ≤ t
    → t < c + map_total ws
    → (u : ℕ) × (pick t c ws ≡ some u)
pick-found [] t c room low high = absurd (omega (arith, low, high))
pick-found ((u, w) ∷ ws) t c room low high = elim (Bool-cases (ltb t (c + w))) [
  | inl h ↦ (u, pick-in u w t c ws (omega (arith, room)) (ltb→lt t (c + w) h))
  | inr h ↦
      let past : c + w ≤ t = ground (arith, h) in
      let rest = pick-found ws t (c + w) (omega (arith, room)) past (omega (arith, high)) in
      (rest.0, pick-after u w t c ws (omega (arith, room)) past ∙ rest.1)
]

choose-pick :
    (ws : Map ℕ) (t : ℕ) → map_total ws ≤ u64_max → t < map_total ws → choose ws t ≡ pick t 0 ws
unfolding choose total_weight
choose-pick [] t room h = absurd (omega (arith, h))
choose-pick ((u, w) ∷ ws) t room h =
    let found =
      pick-found ((u, w) ∷ ws) t 0 (omega (arith, room)) (omega arith) (omega (arith, h)) in
    let all = (u, w) ∷ ws in
    let whole : total_weight all ≡ map_total all = omega (arith, room) in
    let target : t % total_weight all ≡ t = ap (λ m. t % m) whole ∙ mod-eq_of_lt h in
    let same : pick (t % total_weight all) 0 all ≡ some found.0 =
      ap (λ r. pick r 0 all) target ∙ found.1 in
    ground (arith, found.1, same, whole, h)

-- Of the numbers below the sum of the weights, as many draw an account as it has weight, if the sum
-- is a u64.
pub choose-tally :
    (ws : Map ℕ) (v : ℕ)
    → map_total ws ≤ u64_max
    → tally (choose ws) v 0 (map_total ws) ≡ share v ws
choose-tally ws v room =
    tally-ext (choose ws) (λ t. pick t 0 ws) v 0 (map_total ws)
      (λ t a b. choose-pick ws t room (omega (arith, b)))
    ∙ pick-tally ws 0 v (omega (arith, room))
