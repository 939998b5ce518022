-- ===== src/Dcf/Trust/Sqrt.antt =====
-- The integer square root of the trust score metrics.
use native.Mathlib.Nat.{div-add-mod, mod-lt, zero-lt-suc}
use cerulea.Common.{
  ℕ, zero, suc, ◌+◌, ◌-◌, ◌*◌, ◌/◌, ◌<◌, ◌≤◌, ◌≡◌, arith, mul-le, ◌⊎◌, inl, inr, ap, refl,
}
use mathlib.Core.Path.{subst⁻¹}
use cerulea.Dcf.Trust.{search, integer_sqrt}

-- The test `mid <= n / mid` asks for `mid * mid <= n` without the product.
square-le : (n m : ℕ) → m ≤ n / m → m * m ≤ n
square-le n m h = omega (arith, mul-le m m (n / m) h, div-add-mod n m)

square-gt : (n m : ℕ) → 0 < m → n / m < m → n < m * m
square-gt n zero pos h = omega (arith, pos)
square-gt n (suc k) pos h = omega (
  arith,
  mul-le (suc k) (suc (n / suc k)) (suc k) h,
  div-add-mod n (suc k),
  mod-lt n (zero-lt-suc k),
)

lt_or_le : (a b : ℕ) → (a < b) ⊎ (b ≤ a)
lt_or_le a b = ground arith

-- What the loop keeps: the result is one below the left end, its square is at most n, and the square
-- of the number above the right end is more.
record Brackets (n left right result : ℕ) : Type 0 where
  next : suc result ≡ left
  below : result * result ≤ n
  above : n < suc right * suc right
  apart : result ≤ right

Root : ℕ → ℕ → Type 0
Root n r = (r * r ≤ n) × (n < suc r * suc r)

-- What the loop returns.
done : (n left right result : ℕ) → right < left → Brackets n left right result → Root n result
unfolding Root
done n left right result h b =
    let e : right ≡ result = omega (arith, h, b.next, b.apart) in
    (b.below, omega (arith, b.above, ap (λ k. suc k * suc k) e))

module _ (n fuel left right result : ℕ) where
  abbrev middle : ℕ
  middle = left + (right - left) / 2

  stops : right < left → search n (suc fuel) left right result ≡ result
  unfolding search
  stops h = ground (arith, h)

  goes_up :
      left ≤ right
      → middle ≤ n / middle
      → search n (suc fuel) left right result ≡ search n fuel (middle + 1) right middle
  unfolding search
  goes_up h m = ground (arith, h, m)

  goes_down :
      left ≤ right
      → n / middle < middle
      → search n (suc fuel) left right result ≡ search n fuel left (middle - 1) result
  unfolding search
  goes_down h m = ground (arith, h, m)

  middle-between : left ≤ right → (left ≤ middle) × (middle ≤ right)
  middle-between h = omega (arith, h)

  up :
      left ≤ right
      → middle ≤ n / middle
      → Brackets n left right result
      → Brackets n (middle + 1) right middle
  up h m b = record {
    next = omega arith;
    below = square-le n middle m;
    above = b.above;
    apart = (middle-between h).1;
  }

  down :
      left ≤ right
      → n / middle < middle
      → Brackets n left right result
      → Brackets n left (middle - 1) result
  down h m b =
      let e : suc (middle - 1) ≡ middle = omega (arith, b.next) in
      record {
        next = b.next;
        below = b.below;
        above = omega (arith, square-gt n middle (omega (arith, b.next)) m, ap (λ k. k * k) e);
        apart = omega (arith, b.next, (middle-between h).0);
      }

search-Root :
    (n fuel left right result : ℕ)
    → right < left + fuel
    → Brackets n left right result
    → Root n (search n fuel left right result)
unfolding search
search-Root n zero left right result h b = done n left right result (omega (arith, h)) b
search-Root n (suc fuel) left right result h b = elim (lt_or_le right left) [
  | inl stop ↦
      subst⁻¹ (Root n) (stops n fuel left right result stop) (done n left right result stop b)
  | inr go ↦
      let mid = left + (right - left) / 2 in
      elim (lt_or_le (n / mid) mid) [
        | inl high ↦ subst⁻¹ (Root n) (goes_down n fuel left right result go high) (
            search-Root n fuel left (mid - 1) result (omega (arith, h, go, b.next))
              (down n fuel left right result go high b))
        | inr low ↦ subst⁻¹ (Root n) (goes_up n fuel left right result go low) (
            search-Root n fuel (mid + 1) right mid (omega (arith, h, go))
              (up n fuel left right result go low b))
      ]
]

integer_sqrt-suc : (k : ℕ) → integer_sqrt (suc k) ≡ search (suc k) (suc k) 1 (suc k) 0
unfolding integer_sqrt
integer_sqrt-suc k = ground arith

-- For every n, the result is the integer square root: its square is at most n, and the square of the
-- next number is more. The loop ends in the fuel that it gets, whatever n is.
pub integer_sqrt_lem :
    (n : ℕ)
    → (integer_sqrt n * integer_sqrt n ≤ n) × (n < suc (integer_sqrt n) * suc (integer_sqrt n))
unfolding integer_sqrt Root
integer_sqrt_lem zero = (omega arith, omega arith)
integer_sqrt_lem (suc k) = subst⁻¹ (Root (suc k)) (integer_sqrt-suc k) (
    search-Root (suc k) (suc k) 1 (suc k) 0 (omega arith) (record {
      next = refl;
      below = omega arith;
      above = omega (arith, mul-le (suc (suc k)) 1 (suc (suc k)) (omega arith));
      apart = omega arith;
    }))
