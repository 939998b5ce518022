-- ===== src/Common/Lists.antt =====
-- Lists measured by native numbers, and the tests and removals that `Vec` offers.
use Prim.Native.Nat.{ℕ, zero, suc, ◌+◌, ◌≤◌, min}
use mathlib.Core.Path.{◌≡◌, refl, ap}
use mathlib.Core.Bool.{Bool, true, false, ◌||◌}
use mathlib.Core.List.{List, [], ◌∷◌, ◌++◌}
use native.Mathlib.Omega.{arith}
use cerulea.Common.Tests.{◌==◌, if◌then◌else◌}

module _ {ℓ} {A : Type ℓ} where
  abbrev pub length : List A → ℕ
  length [] = 0
  length (x ∷ xs) = suc (length xs)

  abbrev pub take : ℕ → List A → List A
  take zero xs = []
  take (suc n) [] = []
  take (suc n) (x ∷ xs) = x ∷ take n xs

  abbrev pub drop : ℕ → List A → List A
  drop zero xs = xs
  drop (suc n) [] = []
  drop (suc n) (x ∷ xs) = drop n xs

  -- `retain` and `filter` with a Boolean test.
  abbrev pub retain : (A → Bool) → List A → List A
  retain p [] = []
  retain p (x ∷ xs) = let rest = retain p xs in if p x then x ∷ rest else rest

  abbrev pub is_empty : List A → Bool
  is_empty [] = true
  is_empty (x ∷ xs) = false

  abbrev pub All {κ} : (A → Type κ) → List A → Type κ
  All P [] = Unit
  All P (x ∷ xs) = P x × All P xs

  pub length-append : (xs ys : List A) → length (xs ++ ys) ≡ length xs + length ys
  length-append [] ys = omega arith
  length-append (x ∷ xs) ys = omega (arith, length-append xs ys)

  pub length-take : (n : ℕ) (xs : List A) → length (take n xs) ≡ min n (length xs)
  length-take zero xs = omega arith
  length-take (suc n) [] = omega arith
  length-take (suc n) (x ∷ xs) = omega (arith, length-take n xs)

  pub take_all : (n : ℕ) (xs : List A) → length xs ≤ n → take n xs ≡ xs
  take_all zero [] h = refl
  take_all zero (x ∷ xs) h = ground (arith, h)
  take_all (suc n) [] h = refl
  take_all (suc n) (x ∷ xs) h = ap (λ ys. x ∷ ys) (take_all n xs (omega (arith, h)))

  pub length-retain-le : (p : A → Bool) (xs : List A) → length (retain p xs) ≤ length xs
  length-retain-le p [] = omega arith
  length-retain-le p (x ∷ xs) = ground (arith, length-retain-le p xs)

-- `contains` of a list of numbers, and the removal of the first occurrence that the code writes as
-- `if let Some(pos) = v.iter().position(..) { v.remove(pos); }`.
abbrev pub contains : List ℕ → ℕ → Bool
contains [] a = false
contains (x ∷ xs) a = x == a || contains xs a

abbrev pub remove_first : ℕ → List ℕ → List ℕ
remove_first a [] = []
remove_first a (x ∷ xs) = if x == a then xs else x ∷ remove_first a xs

-- No entry stands twice.
abbrev pub IsDistinct : List ℕ → Type 0
IsDistinct [] = Unit {0}
IsDistinct (x ∷ xs) = (contains xs x ≡ false) × IsDistinct xs

pub contains-remove_first_ne :
    (a b : ℕ) (xs : List ℕ) → contains xs b ≡ false → contains (remove_first a xs) b ≡ false
contains-remove_first_ne a b [] h = refl
contains-remove_first_ne a b (x ∷ xs) h = ground (arith, contains-remove_first_ne a b xs)

pub remove_first-IsDistinct : (a : ℕ) (xs : List ℕ) → IsDistinct xs → IsDistinct (remove_first a xs)
remove_first-IsDistinct a [] d = tt
remove_first-IsDistinct a (x ∷ xs) d =
    ground (arith, remove_first-IsDistinct a xs d.1, contains-remove_first_ne a x xs d.0)

pub contains-remove_first :
    (a : ℕ) (xs : List ℕ) → IsDistinct xs → contains (remove_first a xs) a ≡ false
contains-remove_first a [] d = refl
contains-remove_first a (x ∷ xs) d = ground (arith, contains-remove_first a xs d.1)

pub length-remove_first-le : (a : ℕ) (xs : List ℕ) → length (remove_first a xs) ≤ length xs
length-remove_first-le a [] = omega arith
length-remove_first-le a (x ∷ xs) = ground (arith, length-remove_first-le a xs)

pub contains-append_one :
    (xs : List ℕ) (a b : ℕ) → contains (xs ++ a ∷ []) b ≡ (contains xs b || a == b)
contains-append_one [] a b = ground arith
contains-append_one (x ∷ xs) a b = ground (arith, contains-append_one xs a b)

pub append_one-IsDistinct :
    (xs : List ℕ) (a : ℕ) → IsDistinct xs → contains xs a ≡ false → IsDistinct (xs ++ a ∷ [])
append_one-IsDistinct [] a d h = (refl, tt)
append_one-IsDistinct (x ∷ xs) a d h =
    ground (arith, append_one-IsDistinct xs a d.1, contains-append_one xs a x)

-- What a removal leaves of a list of distinct entries.
pub contains-remove_first_iff :
    (a b : ℕ) (xs : List ℕ)
    → IsDistinct xs
    → contains (remove_first a xs) b ≡ (if a == b then false else contains xs b)
contains-remove_first_iff a b [] d = ground arith
contains-remove_first_iff a b (x ∷ xs) d = ground (arith, contains-remove_first_iff a b xs d.1)
