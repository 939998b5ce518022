-- ===== src/Common/Sort.antt =====
-- Sorting of account ids, as `sort` and a stable sort by the account do it.
use Prim.Native.Nat.{ℕ, suc}
use mathlib.Core.Path.{◌≡◌, refl, sym, ap, ◌∙◌}
use mathlib.Core.Bool.{false, ◌||◌}
use mathlib.Core.List.{List, [], ◌∷◌, Perm, foldr, is_set}
use mathlib.Core.List.Perm.{foldr-eq}
use native.Mathlib.Nat.{ℕ_set}
use native.Mathlib.Omega.{arith}
use cerulea.Common.Lists.{contains, is_empty, length, IsDistinct}
use cerulea.Common.Tests.{leb, ◌==◌, if◌then◌else◌}

abbrev pub insert_sorted : ℕ → List ℕ → List ℕ
insert_sorted a [] = a ∷ []
insert_sorted a (x ∷ xs) = if leb a x then a ∷ x ∷ xs else x ∷ insert_sorted a xs

abbrev pub sort : List ℕ → List ℕ
sort [] = []
sort (x ∷ xs) = insert_sorted x (sort xs)

insert_sorted_comm :
    (a b : ℕ) (xs : List ℕ)
    → insert_sorted a (insert_sorted b xs) ≡ insert_sorted b (insert_sorted a xs)
insert_sorted_comm a b [] = ground arith
insert_sorted_comm a b (x ∷ xs) = ground (arith, insert_sorted_comm a b xs)

sort-fold : (xs : List ℕ) → sort xs ≡ foldr insert_sorted [] xs
sort-fold [] = refl
sort-fold (x ∷ xs) = ap (insert_sorted x) (sort-fold xs)

-- The sorted list does not depend on the order of the entries.
pub sort-Perm : (xs ys : List ℕ) → Perm xs ys → sort xs ≡ sort ys
sort-Perm xs ys p =
    sort-fold xs
    ∙ foldr-eq (is_set ℕ_set) insert_sorted insert_sorted_comm p []
    ∙ sym (sort-fold ys)

pub is_empty-sort : (xs : List ℕ) → is_empty (sort xs) ≡ is_empty xs
is_empty-sort [] = refl
is_empty-sort (x ∷ xs) = is_empty-insert_sorted x (sort xs)
  where
    is_empty-insert_sorted : (a : ℕ) (ys : List ℕ) → is_empty (insert_sorted a ys) ≡ false
    is_empty-insert_sorted a [] = refl
    is_empty-insert_sorted a (y ∷ ys) = ground arith

pub contains-insert_sorted :
    (a b : ℕ) (xs : List ℕ) → contains (insert_sorted a xs) b ≡ (a == b || contains xs b)
contains-insert_sorted a b [] = refl
contains-insert_sorted a b (x ∷ xs) = ground (arith, contains-insert_sorted a b xs)

pub contains-sort : (xs : List ℕ) (a : ℕ) → contains (sort xs) a ≡ contains xs a
contains-sort [] a = refl
contains-sort (x ∷ xs) a = ground (arith, contains-sort xs a, contains-insert_sorted x a (sort xs))

pub length-insert_sorted : (a : ℕ) (xs : List ℕ) → length (insert_sorted a xs) ≡ suc (length xs)
length-insert_sorted a [] = refl
length-insert_sorted a (x ∷ xs) = ground (arith, length-insert_sorted a xs)

pub insert_sorted-IsDistinct :
    (a : ℕ) (xs : List ℕ) → IsDistinct xs → contains xs a ≡ false → IsDistinct (insert_sorted a xs)
insert_sorted-IsDistinct a [] d h = (refl, tt)
insert_sorted-IsDistinct a (x ∷ xs) d h =
    ground (arith, h, d.0, insert_sorted-IsDistinct a xs d.1, contains-insert_sorted a x xs)
