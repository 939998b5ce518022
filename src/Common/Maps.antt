-- ===== src/Common/Maps.antt =====
-- A storage map keyed by numbers (account ids, rounds, hashes) as an association list. The order
-- of the entries stands for the order in which `iter()` of the map yields them.
use mathlib.Core.Path.{◌≡◌, refl}
use mathlib.Core.Bool.{Bool, true, false}
use mathlib.Core.Option.{Option, none, some}
use mathlib.Core.List.{List, [], ◌∷◌}
use Prim.Native.Nat.{ℕ, suc, ◌+◌, ◌≤◌}
use native.Mathlib.Omega.{arith}
use cerulea.Common.Lists.{length}
use cerulea.Common.Tests.{◌==◌, if◌then◌else◌}

abbrev pub Map {ℓ} : Type ℓ → Type ℓ
Map V = List (ℕ × V)

module _ {ℓ} {V : Type ℓ} where
  abbrev pub lookup : ℕ → Map V → Option V
  lookup k [] = none
  lookup k ((j, v) ∷ m) = if j == k then some v else lookup k m

  -- `contains_key`
  abbrev pub has_key : ℕ → Map V → Bool
  has_key k m = elim (lookup k m) [ none ↦ false | some v ↦ true ]

  -- `get` of a map with a default, and `get(..).unwrap_or(d)`
  abbrev pub get : V → ℕ → Map V → V
  get d k m = elim (lookup k m) [ none ↦ d | some v ↦ v ]

  abbrev pub insert : ℕ → V → Map V → Map V
  insert k v [] = (k, v) ∷ []
  insert k v ((j, w) ∷ m) = if j == k then (k, v) ∷ m else (j, w) ∷ insert k v m

  -- `remove`
  abbrev pub erase : ℕ → Map V → Map V
  erase k [] = []
  erase k ((j, w) ∷ m) = let rest = erase k m in if j == k then rest else (j, w) ∷ rest

  pub lookup-insert :
      (k j : ℕ) (v : V) (m : Map V)
      → lookup j (insert k v m) ≡ (if k == j then some v else lookup j m)
  lookup-insert k j v [] = refl
  lookup-insert k j v ((i, w) ∷ m) = ground (arith, lookup-insert k j v m)

  pub lookup-erase :
      (k j : ℕ) (m : Map V) → lookup j (erase k m) ≡ (if k == j then none else lookup j m)
  lookup-erase k j [] = ground arith
  lookup-erase k j ((i, w) ∷ m) = ground (arith, lookup-erase k j m)

-- The sum of the values of a map.
abbrev pub map_total : Map ℕ → ℕ
map_total [] = 0
map_total ((k, w) ∷ m) = w + map_total m

pub insert-map_total-le : (k w : ℕ) (m : Map ℕ) → map_total (insert k w m) ≤ map_total m + w
insert-map_total-le k w [] = omega arith
insert-map_total-le k w ((j, v) ∷ m) = ground (arith, insert-map_total-le k w m)

-- Replacing the value of a key moves the sum by the difference.
pub map_total-insert :
    (k w : ℕ) (m : Map ℕ) → map_total (insert k w m) + get 0 k m ≡ map_total m + w
map_total-insert k w [] = omega arith
map_total-insert k w ((j, v) ∷ m) = ground (arith, map_total-insert k w m)

erase-map_total-le : (a : ℕ) (m : Map ℕ) → map_total (erase a m) ≤ map_total m
erase-map_total-le a [] = omega arith
erase-map_total-le a ((k, w) ∷ m) = ground (arith, erase-map_total-le a m)

pub get-map_total-erase : (a : ℕ) (m : Map ℕ) → get 0 a m + map_total (erase a m) ≤ map_total m
get-map_total-erase a [] = omega arith
get-map_total-erase a ((k, w) ∷ m) = ground (arith, get-map_total-erase a m, erase-map_total-le a m)

module _ {ℓ} {V : Type ℓ} where
  pub length-insert :
      (k : ℕ) (v : V) (m : Map V)
      → length (insert k v m) ≡ (if has_key k m then length m else suc (length m))
  length-insert k v [] = refl
  length-insert k v ((j, w) ∷ m) = ground (arith, length-insert k v m)

  pub length-erase-le : (k : ℕ) (m : Map V) → length (erase k m) ≤ length m
  length-erase-le k [] = omega arith
  length-erase-le k ((j, w) ∷ m) = ground (arith, length-erase-le k m)

-- No key stands twice.
abbrev pub IsUnique : {V : Type 0} → Map V → Type 0
IsUnique [] = Unit {0}
IsUnique ((k, v) ∷ m) = (has_key k m ≡ false) × IsUnique m

pub insert-IsUnique :
    {V : Type 0} (k : ℕ) (v : V) (m : Map V) → IsUnique m → IsUnique (insert k v m)
insert-IsUnique k v [] u = (refl, tt)
insert-IsUnique k v ((j, w) ∷ m) u =
    ground (arith, u.0, insert-IsUnique k v m u.1, lookup-insert k j v m)

pub erase-IsUnique : {V : Type 0} (k : ℕ) (m : Map V) → IsUnique m → IsUnique (erase k m)
erase-IsUnique k [] u = tt
erase-IsUnique k ((j, w) ∷ m) u = ground (arith, u.0, erase-IsUnique k m u.1, lookup-erase k j m)

-- `into_iter().collect()` of pairs into a map: the last entry of a key wins.
abbrev pub collect {ℓ} : {V : Type ℓ} → List (ℕ × V) → Map V → Map V
collect [] m = m
collect ((k, v) ∷ entries) m = collect entries (insert k v m)
