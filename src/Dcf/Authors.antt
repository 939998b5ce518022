-- ===== src/Dcf/Authors.antt =====
-- The block authors of an epoch, of cerulea-pallets/pallet-cerulea-dcf/src/lib.rs: the random
-- numbers, the weighted choice of an author, and the sequence of the authors. Bytes are numbers
-- below 256, and `usize` has 32 bits, as in the WebAssembly that the runtime is built to.
pub mod Share
pub mod Total
mod Tests
use cerulea.Common.{
  ℕ, zero, suc, ◌+◌, ◌*◌, ◌/◌, ◌%◌, ◌^◌, min, max, Bool, true, false, if◌then◌else◌, ltb, leb, ◌==◌,
  List, [], ◌∷◌, ◌++◌, map, Option, none, some, Map, get, insert, collect, map_total, length, take,
  is_empty, saturating_add, u64_max,
}

-- `to_le_bytes` of a number of the given number of bytes, and `from_le_bytes`.
abbrev pub to_le_bytes : ℕ → ℕ → List ℕ
to_le_bytes zero x = []
to_le_bytes (suc n) x = x % 256 ∷ to_le_bytes n (x / 256)

abbrev pub from_le_bytes : List ℕ → ℕ
from_le_bytes [] = 0
from_le_bytes (b ∷ bs) = b + 256 * from_le_bytes bs

unfoldable pub bytes_to_u64 : List ℕ → ℕ
bytes_to_u64 bytes = from_le_bytes (take 8 bytes)

-- The bytes of `b"RNG_ADVANCE"`.
abbrev rng_advance : List ℕ
rng_advance = 82 ∷ 78 ∷ 71 ∷ 95 ∷ 65 ∷ 68 ∷ 86 ∷ 65 ∷ 78 ∷ 67 ∷ 69 ∷ []

-- The loop over the weights: the first account whose running sum exceeds the target.
unfoldable pub pick : ℕ → ℕ → Map ℕ → Option ℕ
pick target cumulative_weight [] = none
pick target cumulative_weight ((validator, weight) ∷ ws) =
    let cumulative = saturating_add u64_max cumulative_weight weight in
    let rest = pick target cumulative ws in if ltb target cumulative then some validator else rest

-- `weights[index]`, where an index out of range is a panic.
unfoldable pub account_at : ℕ → Map ℕ → Option ℕ
account_at index [] = none
account_at zero ((validator, weight) ∷ ws) = some validator
account_at (suc index) ((validator, weight) ∷ ws) = account_at index ws

-- `.sum()` of u64 weights.
unfoldable pub total_weight : Map ℕ → ℕ
total_weight ws = map_total ws % 2 ^ 64

-- The choice once the random number is read. `none` is the panic on an empty list.
unfoldable pub choose : Map ℕ → ℕ → Option ℕ
unfolding pick account_at total_weight
choose [] random = none
choose ((validator, weight) ∷ ws) random =
    let all = (validator, weight) ∷ ws in
    elim (total_weight all == 0) [
      | true ↦ account_at (random % 2 ^ 32 % length all) all
      | false ↦ elim (pick (random % total_weight all) 0 all) [
        | none ↦ some validator
        | some chosen ↦ some chosen
      ]
    ]

unfoldable pub select_weighted_author : Map ℕ → List ℕ → Option ℕ
unfolding choose bytes_to_u64
select_weighted_author validator_weights randomness =
    choose validator_weights (bytes_to_u64 randomness)

-- The weight of a validator under the frozen scores of the epoch, if there are any.
unfoldable pub weight_of : Option (List (ℕ × ℕ)) → ℕ → ℕ
weight_of none validator = 1
weight_of (some snapshot) validator = max (get 1 validator (collect snapshot [])) 1

-- The stable sort by the account.
unfoldable pub insert_by_account : ℕ × ℕ → Map ℕ → Map ℕ
insert_by_account e [] = e ∷ []
insert_by_account e (x ∷ xs) = if leb e.0 x.0 then e ∷ x ∷ xs else x ∷ insert_by_account e xs

unfoldable pub sort_by_account : Map ℕ → Map ℕ
unfolding insert_by_account
sort_by_account [] = []
sort_by_account (x ∷ xs) = insert_by_account x (sort_by_account xs)

unfoldable pub validator_weights : Option (List (ℕ × ℕ)) → List ℕ → Map ℕ
unfolding weight_of sort_by_account
validator_weights snapshot validators =
    sort_by_account (map (λ v. (v, weight_of snapshot v)) validators)

-- `blake2_256` is the host function of that name.
module _ (blake2_256 : List ℕ → List ℕ) where
  unfoldable pub advance_deterministic_rng : List ℕ → ℕ → List ℕ
  advance_deterministic_rng current_state step =
      blake2_256 (current_state ++ to_le_bytes 4 step ++ rng_advance)

  -- The loop from an offset on, for as many blocks as the first argument says.
  unfoldable pub author_loop : ℕ → ℕ → Map ℕ → List ℕ → Option (List ℕ)
  unfolding advance_deterministic_rng select_weighted_author
  author_loop zero block_offset weights rng_state = some []
  author_loop (suc n) block_offset weights rng_state =
      let state = advance_deterministic_rng rng_state block_offset in
      let rest = author_loop n (suc block_offset) weights state in
      elim (select_weighted_author weights state) [
        | none ↦ none
        | some author ↦ elim rest [ none ↦ none | some authors ↦ some (author ∷ authors) ]
      ]

  unfoldable pub generate_deterministic_author_sequence :
      ℕ → Option (List (ℕ × ℕ)) → List ℕ → List ℕ → Option (List ℕ)
  unfolding author_loop validator_weights
  generate_deterministic_author_sequence blocks_per_epoch snapshot validators randomness_seed =
      if is_empty validators
      then some []
      else author_loop (min blocks_per_epoch 1_000) 0 (validator_weights snapshot validators)
          randomness_seed
