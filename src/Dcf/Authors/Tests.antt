-- ===== src/Dcf/Authors/Tests.antt =====
-- Author sequences at concrete validators, with a stand-in for the hash function.

use mathlib.Core.List.Perm.{swap}
use cerulea.Common.{
  ℕ, ◌+◌, ◌*◌, min, ◌≡◌, refl, true, List, [], ◌∷◌, some, Map, length, All, contains, arith,
}
use cerulea.Dcf.Authors.{choose, to_le_bytes, from_le_bytes, generate_deterministic_author_sequence}
use cerulea.Dcf.Authors.Share.{tally, choose-tally}
use cerulea.Dcf.Authors.Total.{
  generate_deterministic_author_sequence_total, generate_deterministic_author_sequence-Perm,
}

abbrev mix : List ℕ → List ℕ
mix bytes = to_le_bytes 32 (from_le_bytes bytes * 1_103_515_245 + 12_345)

abbrev weights : Map ℕ
weights = (3, 2) ∷ (5, 1) ∷ (9, 4) ∷ []

abbrev seed : List ℕ
seed = to_le_bytes 32 77

abbrev scores : List (ℕ × ℕ)
scores = (9, 40) ∷ (5, 0) ∷ []

drawn : choose weights 5 ≡ some 9
unfolding choose
drawn = refl

sequence :
    generate_deterministic_author_sequence mix 4 (some scores) (9 ∷ 3 ∷ 5 ∷ []) seed
    ≡ some (9 ∷ 5 ∷ 9 ∷ 9 ∷ [])
unfolding generate_deterministic_author_sequence
sequence = refl

choose-tally_example : tally (choose weights) 9 0 7 ≡ 4
choose-tally_example = choose-tally weights 9 (omega arith)

generate_deterministic_author_sequence_total_example :
    (authors : List ℕ) × (generate_deterministic_author_sequence mix 4
        (some scores)
        (9 ∷ 3 ∷ 5 ∷ [])
        seed
      ≡ some authors)
    × (length authors ≡ min 4 1_000)
    × All (λ a. contains (9 ∷ 3 ∷ 5 ∷ []) a ≡ true) authors
generate_deterministic_author_sequence_total_example =
    generate_deterministic_author_sequence_total mix 4 (some scores) (9 ∷ 3 ∷ 5 ∷ []) seed refl

generate_deterministic_author_sequence-Perm_example :
    generate_deterministic_author_sequence mix 4 (some scores) (9 ∷ 3 ∷ 5 ∷ []) seed
    ≡ generate_deterministic_author_sequence mix 4 (some scores) (3 ∷ 9 ∷ 5 ∷ []) seed
generate_deterministic_author_sequence-Perm_example =
    generate_deterministic_author_sequence-Perm mix 4 (some scores) (9 ∷ 3 ∷ 5 ∷ [])
      (3 ∷ 9 ∷ 5 ∷ []) seed (swap 3 9 (5 ∷ []))
