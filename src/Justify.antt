-- ===== src/Justify.antt =====
-- cerulea-node/src/cerulea-consensus/src/justification_builder.rs: justifications are built from the
-- votes of the pool and verified. The answers of the runtime at the best block, the check of
-- signatures and the size of the encoding are parameters; logging and metrics are left out.
pub mod Aggregate
pub mod Selected
mod Sample
pub mod Accepted
pub mod OnChain
mod Tests
use cerulea.Common.{
  ℕ, ◌+◌, ◌%◌, ◌^◌, Bool, true, false, not, List, [], ◌∷◌, map, Option, none, some, if◌then◌else◌,
  leb, ltb, ◌==◌, Map, lookup, collect, map_total, length, is_empty, contains, saturating_add,
  u128_max,
}
use cerulea.Dvf.Finality.{or_else}
use cerulea.Gossip.Pool.{DvfVoteMessage, DvfVotePool, get_votes}
use cerulea.Gossip.Validate.{SignedPart, signed_part}

-- `DvfJustification` of dvf_gossip.rs
pub record DvfJustification : Type 0 where
  pub round_number : ℕ
  pub block_hash : ℕ
  pub votes : List DvfVoteMessage

-- The error strings.
pub data BuildError : Type 0 where
  runtime_api_failed no_votes_found no_weights_found no_votes finality_refused : BuildError
  duplicate_validator not_signed not_active no_weight : ℕ → BuildError
  below_threshold : ℕ → ℕ → BuildError
  size_exceeded too_many_votes : ℕ → ℕ → BuildError
  set_id_mismatch round_mismatch : ℕ → ℕ → BuildError
  hash_mismatch : ℕ → BuildError

pub data Built (A : Type 0) : Type 0 where
  built : A → Built A
  failed : BuildError → Built A

infixl 5 ◌>>=◌ ◌>>◌
abbrev pub ◌>>=◌ : {A B : Type 0} → Built A → (A → Built B) → Built B
built a >>= f = f a
failed e >>= f = failed e

abbrev pub ◌>>◌ : {A B : Type 0} → Built A → Built B → Built B
m >> k = m >>= λ _. k

abbrev pub check : Bool → BuildError → Built (Unit {0})
check true e = built tt
check false e = failed e

abbrev pub answer : {A : Type 0} → Option A → Built A
answer none = failed runtime_api_failed
answer (some a) = built a

-- The answers of the runtime, `none` where a call fails, and the functions of other libraries: the
-- product of the finality threshold with a weight, the check of a signature of a key, and the length
-- of the encoding.
pub record Node : Type 0 where
  pub get_validator_weights : Option (List (ℕ × ℕ))
  pub get_validator_set : Option (List ℕ)
  pub get_finality_threshold_perbill : Option (ℕ → ℕ)
  pub ed25519_verify : SignedPart → ℕ → ℕ → Bool
  pub encoded_len : DvfJustification → ℕ

abbrev max_justification_size : ℕ
max_justification_size = 1_048_576

abbrev pub Weighted : Type 0
Weighted = List (DvfVoteMessage × ℕ)

-- The votes whose voters have a weight, with it.
unfoldable pub with_weights : Map ℕ → List DvfVoteMessage → Weighted
with_weights weights [] = []
with_weights weights (v ∷ vs) =
    let rest = with_weights weights vs in
    elim (lookup v.validator_account_id weights) [ none ↦ rest | some w ↦ (v, w) ∷ rest ]

-- The stable sort by the weight, the heaviest first.
unfoldable pub insert_heavy : DvfVoteMessage × ℕ → Weighted → Weighted
insert_heavy e [] = e ∷ []
insert_heavy e (x ∷ xs) = if leb x.1 e.1 then e ∷ x ∷ xs else x ∷ insert_heavy e xs

unfoldable pub sort_heavy : Weighted → Weighted
unfolding insert_heavy
sort_heavy [] = []
sort_heavy (x ∷ xs) = insert_heavy x (sort_heavy xs)

-- The loop that takes votes until their weight reaches the threshold.
unfoldable pub take_votes : ℕ → ℕ → Weighted → List DvfVoteMessage
take_votes threshold accumulated [] = []
take_votes threshold accumulated ((v, w) ∷ ws) =
    let total = saturating_add u128_max accumulated w in
    let rest = take_votes threshold total ws in if leb threshold total then v ∷ [] else v ∷ rest

-- `weight_map.values().sum()` of u128 weights.
unfoldable pub total_weight : Map ℕ → ℕ
total_weight weights = map_total weights % 2 ^ 128

unfoldable pub select_votes : Node → DvfVotePool → ℕ → ℕ → Built (List DvfVoteMessage)
unfolding with_weights sort_heavy take_votes total_weight
select_votes node pool round block_hash = do
  let votes = get_votes round block_hash pool
  check (not (is_empty votes)) no_votes_found
  entries ← answer node.get_validator_weights
  let weights = collect entries []
  let weighted = with_weights weights votes
  check (not (is_empty weighted)) no_weights_found
  perbill ← answer node.get_finality_threshold_perbill
  built (take_votes (perbill (total_weight weights)) 0 (sort_heavy weighted))

-- The loop that looks for a validator that stands twice.
unfoldable pub check_duplicates : List ℕ → List DvfVoteMessage → Built (Unit {0})
check_duplicates seen [] = built tt
check_duplicates seen (v ∷ vs) =
    let rest = check_duplicates (v.validator_account_id ∷ seen) vs in
    if contains seen v.validator_account_id
    then failed (duplicate_validator v.validator_account_id)
    else rest

-- The weights of the votes, where a vote without a weight counts nothing.
unfoldable pub accumulate : Map ℕ → ℕ → List DvfVoteMessage → ℕ
accumulate weights accumulated [] = accumulated
accumulate weights accumulated (v ∷ vs) =
    accumulate weights
      (elim (lookup v.validator_account_id weights) [
        | none ↦ accumulated
        | some w ↦ saturating_add u128_max accumulated w
      ])
      vs

unfoldable pub enforce_size_limits : Node → DvfJustification → Built (Unit {0})
enforce_size_limits node j = do
  let size = node.encoded_len j
  check (leb size max_justification_size) (size_exceeded size max_justification_size)
  active ← answer node.get_validator_set
  check (leb (length j.votes) (length active)) (too_many_votes (length j.votes) (length active))

unfoldable pub construct_justification : Node → DvfVotePool → ℕ → ℕ → Built DvfJustification
unfolding select_votes check_duplicates accumulate enforce_size_limits
construct_justification node pool round block_hash = do
  selected ← select_votes node pool round block_hash
  check_duplicates [] selected
  let j : DvfJustification = record {
    round_number = round;
    block_hash = block_hash;
    votes = selected;
  }
  entries ← answer node.get_validator_weights
  let weights = collect entries []
  let accumulated = accumulate weights 0 selected
  perbill ← answer node.get_finality_threshold_perbill
  let threshold = perbill (total_weight weights)
  check (leb threshold accumulated) (below_threshold accumulated threshold)
  enforce_size_limits node j
  built j

-- One round of the loop of `verify_justification`: the validators seen before, the validator set id
-- that the first vote fixed, and the vote; the result is the voter's weight.
unfoldable pub check_vote :
    Node → List ℕ → Map ℕ → DvfJustification → List ℕ → Option ℕ → DvfVoteMessage → Built ℕ
check_vote node active weights j seen expected v = do
  check (not (contains seen v.validator_account_id)) (duplicate_validator v.validator_account_id)
  check (node.ed25519_verify (signed_part v) v.signature v.validator_public_key)
      (not_signed v.validator_account_id)
  elim expected [
    | none ↦ built tt
    | some id ↦ check (v.validator_set_id == id) (set_id_mismatch id v.validator_set_id)
  ]
  check (v.round_number == j.round_number) (round_mismatch j.round_number v.round_number)
  check (v.block_hash == j.block_hash) (hash_mismatch v.validator_account_id)
  check (contains active v.validator_account_id) (not_active v.validator_account_id)
  elim (lookup v.validator_account_id weights) [
    | none ↦ failed (no_weight v.validator_account_id)
    | some w ↦ built w
  ]

unfoldable pub check_votes :
    Node → List ℕ → Map ℕ → DvfJustification → List ℕ → Option ℕ → ℕ → List DvfVoteMessage → Built ℕ
unfolding check_vote
check_votes node active weights j seen expected accumulated [] = built accumulated
check_votes node active weights j seen expected accumulated (v ∷ vs) =
    check_vote node active weights j seen expected v >>= λ w.
    check_votes node active weights j (v.validator_account_id ∷ seen)
      (or_else expected v.validator_set_id) (saturating_add u128_max accumulated w) vs

unfoldable pub verify_justification : Node → DvfJustification → Built (Unit {0})
unfolding check_votes total_weight
verify_justification node j = do
  check (not (is_empty j.votes)) no_votes
  active ← answer node.get_validator_set
  entries ← answer node.get_validator_weights
  let weights = collect entries []
  accumulated ← check_votes node active weights j [] none 0 j.votes
  perbill ← answer node.get_finality_threshold_perbill
  let threshold = perbill (total_weight weights)
  check (leb threshold accumulated) (below_threshold accumulated threshold)
