-- ===== src/Dvf/Finality/Justified.antt =====
-- What the checks of a justification in pallet-cerulea-dvf establish: which votes pass, and how much
-- weight they carry.
use cerulea.Common.{
  none, ℕ, ◌+◌, ◌≤◌, ◌<◌, ◌≡◌, refl, inl, inr, true, false, List, [], ◌∷◌, map, Option, arith, ap,
  Map, get, has_key, some, contains, IsDistinct, All, saturating_add, u128_max,
}
use cerulea.Frame.Action.{Result-cases, ok}
use cerulea.Dvf.State.{DvfVote, DvfJustification, Config, Finality}
use cerulea.Dvf.Finality.{
  is_checkpoint_block, finalize_block, verify_votes, verify_headed,
  verify_and_finalize_justification, is_signed, check_vote, check_votes, or_else,
}

abbrev pub voters : List DvfVote → List ℕ
voters = map (λ v. v.validator_account)

-- The weight that a list of accounts carries in a weight map.
abbrev pub weight_of : Map ℕ → List ℕ → ℕ
weight_of m [] = 0
weight_of m (a ∷ rest) = get 0 a m + weight_of m rest

-- A vote that a justification may count.
pub record Counts (cfg : Config) (j : DvfJustification) (v : DvfVote) : Type 0 where
  pub signed : is_signed cfg v ≡ true
  pub same_round : v.round_id ≡ j.round_number
  pub same_hash : v.block_hash ≡ j.block_hash

pub check_vote_state :
    (cfg : Config) (j : DvfJustification) (seen : List ℕ) (expected : Option ℕ) (v : DvfVote)
    (s : Finality)
    → (check_vote cfg j seen expected v s).1 ≡ s
unfolding check_vote
check_vote_state cfg j seen expected v s = ground arith

pub check_vote-Counts :
    (cfg : Config) (j : DvfJustification) (seen : List ℕ) (expected : Option ℕ) (v : DvfVote)
    (s : Finality) {w : ℕ}
    → (check_vote cfg j seen expected v s).0 ≡ ok w
    → Counts cfg j v
      × (contains seen v.validator_account ≡ false)
      × (w ≡ get 0 v.validator_account s.epoch_voting_weight)
unfolding check_vote
check_vote-Counts cfg j seen expected v s h = (
  record { signed = ground arith; same_round = ground arith; same_hash = ground arith },
  ground arith,
  ground arith,
)

-- A vote that names a validator set, of an account with a frozen weight.
abbrev pub Weighted : ℕ → Map ℕ → DvfVote → Type 0
Weighted set_id weights v =
    (v.validator_set_id ≡ set_id) × (has_key v.validator_account weights ≡ true)

check_vote_weighted :
    (cfg : Config) (j : DvfJustification) (seen : List ℕ) (expected : Option ℕ) (v : DvfVote)
    (s : Finality) {w : ℕ}
    → (check_vote cfg j seen expected v s).0 ≡ ok w
    → has_key v.validator_account s.epoch_voting_weight ≡ true
unfolding check_vote
check_vote_weighted cfg j seen expected v s h = ground arith

check_vote_set_id :
    (cfg : Config) (j : DvfJustification) (seen : List ℕ) (expected : Option ℕ) (id : ℕ)
    (v : DvfVote) (s : Finality) {w : ℕ}
    → (check_vote cfg j seen expected v s).0 ≡ ok w
    → expected ≡ some id
    → v.validator_set_id ≡ id
unfolding check_vote
check_vote_set_id cfg j seen expected id v s h e = ground arith

-- No account of the list was seen before.
abbrev pub Unseen : List ℕ → List ℕ → Type 0
Unseen seen [] = Unit {0}
Unseen seen (a ∷ rest) = (contains seen a ≡ false) × Unseen seen rest

Unseen-cons :
    (b : ℕ) (seen rest : List ℕ)
    → Unseen (b ∷ seen) rest
    → Unseen seen rest × (contains rest b ≡ false)
Unseen-cons b seen [] u = (tt, refl)
Unseen-cons b seen (a ∷ rest) u = ground (arith, Unseen-cons b seen rest u.1)

-- The first vote of an accepted list passes, and so does the rest after it.
check_votes-cons :
    (cfg : Config) (j : DvfJustification) (seen : List ℕ) (expected : Option ℕ) (acc : ℕ)
    (v : DvfVote) (vs : List DvfVote) (s : Finality) (w : ℕ)
    → (check_votes cfg j seen expected acc (v ∷ vs) s).0 ≡ ok w
    → (x : ℕ) × ((check_vote cfg j seen expected v s).0 ≡ ok x)
      × ((check_votes cfg j
            (v.validator_account ∷ seen)
            (or_else expected v.validator_set_id)
            (saturating_add u128_max acc x)
            vs
            s).0
          ≡ ok w)
unfolding check_votes
check_votes-cons cfg j seen expected acc v vs s w h =
    elim (Result-cases (check_vote cfg j seen expected v s).0) [
      | inl (x, e) ↦ (x, e, ground (arith, check_vote_state cfg j seen expected v s))
      | inr (x, e) ↦ absurd (ground arith)
    ]

pub check_votes_state :
    (cfg : Config) (j : DvfJustification) (seen : List ℕ) (expected : Option ℕ) (acc : ℕ)
    (vs : List DvfVote) (s : Finality)
    → (check_votes cfg j seen expected acc vs s).1 ≡ s
unfolding check_votes
check_votes_state cfg j seen expected acc [] s = refl
check_votes_state cfg j seen expected acc (v ∷ vs) s =
    elim (Result-cases (check_vote cfg j seen expected v s).0) [
      | inl (x, e) ↦ ground (
        arith,
        check_vote_state cfg j seen expected v s,
        check_votes_state cfg j (v.validator_account ∷ seen) (or_else expected v.validator_set_id)
            (saturating_add u128_max acc x) vs s,
      )
      | inr (x, e) ↦ ground (arith, check_vote_state cfg j seen expected v s)
    ]

-- An accepted list of votes: each counts, the voters differ from one another and from those seen
-- before, and the weight is at most that of the voters on top of what was there.
pub check_votes-Counts :
    (cfg : Config) (j : DvfJustification) (seen : List ℕ) (expected : Option ℕ) (acc : ℕ)
    (vs : List DvfVote) (s : Finality) (w : ℕ)
    → (check_votes cfg j seen expected acc vs s).0 ≡ ok w
    → All (Counts cfg j) vs
      × IsDistinct (voters vs)
      × Unseen seen (voters vs)
      × (w ≤ acc + weight_of s.epoch_voting_weight (voters vs))
unfolding check_votes
check_votes-Counts cfg j seen expected acc [] s w h = (tt, tt, tt, ground arith)
check_votes-Counts cfg j seen expected acc (v ∷ vs) s w h =
    let (x, e, h') = check_votes-cons cfg j seen expected acc v vs s w h in
    let (c, fresh, weight) = check_vote-Counts cfg j seen expected v s e in
    let (cs, distinct, unseen, bound) =
      check_votes-Counts cfg j (v.validator_account ∷ seen) (or_else expected v.validator_set_id)
        (saturating_add u128_max acc x) vs s w h' in
    let (unseen', new) = Unseen-cons v.validator_account seen (voters vs) unseen in
    ((c, cs), (new, distinct), (fresh, unseen'), omega arith)

-- The votes of an accepted list name one validator set, and their accounts have frozen weights.
pub check_votes-Weighted :
    (cfg : Config) (j : DvfJustification) (seen : List ℕ) (id acc : ℕ) (vs : List DvfVote)
    (s : Finality) (w : ℕ)
    → (check_votes cfg j seen (some id) acc vs s).0 ≡ ok w
    → All (Weighted id s.epoch_voting_weight) vs
check_votes-Weighted cfg j seen id acc [] s w h = tt
check_votes-Weighted cfg j seen id acc (v ∷ vs) s w h =
    let (x, e, h') = check_votes-cons cfg j seen (some id) acc v vs s w h in
    (
      (
        check_vote_set_id cfg j seen (some id) id v s e refl,
        check_vote_weighted cfg j seen (some id) v s e,
      ),
      check_votes-Weighted cfg j (v.validator_account ∷ seen) id (saturating_add u128_max acc x) vs
          s w h',
    )

-- The first vote fixes the validator set.
pub check_votes_one_set :
    (cfg : Config) (j : DvfJustification) (vs : List DvfVote) (s : Finality) (w : ℕ)
    → (check_votes cfg j [] none 0 vs s).0 ≡ ok w
    → (id : ℕ) × All (Weighted id s.epoch_voting_weight) vs
check_votes_one_set cfg j [] s w h = (0, tt)
check_votes_one_set cfg j (v ∷ vs) s w h =
    let (x, e, h') = check_votes-cons cfg j [] none 0 v vs s w h in
    let id = v.validator_set_id in
    (
      id,
      (
        (refl, check_vote_weighted cfg j [] none v s e),
        check_votes-Weighted cfg j (v.validator_account ∷ []) id (saturating_add u128_max 0 x) vs s
            w h',
      ),
    )

-- What the checks of a justification that passes have found, and what it then does.
pub record Passed (cfg : Config) (j : DvfJustification) (n : ℕ) (s : Finality) : Type 0 where
  pub weight : ℕ
  pub checked : (check_votes cfg j [] none 0 j.votes s).0 ≡ ok weight
  pub checkpoint : is_checkpoint_block cfg n ≡ true
  pub newer : s.finalized_block_number < n
  pub enough : cfg.finality_threshold s.total_voting_weight ≤ weight
  pub result : verify_votes cfg j n s ≡ finalize_block cfg j.block_hash n j.round_number weight s

pub verify_votes-Passed :
    (cfg : Config) (j : DvfJustification) (n : ℕ) (s : Finality)
    → (verify_votes cfg j n s).0 ≡ ok tt
    → Passed cfg j n s
unfolding verify_votes
verify_votes-Passed cfg j n s h = elim (Result-cases (check_votes cfg j [] none 0 j.votes s).0) [
  | inl (w, e) ↦ record {
    weight = w;
    checked = e;
    checkpoint = ground (arith, check_votes_state cfg j [] none 0 j.votes s);
    newer = ground (arith, check_votes_state cfg j [] none 0 j.votes s);
    enough = ground (arith, check_votes_state cfg j [] none 0 j.votes s);
    result = ground (arith, check_votes_state cfg j [] none 0 j.votes s);
  }
  | inr (x, e) ↦ absurd (ground (arith, check_votes_state cfg j [] none 0 j.votes s))
]

-- An accepted justification has votes, and the first one names the block number.
pub justification-Passed :
    (cfg : Config) (j : DvfJustification) (s : Finality)
    → (verify_and_finalize_justification cfg j s).0 ≡ ok tt
    → (v : DvfVote) × (vs : List DvfVote) × (j.votes ≡ v ∷ vs)
      × Passed cfg j v.block_number s
      × (verify_and_finalize_justification cfg j s ≡ verify_votes cfg j v.block_number s)
unfolding verify_and_finalize_justification
justification-Passed cfg j s h = head j.votes refl
  where
    head :
        (vs : List DvfVote)
        → j.votes ≡ vs
        → (v : DvfVote) × (rest : List DvfVote) × (j.votes ≡ v ∷ rest)
          × Passed cfg j v.block_number s
          × (verify_and_finalize_justification cfg j s ≡ verify_votes cfg j v.block_number s)
    head [] e = absurd (ground arith)
    head (v ∷ vs) e =
        let same : verify_and_finalize_justification cfg j s ≡ verify_votes cfg j v.block_number s =
          ap (λ vs. verify_headed cfg j vs s) e in
        (v, vs, e, verify_votes-Passed cfg j v.block_number s (rw (← same) h), same)
