-- ===== src/Justify/Selected.antt =====
-- The votes that select_votes takes: they come from the pool, have a weight, stand in the order of
-- their weights, and are no more than the threshold needs.
use cerulea.Common.{
  ℕ, suc, ◌<◌, ◌≡◌, refl, false, leb, List, [], ◌∷◌, Option, none, some, Map, lookup, length,
  is_empty, arith, All, if-cases, saturating_add, u128_max, take, collect, zero,
}
use cerulea.Gossip.Pool.{DvfVoteMessage, DvfVotePool, get_votes}
use cerulea.Justify.{
  Node, Weighted, built, with_weights, insert_heavy, sort_heavy, take_votes, select_votes,
  total_weight, accumulate,
}

-- A vote of the pool with the weight of its voter.
abbrev pub Weighs : (DvfVoteMessage → Type 0) → Map ℕ → DvfVoteMessage × ℕ → Type 0
Weighs P weights (v, w) = P v × (lookup v.validator_account_id weights ≡ some w)

-- The same without the weight.
abbrev pub HasWeight : (DvfVoteMessage → Type 0) → Map ℕ → DvfVoteMessage → Type 0
HasWeight P weights v = P v × ((w : ℕ) × (lookup v.validator_account_id weights ≡ some w))

module _ (P : DvfVoteMessage → Type 0) (weights : Map ℕ) where
  pub with_weights-All :
      (vs : List DvfVoteMessage) → All P vs → All (Weighs P weights) (with_weights weights vs)
  unfolding with_weights
  with_weights-All [] h = tt
  with_weights-All (v ∷ vs) h =
      go (lookup v.validator_account_id weights) refl (with_weights-All vs h.1)
    where
      go :
          (o : Option ℕ)
          → lookup v.validator_account_id weights ≡ o
          → All (Weighs P weights) (with_weights weights vs)
          → All (Weighs P weights) (elim o as (λ _. Weighted) [
            | none ↦ with_weights weights vs
            | some w ↦ (v, w) ∷ with_weights weights vs
          ])
      go none e k = k
      go (some w) e k = ((h.0, e), k)

  insert_heavy-All :
      (x : DvfVoteMessage × ℕ) (xs : Weighted)
      → Weighs P weights x
      → All (Weighs P weights) xs
      → All (Weighs P weights) (insert_heavy x xs)
  unfolding insert_heavy
  insert_heavy-All x [] h k = (h, tt)
  insert_heavy-All x (y ∷ ys) h k =
      if-cases (All (Weighs P weights)) (leb y.1 x.1) (λ e. (h, k))
        (λ e. (k.0, insert_heavy-All x ys h k.1))

  pub sort_heavy-All :
      (xs : Weighted) → All (Weighs P weights) xs → All (Weighs P weights) (sort_heavy xs)
  unfolding sort_heavy
  sort_heavy-All [] h = tt
  sort_heavy-All (x ∷ xs) h = insert_heavy-All x (sort_heavy xs) h.0 (sort_heavy-All xs h.1)

  pub take_votes-All :
      (threshold acc : ℕ) (xs : Weighted)
      → All (Weighs P weights) xs
      → All (HasWeight P weights) (take_votes threshold acc xs)
  unfolding take_votes
  take_votes-All threshold acc [] h = tt
  take_votes-All threshold acc ((v, w) ∷ xs) h =
      let total = saturating_add u128_max acc w in
      if-cases (All (HasWeight P weights)) (leb threshold total) (λ e. ((h.0.0, (w, h.0.1)), tt))
        (λ e. ((h.0.0, (w, h.0.1)), take_votes-All threshold total xs h.1))

pub is_empty-sort_heavy : (xs : Weighted) → is_empty (sort_heavy xs) ≡ is_empty xs
unfolding sort_heavy
is_empty-sort_heavy [] = refl
is_empty-sort_heavy (x ∷ xs) = go (sort_heavy xs)
  where
    go : (ys : Weighted) → is_empty (insert_heavy x ys) ≡ false
    go [] = refl
    go (y ∷ ys) = ground arith

pub is_empty-take_votes :
    (threshold acc : ℕ) (xs : Weighted)
    → is_empty xs ≡ false
    → is_empty (take_votes threshold acc xs) ≡ false
unfolding take_votes
is_empty-take_votes threshold acc [] h = h
is_empty-take_votes threshold acc (x ∷ xs) h = ground arith

-- What a successful selection has taken.
pub select_votes_lem :
    (node : Node) (pool : DvfVotePool) (round hash : ℕ) (entries : List (ℕ × ℕ)) (perbill : ℕ → ℕ)
    (vs : List DvfVoteMessage)
    → node.get_validator_weights ≡ some entries
    → node.get_finality_threshold_perbill ≡ some perbill
    → select_votes node pool round hash ≡ built vs
    → (is_empty (with_weights (collect entries []) (get_votes round hash pool)) ≡ false)
      × (vs
          ≡ take_votes
              (perbill (total_weight (collect entries [])))
              0
              (sort_heavy (with_weights (collect entries []) (get_votes round hash pool))))
unfolding select_votes
select_votes_lem node pool round hash entries perbill vs he hp h = ground (arith, he, hp, h)

-- While fewer votes are taken than the loop takes in all, but at least one, their weight stays below
-- the threshold.
pub take_votes-below :
    (weights : Map ℕ) (threshold acc n : ℕ) (xs : Weighted)
    → All (Weighs (λ v. Unit {0}) weights) xs
    → suc n < length (take_votes threshold acc xs)
    → accumulate weights acc (take (suc n) (take_votes threshold acc xs)) < threshold
unfolding take_votes accumulate
take_votes-below weights threshold acc n [] h k = absurd (omega (arith, k))
take_votes-below weights threshold acc zero ((v, w) ∷ xs) h k = ground (arith, k, h.0.1)
take_votes-below weights threshold acc (suc n) ((v, w) ∷ xs) h k =
    let total = saturating_add u128_max acc w in
    ground (arith, k, h.0.1, take_votes-below weights threshold total n xs h.1)
