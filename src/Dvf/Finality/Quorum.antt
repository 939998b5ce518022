-- ===== src/Dvf/Finality/Quorum.antt =====
-- Accountable safety of pallet-cerulea-dvf: what a justification that finalizes a block proves, and why two
-- justifications for different blocks share a voter.
use cerulea.Common.{
  map_total, get-map_total-erase, ℕ, ◌+◌, ◌≤◌, ◌<◌, ◌≡◌, refl, ap, ◌⊎◌, inl, inr, true, false, List,
  [], ◌∷◌, ◌++◌, none, arith, Map, erase, contains, IsDistinct, All, lookup-erase, ◌==◌, Bool-cases,
}
use cerulea.Frame.Action.{ok}
use cerulea.Dvf.State.{DvfVote, DvfJustification, Config, Finality}
use cerulea.Dvf.Finality.{verify_and_finalize_justification}
use cerulea.Dvf.Finality.Justified.{
  voters, weight_of, Weighted, check_votes_one_set, Counts, check_votes-Counts, Passed,
  justification-Passed,
}

weight_of-erase :
    (a : ℕ) (m : Map ℕ) (as' : List ℕ)
    → contains as' a ≡ false
    → weight_of (erase a m) as' ≡ weight_of m as'
weight_of-erase a m [] h = refl
weight_of-erase a m (b ∷ bs) h = ground (arith, weight_of-erase a m bs, lookup-erase a b m)

-- Accounts that differ from one another carry at most the total of the map.
pub weight_of-le-map_total :
    (as' : List ℕ) (m : Map ℕ) → IsDistinct as' → weight_of m as' ≤ map_total m
weight_of-le-map_total [] m d = omega arith
weight_of-le-map_total (a ∷ rest) m d = omega (
  arith,
  weight_of-le-map_total rest (erase a m) d.1,
  get-map_total-erase a m,
  weight_of-erase a m rest d.0,
)

weight_of-append :
    (m : Map ℕ) (xs ys : List ℕ) → weight_of m (xs ++ ys) ≡ weight_of m xs + weight_of m ys
weight_of-append m [] ys = omega arith
weight_of-append m (x ∷ xs) ys = omega (arith, weight_of-append m xs ys)

contains-append :
    (xs ys : List ℕ) (a : ℕ)
    → contains xs a ≡ false
    → contains ys a ≡ false
    → contains (xs ++ ys) a ≡ false
contains-append [] ys a h k = k
contains-append (x ∷ xs) ys a h k = ground (arith, contains-append xs ys a)

-- Two lists of distinct accounts share one, or together are distinct.
shared_or_IsDistinct :
    (xs ys : List ℕ)
    → IsDistinct xs
    → IsDistinct ys
    → ((a : ℕ) × (contains xs a ≡ true) × (contains ys a ≡ true)) ⊎ IsDistinct (xs ++ ys)
shared_or_IsDistinct [] ys d e = inr e
shared_or_IsDistinct (x ∷ xs) ys d e = elim (Bool-cases (contains ys x)) [
  | inl found ↦ inl (x, ground arith, found)
  | inr fresh ↦ elim (shared_or_IsDistinct xs ys d.1 e) [
    | inl (a, p, q) ↦ inl (a, ground arith, q)
    | inr rest ↦ inr (contains-append xs ys x d.0 fresh, rest)
  ]
]

-- What an accepted justification has shown.
pub record Quorum (cfg : Config) (j : DvfJustification) (s : Finality) : Type 0 where
  pub counts : All (Counts cfg j) j.votes
  pub distinct : IsDistinct (voters j.votes)
  pub weighted : (id : ℕ) × All (Weighted id s.epoch_voting_weight) j.votes
  pub reached :
      cfg.finality_threshold s.total_voting_weight
      ≤ weight_of s.epoch_voting_weight (voters j.votes)

Passed-Quorum :
    (cfg : Config) (j : DvfJustification) (n : ℕ) (s : Finality) → Passed cfg j n s → Quorum cfg j s
Passed-Quorum cfg j n s p =
    let (c, d, _, b) = check_votes-Counts cfg j [] none 0 j.votes s p.weight p.checked in
    record {
      counts = c;
      distinct = d;
      weighted = check_votes_one_set cfg j j.votes s p.weight p.checked;
      reached = omega (arith, p.enough);
    }

-- A justification that is accepted carries validly signed votes of distinct accounts, each for the
-- justified block and round, which all name one validator set id and each have a frozen weight; the
-- weights together reach the finality threshold.
pub justification-Quorum :
    (cfg : Config) (j : DvfJustification) (s : Finality)
    → (verify_and_finalize_justification cfg j s).0 ≡ ok tt
    → Quorum cfg j s
justification-Quorum cfg j s h =
    let (v, vs, e, p, _) = justification-Passed cfg j s h in Passed-Quorum cfg j v.block_number s p

abbrev pub Elem : DvfVote → List DvfVote → Type 0
Elem v [] = ⊥
Elem v (x ∷ xs) = (x ≡ v) ⊎ Elem v xs

-- A vote of an account stands in a list, and has a property.
abbrev pub VotedIn : ℕ → (DvfVote → Type 0) → List DvfVote → Type 0
VotedIn a P vs = (v : DvfVote) × Elem v vs × (v.validator_account ≡ a) × P v

voted :
    (a : ℕ) (P : DvfVote → Type 0) (vs : List DvfVote)
    → contains (voters vs) a ≡ true
    → All P vs
    → VotedIn a P vs
voted a P [] h all = absurd (ground arith)
voted a P (v ∷ vs) h all = elim (Bool-cases (v.validator_account == a)) [
  | inl e ↦ (v, inl refl, ground arith, all.0)
  | inr e ↦ let (w, m, same, p) = voted a P vs (ground arith) all.1 in (w, inr m, same, p)
]

-- Two justifications that are accepted under the same frozen weights, whose threshold is more than
-- half of the total, have a common voter: it signed a vote for each of the two blocks, in the two rounds.
pub justifications_share_voter :
    (cfg : Config) (i j : DvfJustification) (s t : Finality)
    → (verify_and_finalize_justification cfg i s).0 ≡ ok tt
    → (verify_and_finalize_justification cfg j t).0 ≡ ok tt
    → t.epoch_voting_weight ≡ s.epoch_voting_weight
    → t.total_voting_weight ≡ s.total_voting_weight
    → map_total s.epoch_voting_weight ≤ s.total_voting_weight
    → s.total_voting_weight
      < cfg.finality_threshold s.total_voting_weight + cfg.finality_threshold s.total_voting_weight
    → (a : ℕ) × VotedIn a (Counts cfg i) i.votes × VotedIn a (Counts cfg j) j.votes
justifications_share_voter cfg i j s t hi hj same_weights same_total cover majority =
    let p = justification-Quorum cfg i s hi in
    let q = justification-Quorum cfg j t hj in
    elim (shared_or_IsDistinct (voters i.votes) (voters j.votes) p.distinct q.distinct) [
      | inl (a, x, y) ↦
          (a, voted a (Counts cfg i) i.votes x p.counts, voted a (Counts cfg j) j.votes y q.counts)
      | inr d ↦ absurd (
          omega (
            arith,
            p.reached,
            q.reached,
            weight_of-le-map_total (voters i.votes ++ voters j.votes) s.epoch_voting_weight d,
            weight_of-append s.epoch_voting_weight (voters i.votes) (voters j.votes),
            ap (λ m. weight_of m (voters j.votes)) same_weights,
            ap cfg.finality_threshold same_total,
          ))
    ]
