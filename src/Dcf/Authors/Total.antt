-- ===== src/Dcf/Authors/Total.antt =====
-- The author sequence of an epoch: it is found, whom it holds, and what it does not depend on.
use native.Mathlib.Nat.{mod-lt}
use mathlib.Core.List.{Perm}
use cerulea.Common.{
  ℕ, zero, suc, ◌%◌, ◌^◌, min, ◌<◌, ◌≡◌, refl, sym, ap, ◌∙◌, true, false, ◌==◌, List, [], ◌∷◌, map,
  Option, some, Map, arith, saturating_add, u64_max, length, is_empty, contains, All, Bool-cases,
  Option-cases, inl, inr,
}
use cerulea.Common.Sort.{insert_sorted, sort, sort-Perm, is_empty-sort, contains-sort}
use cerulea.Dcf.Authors.{
  pick, choose, total_weight, account_at, select_weighted_author, weight_of, insert_by_account,
  sort_by_account, validator_weights, author_loop, advance_deterministic_rng, bytes_to_u64,
  generate_deterministic_author_sequence,
}

abbrev pub accounts : Map ℕ → List ℕ
accounts = map (λ e. e.0)

-- The weights of a list of validators, in its order.
abbrev weighted : (ℕ → ℕ) → List ℕ → Map ℕ
weighted w = map (λ v. (v, w v))

insert_by_account_lem :
    (w : ℕ → ℕ) (v : ℕ) (vs : List ℕ)
    → insert_by_account (v, w v) (weighted w vs) ≡ weighted w (insert_sorted v vs)
unfolding insert_by_account
insert_by_account_lem w v [] = refl
insert_by_account_lem w v (x ∷ xs) = ground (arith, insert_by_account_lem w v xs)

sort_by_account_lem :
    (w : ℕ → ℕ) (vs : List ℕ) → sort_by_account (weighted w vs) ≡ weighted w (sort vs)
unfolding sort_by_account
sort_by_account_lem w [] = refl
sort_by_account_lem w (v ∷ vs) =
    ap (insert_by_account (v, w v)) (sort_by_account_lem w vs) ∙ insert_by_account_lem w v (sort vs)

accounts-weighted : (w : ℕ → ℕ) (vs : List ℕ) → accounts (weighted w vs) ≡ vs
accounts-weighted w [] = refl
accounts-weighted w (v ∷ vs) = ap (λ xs. v ∷ xs) (accounts-weighted w vs)

validator_weights_lem :
    (snapshot : Option (List (ℕ × ℕ))) (vs : List ℕ)
    → validator_weights snapshot vs ≡ weighted (weight_of snapshot) (sort vs)
unfolding validator_weights
validator_weights_lem snapshot vs = sort_by_account_lem (weight_of snapshot) vs

All-map : {P Q : ℕ → Type 0} → ((a : ℕ) → P a → Q a) → (xs : List ℕ) → All P xs → All Q xs
All-map f [] h = tt
All-map f (x ∷ xs) h = (f x h.0, All-map f xs h.1)

-- A choice among entries is one of their accounts.
Chosen : Map ℕ → Option ℕ → Type 0
Chosen ws o = (u : ℕ) × (o ≡ some u) × (contains (accounts ws) u ≡ true)

account_at-Chosen : (ws : Map ℕ) (i : ℕ) → i < length ws → Chosen ws (account_at i ws)
unfolding Chosen account_at
account_at-Chosen [] i h = absurd (omega (arith, h))
account_at-Chosen ((u, w) ∷ ws) zero h = (u, refl, ground arith)
account_at-Chosen ((u, w) ∷ ws) (suc i) h =
    let c = account_at-Chosen ws i (omega (arith, h)) in (c.0, c.1, ground (arith, c.2))

pick-member : (ws : Map ℕ) (t c u : ℕ) → pick t c ws ≡ some u → contains (accounts ws) u ≡ true
unfolding pick
pick-member [] t c u h = ground (arith, h)
pick-member ((v, w) ∷ ws) t c u h =
    ground (arith, h, pick-member ws t (saturating_add u64_max c w) u)

choose-Chosen : (ws : Map ℕ) (r : ℕ) → is_empty ws ≡ false → Chosen ws (choose ws r)
unfolding choose Chosen
choose-Chosen [] r h = absurd (ground (arith, h))
choose-Chosen ((v, w) ∷ ws) r h =
    let all = (v, w) ∷ ws in
    let index = r % 2 ^ 32 % length all in
    let target = r % total_weight all in
    let c = account_at-Chosen all index (mod-lt (r % 2 ^ 32) (omega arith)) in
    elim (Bool-cases (total_weight all == 0)) [
      | inl z ↦ (c.0, ground (arith, z, c.1), c.2)
      | inr z ↦ elim (Option-cases (pick target 0 all)) [
        | inl e ↦ (v, ground (arith, z, e), ground arith)
        | inr (u, e) ↦ (u, ground (arith, z, e), pick-member all target 0 u e)
      ]
    ]

-- What a sequence of authors from entries is.
abbrev pub Authors : Map ℕ → ℕ → Option (List ℕ) → Type 0
Authors ws n o =
    (authors : List ℕ) × (o ≡ some authors)
    × (length authors ≡ n)
    × All (λ a. contains (accounts ws) a ≡ true) authors

module _ (blake2_256 : List ℕ → List ℕ) where
  author_loop-Authors :
      (n offset : ℕ) (ws : Map ℕ) (state : List ℕ)
      → is_empty ws ≡ false
      → Authors ws n (author_loop blake2_256 n offset ws state)
  unfolding author_loop Chosen select_weighted_author
  author_loop-Authors zero offset ws state h = ([], refl, refl, tt)
  author_loop-Authors (suc n) offset ws state h =
      let next = advance_deterministic_rng blake2_256 state offset in
      let c = choose-Chosen ws (bytes_to_u64 next) h in
      let r = author_loop-Authors n (suc offset) ws next h in
      (c.0 ∷ r.0, ground (arith, c.1, r.1), omega (arith, r.2), (c.2, r.3))

  is_empty-weighted : (w : ℕ → ℕ) (vs : List ℕ) → is_empty (weighted w vs) ≡ is_empty vs
  is_empty-weighted w [] = refl
  is_empty-weighted w (v ∷ vs) = refl

  -- For an epoch with validators the sequence is found, without a panic: it is as long as the epoch,
  -- at most 1000, and holds validators of the epoch only.
  pub generate_deterministic_author_sequence_total :
      (blocks_per_epoch : ℕ) (snapshot : Option (List (ℕ × ℕ))) (validators seed : List ℕ)
      → is_empty validators ≡ false
      → (authors : List ℕ) × (generate_deterministic_author_sequence blake2_256 blocks_per_epoch
            snapshot validators seed
          ≡ some authors)
        × (length authors ≡ min blocks_per_epoch 1_000)
        × All (λ a. contains validators a ≡ true) authors
  unfolding generate_deterministic_author_sequence
  generate_deterministic_author_sequence_total blocks_per_epoch snapshot validators seed h =
      let n = min blocks_per_epoch 1_000 in
      let w = weight_of snapshot in
      let ordered = sort validators in
      let found =
        author_loop-Authors n 0 (weighted w ordered) seed
          (is_empty-weighted w ordered ∙ is_empty-sort validators ∙ h) in
      let known : (a : ℕ) → contains (accounts (weighted w ordered)) a ≡ contains validators a =
        λ a. ap (λ xs. contains xs a) (accounts-weighted w ordered) ∙ contains-sort validators a in
      (
        found.0,
        ground (arith, h, found.1, validator_weights_lem snapshot validators),
        found.2,
        All-map (λ a k. sym (known a) ∙ k) found.0 found.3,
      )

  -- The sequence does not depend on the order in which the validators stand.
  pub generate_deterministic_author_sequence-Perm :
      (blocks_per_epoch : ℕ) (snapshot : Option (List (ℕ × ℕ))) (validators others seed : List ℕ)
      → Perm validators others
      → generate_deterministic_author_sequence blake2_256 blocks_per_epoch snapshot validators seed
        ≡ generate_deterministic_author_sequence blake2_256 blocks_per_epoch snapshot others seed
  unfolding generate_deterministic_author_sequence
  generate_deterministic_author_sequence-Perm blocks_per_epoch snapshot validators others seed p =
      let sorted = sort-Perm validators others p in
      let empty = sym (is_empty-sort validators) ∙ ap is_empty sorted ∙ is_empty-sort others in
      let weights =
        validator_weights_lem snapshot validators
        ∙ ap (weighted (weight_of snapshot)) sorted
        ∙ sym (validator_weights_lem snapshot others) in
      cc
