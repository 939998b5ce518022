-- ===== src/Gossip/Pool/Size.antt =====
-- The size bound of the vote pool.
use cerulea.Common.{
  ℕ, zero, suc, ◌+◌, ◌-◌, ◌≤◌, ◌≡◌, refl, ap, true, List, [], ◌∷◌, if◌then◌else◌, length,
  length-take, take, map, min, arith,
}
use cerulea.Gossip.Pool.{
  Key, Votes, DvfVotePool, same_key, insert_by_round, sort_by_round, remove_key, remove_keys,
  enforce_max_size, size,
}

keys : Votes → List Key
keys [] = []
keys ((k, vs) ∷ m) = k ∷ keys m

occurs : Key → List Key → ℕ
occurs k [] = 0
occurs k (j ∷ ks) = (if same_key j k then 1 else 0) + occurs k ks

occurs-insert : (k j : Key) (ks : List Key) → occurs k (insert_by_round j ks) ≡ occurs k (j ∷ ks)
unfolding occurs insert_by_round
occurs-insert k j [] = refl
occurs-insert k j (i ∷ ks) = ground (arith, occurs-insert k j ks)

occurs-sort : (k : Key) (ks : List Key) → occurs k (sort_by_round ks) ≡ occurs k ks
unfolding occurs sort_by_round
occurs-sort k [] = refl
occurs-sort k (j ∷ ks) = omega (arith, occurs-insert k j (sort_by_round ks), occurs-sort k ks)

occurs-take-le : (k : Key) (n : ℕ) (ks : List Key) → occurs k (take n ks) ≤ occurs k ks
unfolding occurs
occurs-take-le k zero ks = omega arith
occurs-take-le k (suc n) [] = omega arith
occurs-take-le k (suc n) (j ∷ ks) = omega (arith, occurs-take-le k n ks)

length-insert_by_round : (j : Key) (ks : List Key) → length (insert_by_round j ks) ≡ suc (length ks)
unfolding insert_by_round
length-insert_by_round j [] = refl
length-insert_by_round j (i ∷ ks) = ground (arith, length-insert_by_round j ks)

length-sort : (ks : List Key) → length (sort_by_round ks) ≡ length ks
unfolding sort_by_round
length-sort [] = refl
length-sort (j ∷ ks) = omega (arith, length-insert_by_round j (sort_by_round ks), length-sort ks)

same_key_refl : (k : Key) → same_key k k ≡ true
unfolding same_key
same_key_refl (r, h) = ground arith

length-remove_key :
    (k : Key) (m : Votes) → 1 ≤ occurs k (keys m) → suc (length (remove_key k m)) ≡ length m
unfolding occurs keys remove_key
length-remove_key k [] h = omega (arith, h)
length-remove_key k ((j, vs) ∷ m) h = ground (arith, h, length-remove_key k m)

occurs-remove_key :
    (k i : Key) (m : Votes)
    → 1 ≤ occurs k (keys m)
    → occurs i (keys (remove_key k m)) + (if same_key k i then 1 else 0) ≡ occurs i (keys m)
unfolding occurs keys remove_key same_key
occurs-remove_key k i [] h = omega (arith, h)
occurs-remove_key k i ((j, vs) ∷ m) h = ground (arith, h, occurs-remove_key k i m)

length-remove_keys :
    (ks : List Key) (m : Votes)
    → ((k : Key) → occurs k ks ≤ occurs k (keys m))
    → length (remove_keys ks m) + length ks ≡ length m
unfolding remove_keys occurs
length-remove_keys [] m h = omega arith
length-remove_keys (k ∷ ks) m h =
    let there : 1 ≤ occurs k (keys m) = ground (arith, h k, same_key_refl k) in
    omega (
      arith,
      length-remove_key k m there,
      length-remove_keys ks (remove_key k m)
          (λ i. omega (arith, h i, occurs-remove_key k i m there)),
    )

keys-map : (m : Votes) → map (λ e. e.0) m ≡ keys m
unfolding keys
keys-map [] = refl
keys-map ((k, vs) ∷ m) = ap (λ ks. k ∷ ks) (keys-map m)

length-keys : (m : Votes) → length (keys m) ≡ length m
unfolding keys
length-keys [] = refl
length-keys ((k, vs) ∷ m) = omega (arith, length-keys m)

-- The pool is left with as many entries as it had, or with the largest number, whichever is less,
-- and the call returns the number of entries that it removed.
pub enforce_max_size_lem :
    (max_size : ℕ) (p : DvfVotePool)
    → let (n, p') = enforce_max_size max_size p in
      (size p' ≡ min (size p) max_size) × (n + size p' ≡ size p)
unfolding enforce_max_size size
enforce_max_size_lem max_size p =
    let ks = map (λ e. e.0) p.votes in
    let n = length p.votes - max_size in
    let sorted = take n (sort_by_round ks) in
    let gone = length-remove_keys sorted p.votes (λ k. omega (
      arith,
      occurs-take-le k n (sort_by_round ks),
      occurs-sort k ks,
      ap (occurs k) (keys-map p.votes),
    )) in
    ground (
      arith,
      gone,
      length-take n (sort_by_round ks),
      length-sort ks,
      ap (λ (xs : List Key). length xs) (keys-map p.votes),
      length-keys p.votes,
    )
