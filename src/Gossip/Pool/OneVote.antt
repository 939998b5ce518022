-- ===== src/Gossip/Pool/OneVote.antt =====
-- The vote pool holds one vote of an account in a round.
use cerulea.Common.{
  ℕ, ◌+◌, ◌-◌, ◌≤◌, ◌≡◌, Bool, true, false, ◌&&◌, List, [], ◌∷◌, ◌++◌, if◌then◌else◌, leb, ◌==◌,
  Map, get, lookup-insert, length, retain, take, contains, map, arith, ap, sym, ◌∙◌,
}
use mathlib.Core.Path.{ap₂}
use cerulea.Gossip.Pool.{
  DvfVoteMessage, Key, Votes, DvfVotePool, same_key, push_vote, insert_vote, retain_rounds,
  prune_older_rounds, prune_by_round_age, retain_blocks, prune_by_finalized_block, remove_key,
  remove_keys, enforce_max_size, sort_by_round, clear, find_votes, get_votes,
}

-- How many of the votes are of an account, and how many of a round in the whole pool.
pub by : ℕ → List DvfVoteMessage → ℕ
by a [] = 0
by a (v ∷ vs) = (if v.validator_account_id == a then 1 else 0) + by a vs

pub cast : ℕ → ℕ → Votes → ℕ
cast r a [] = 0
cast r a ((k, vs) ∷ m) = (if k.0 == r then by a vs else 0) + cast r a m

by-append :
    (a : ℕ) (vs : List DvfVoteMessage) (v : DvfVoteMessage)
    → by a (vs ++ v ∷ []) ≡ by a vs + (if v.validator_account_id == a then 1 else 0)
unfolding by
by-append a [] v = omega arith
by-append a (x ∷ vs) v = omega (arith, by-append a vs v)

cast-push :
    (r a : ℕ) (k : Key) (v : DvfVoteMessage) (m : Votes)
    → cast r a (push_vote k v m)
      ≡ cast r a m + (if k.0 == r && v.validator_account_id == a then 1 else 0)
unfolding cast push_vote same_key by
cast-push r a k v [] = ground arith
cast-push r a k v ((j, vs) ∷ m) = ground (arith, by-append a vs v, cast-push r a k v m)

cast-retain :
    (r a cutoff : ℕ) (m : Votes)
    → cast r a (retain (λ e. leb cutoff e.0.0) m) ≡ (if leb cutoff r then cast r a m else 0)
unfolding cast
cast-retain r a cutoff [] = ground arith
cast-retain r a cutoff ((k, vs) ∷ m) = ground (arith, cast-retain r a cutoff m)

by-retain-le :
    (a : ℕ) (p : DvfVoteMessage → Bool) (vs : List DvfVoteMessage) → by a (retain p vs) ≤ by a vs
unfolding by
by-retain-le a p [] = omega arith
by-retain-le a p (v ∷ vs) = ground (arith, by-retain-le a p vs)

cast-retain_blocks-le : (r a n : ℕ) (m : Votes) → cast r a (retain_blocks n m) ≤ cast r a m
unfolding cast retain_blocks
cast-retain_blocks-le r a n [] = omega arith
cast-retain_blocks-le r a n ((k, vs) ∷ m) =
    ground
      (arith, cast-retain_blocks-le r a n m, by-retain-le a (λ vote. leb n vote.block_number) vs)

cast-remove_key-le : (r a : ℕ) (k : Key) (m : Votes) → cast r a (remove_key k m) ≤ cast r a m
unfolding cast remove_key same_key
cast-remove_key-le r a k [] = omega arith
cast-remove_key-le r a k ((j, vs) ∷ m) = ground (arith, cast-remove_key-le r a k m)

cast-remove_keys-le :
    (r a : ℕ) (ks : List Key) (m : Votes) → cast r a (remove_keys ks m) ≤ cast r a m
unfolding remove_keys
cast-remove_keys-le r a [] m = omega arith
cast-remove_keys-le r a (k ∷ ks) m =
    omega (arith, cast-remove_keys-le r a ks (remove_key k m), cast-remove_key-le r a k m)

get-retain :
    (r cutoff : ℕ) (m : Map (List ℕ))
    → get [] r (retain (λ e. leb cutoff e.0) m) ≡ (if leb cutoff r then get [] r m else [])
get-retain r cutoff [] = ground arith
get-retain r cutoff ((k, xs) ∷ m) = ground (arith, get-retain r cutoff m)

-- An account has at most one vote in a round, and then it stands among the round's voters.
pub IsSingle : DvfVotePool → Type 0
IsSingle p = (r a : ℕ) → cast r a p.votes ≤ (if contains (get [] r p.participation) a then 1 else 0)

insert_vote-IsSingle :
    (v : DvfVoteMessage) (p : DvfVotePool) → IsSingle p → IsSingle (insert_vote v p).1
unfolding IsSingle insert_vote
insert_vote-IsSingle v p h r a = ground (
  arith,
  h r a,
  cast-push r a (v.round_number, v.block_hash) v p.votes,
  lookup-insert v.round_number r (get [] v.round_number p.participation) p.participation,
  lookup-insert v.round_number r (v.validator_account_id ∷ get [] v.round_number p.participation)
      p.participation,
)

retain_rounds-IsSingle : (n : ℕ) (p : DvfVotePool) → IsSingle p → IsSingle (retain_rounds n p)
unfolding IsSingle retain_rounds
retain_rounds-IsSingle n p h r a =
    ground (arith, h r a, cast-retain r a n p.votes, get-retain r n p.participation)

prune_by_finalized_block-IsSingle :
    (n : ℕ) (p : DvfVotePool) → IsSingle p → IsSingle (prune_by_finalized_block n p).1
unfolding IsSingle prune_by_finalized_block
prune_by_finalized_block-IsSingle n p h r a =
    omega (arith, h r a, cast-retain_blocks-le r a n p.votes)

enforce_max_size-IsSingle :
    (n : ℕ) (p : DvfVotePool) → IsSingle p → IsSingle (enforce_max_size n p).1
unfolding IsSingle enforce_max_size
enforce_max_size-IsSingle n p h r a = ground (
  arith,
  h r a,
  cast-remove_keys-le r a (take (length p.votes - n) (sort_by_round (map (λ e. e.0) p.votes)))
      p.votes,
)

pub data Op : Type 0 where
  inserts : DvfVoteMessage → Op
  prunes_older_rounds prunes_by_finalized_block enforces_max_size : ℕ → Op
  prunes_by_round_age : ℕ → ℕ → Op
  clears : Op

pub run : Op → DvfVotePool → DvfVotePool
run (inserts v) p = (insert_vote v p).1
run (prunes_older_rounds n) p = prune_older_rounds n p
run (prunes_by_finalized_block n) p = (prune_by_finalized_block n p).1
run (enforces_max_size n) p = (enforce_max_size n p).1
run (prunes_by_round_age n k) p = (prune_by_round_age n k p).1
run clears p = clear p

pub run_all : List Op → DvfVotePool → DvfVotePool
unfolding run
run_all [] p = p
run_all (o ∷ os) p = run_all os (run o p)

clear-IsSingle : (p : DvfVotePool) → IsSingle (clear p)
unfolding IsSingle clear cast
clear-IsSingle p r a = ground arith

run-IsSingle : (o : Op) (p : DvfVotePool) → IsSingle p → IsSingle (run o p)
unfolding run prune_older_rounds prune_by_round_age
run-IsSingle (inserts v) p h = insert_vote-IsSingle v p h
run-IsSingle (prunes_older_rounds n) p h = retain_rounds-IsSingle n p h
run-IsSingle (prunes_by_finalized_block n) p h = prune_by_finalized_block-IsSingle n p h
run-IsSingle (enforces_max_size n) p h = enforce_max_size-IsSingle n p h
run-IsSingle (prunes_by_round_age n k) p h = retain_rounds-IsSingle (n - k) p h
run-IsSingle clears p h = clear-IsSingle p

run_all-IsSingle : (os : List Op) (p : DvfVotePool) → IsSingle p → IsSingle (run_all os p)
unfolding run_all
run_all-IsSingle [] p h = h
run_all-IsSingle (o ∷ os) p h = run_all-IsSingle os (run o p) (run-IsSingle o p h)

by-find_votes-le : (a : ℕ) (k : Key) (m : Votes) → by a (find_votes k m) ≤ cast k.0 a m
unfolding find_votes cast by same_key
by-find_votes-le a k [] = omega arith
by-find_votes-le a k ((j, vs) ∷ m) = ground (arith, by-find_votes-le a k m)

-- Whatever votes arrive and whatever is pruned, in any order: from an empty pool, an account has at
-- most one vote in a round over all blocks, and so `get_votes` returns at most one vote of it.
pub run_all-single :
    (os : List Op) (p : DvfVotePool) (r a h : ℕ)
    → let p' = run_all os (clear p) in (cast r a p'.votes ≤ 1) × (by a (get_votes r h p') ≤ 1)
unfolding IsSingle get_votes
run_all-single os p r a h =
    let p' = run_all os (clear p) in
    let one = run_all-IsSingle os (clear p) (clear-IsSingle p) r a in
    (ground (arith, one), ground (arith, one, by-find_votes-le a (r, h) p'.votes))

refused :
    (v : DvfVoteMessage) (p : DvfVotePool)
    → contains (get [] v.round_number p.participation) v.validator_account_id ≡ true
    → (insert_vote v p).0 ≡ false
unfolding insert_vote
refused v p h = ground (arith, h)

insert_vote_voted :
    (v : DvfVoteMessage) (p : DvfVotePool)
    → contains (get [] v.round_number (insert_vote v p).1.participation) v.validator_account_id
      ≡ true
unfolding insert_vote
insert_vote_voted v p = ground (
  arith,
  lookup-insert v.round_number v.round_number (get [] v.round_number p.participation)
      p.participation,
  lookup-insert v.round_number v.round_number
      (v.validator_account_id ∷ get [] v.round_number p.participation) p.participation,
)

pruned_voted :
    (n k : ℕ) (p : DvfVotePool)
    → (enforce_max_size k (prune_by_finalized_block n p).1).1.participation ≡ p.participation
unfolding enforce_max_size prune_by_finalized_block
pruned_voted n k p = ground arith

-- After a vote of an account is offered, a second vote of it in the same round is refused, also when
-- pruning by finalized blocks and by size comes in between.
pub insert_vote_second :
    (v w : DvfVoteMessage) (n k : ℕ) (p : DvfVotePool)
    → v.round_number ≡ w.round_number
    → v.validator_account_id ≡ w.validator_account_id
    → let p1 = (insert_vote v p).1 in
      let p2 = (enforce_max_size k (prune_by_finalized_block n p1).1).1 in
      (insert_vote w p2).0 ≡ false
insert_vote_second v w n k p er ea =
    let p1 = (insert_vote v p).1 in
    let p2 = (enforce_max_size k (prune_by_finalized_block n p1).1).1 in
    let voted =
      ap (λ m. contains (get [] v.round_number m) v.validator_account_id) (pruned_voted n k p1)
      ∙ insert_vote_voted v p in
    refused w p2 (sym (ap₂ (λ r a. contains (get [] r p2.participation) a) er ea) ∙ voted)

pub insert_vote_again :
    (v w : DvfVoteMessage) (p : DvfVotePool)
    → v.round_number ≡ w.round_number
    → v.validator_account_id ≡ w.validator_account_id
    → (insert_vote w (insert_vote v p).1).0 ≡ false
insert_vote_again v w p er ea = refused w (insert_vote v p).1 (
    sym (ap₂ (λ r a. contains (get [] r (insert_vote v p).1.participation) a) er ea)
    ∙ insert_vote_voted v p)

pub insert_vote_first :
    (v : DvfVoteMessage) (p : DvfVotePool)
    → contains (get [] v.round_number p.participation) v.validator_account_id ≡ false
    → (insert_vote v p).0 ≡ true
unfolding insert_vote
insert_vote_first v p h = ground (arith, h)
