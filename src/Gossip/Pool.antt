-- ===== src/Gossip/Pool.antt =====
-- The vote pool of cerulea-node/src/cerulea-consensus/src/dvf_gossip.rs. A hash map is a list of
-- entries in the order in which it is iterated; the locks are held for the whole of an operation.
pub mod OneVote
pub mod Size
use cerulea.Common.{
  ℕ, ◌+◌, ◌-◌, Bool, true, false, not, ◌&&◌, List, [], ◌∷◌, ◌++◌, map, if◌then◌else◌, leb, ◌==◌,
  Map, get, insert, length, take, retain, is_empty, contains,
}

pub record DvfVoteMessage : Type 0 where
  pub epoch_id : ℕ
  pub validator_set_id : ℕ
  pub round_number : ℕ
  pub block_number : ℕ
  pub block_hash : ℕ
  pub validator_account_id : ℕ
  pub validator_public_key : ℕ
  pub signature : ℕ

-- A round and a block hash.
abbrev pub Key : Type 0
Key = ℕ × ℕ

abbrev pub Votes : Type 0
Votes = List (Key × List DvfVoteMessage)

pub record DvfVotePool : Type 0 where
  pub votes : Votes
  -- the accounts that voted in a round
  pub participation : Map (List ℕ)

unfoldable pub same_key : Key → Key → Bool
same_key (r, h) (r', h') = r == r' && h == h'

-- `votes.entry(key).or_insert_with(Vec::new).push(vote)`
pub push_vote : Key → DvfVoteMessage → Votes → Votes
unfolding same_key
push_vote k v [] = (k, v ∷ []) ∷ []
push_vote k v ((j, vs) ∷ m) =
    if same_key j k then (j, vs ++ v ∷ []) ∷ m else (j, vs) ∷ push_vote k v m

pub insert_vote : DvfVoteMessage → DvfVotePool → Bool × DvfVotePool
unfolding push_vote
insert_vote vote p =
    let round_voters = get [] vote.round_number p.participation in
    if contains round_voters vote.validator_account_id
    then (false, record p { participation = insert vote.round_number round_voters p.participation })
    else (
      true,
      record p {
        votes = push_vote (vote.round_number, vote.block_hash) vote p.votes;
        participation =
            insert vote.round_number (vote.validator_account_id ∷ round_voters) p.participation;
      },
    )

unfoldable pub find_votes : Key → Votes → List DvfVoteMessage
unfolding same_key
find_votes k [] = []
find_votes k ((j, vs) ∷ m) = if same_key j k then vs else find_votes k m

unfoldable pub get_votes : ℕ → ℕ → DvfVotePool → List DvfVoteMessage
unfolding find_votes
get_votes round block_hash p = find_votes (round, block_hash) p.votes

unfoldable pub get_candidate_blocks : ℕ → DvfVotePool → List ℕ
get_candidate_blocks round p = map (λ e. e.0.1) (retain (λ e. e.0.0 == round) p.votes)

-- The two `retain`s of the pruning by rounds.
pub retain_rounds : ℕ → DvfVotePool → DvfVotePool
retain_rounds cutoff p = record p {
  votes = retain (λ e. leb cutoff e.0.0) p.votes;
  participation = retain (λ e. leb cutoff e.0) p.participation;
}

pub prune_older_rounds : ℕ → DvfVotePool → DvfVotePool
unfolding retain_rounds
prune_older_rounds finalized_round p = retain_rounds finalized_round p

pub prune_by_round_age : ℕ → ℕ → DvfVotePool → ℕ × DvfVotePool
unfolding retain_rounds
prune_by_round_age current_round retention_rounds p =
    let p' = retain_rounds (current_round - retention_rounds) p in
    (length p.votes - length p'.votes, p')

pub retain_blocks : ℕ → Votes → Votes
retain_blocks n [] = []
retain_blocks n ((k, vs) ∷ m) =
    let kept = retain (λ vote. leb n vote.block_number) vs in
    let rest = retain_blocks n m in if is_empty kept then rest else (k, kept) ∷ rest

pub prune_by_finalized_block : ℕ → DvfVotePool → ℕ × DvfVotePool
unfolding retain_blocks
prune_by_finalized_block finalized_block_number p =
    let votes' = retain_blocks finalized_block_number p.votes in
    (length p.votes - length votes', record p { votes = votes' })

-- The library's stable sort by rising round.
pub insert_by_round : Key → List Key → List Key
insert_by_round k [] = k ∷ []
insert_by_round k (j ∷ ks) = if leb k.0 j.0 then k ∷ j ∷ ks else j ∷ insert_by_round k ks

pub sort_by_round : List Key → List Key
unfolding insert_by_round
sort_by_round [] = []
sort_by_round (k ∷ ks) = insert_by_round k (sort_by_round ks)

pub remove_key : Key → Votes → Votes
unfolding same_key
remove_key k [] = []
remove_key k ((j, vs) ∷ m) = if same_key j k then m else (j, vs) ∷ remove_key k m

pub remove_keys : List Key → Votes → Votes
unfolding remove_key
remove_keys [] m = m
remove_keys (k ∷ ks) m = remove_keys ks (remove_key k m)

pub enforce_max_size : ℕ → DvfVotePool → ℕ × DvfVotePool
unfolding sort_by_round remove_keys
enforce_max_size max_size p = if leb (length p.votes) max_size then (0, p) else (
  length p.votes - max_size,
  record p {
    votes =
        remove_keys (take (length p.votes - max_size) (sort_by_round (map (λ e. e.0) p.votes)))
          p.votes;
  },
)

pub size : DvfVotePool → ℕ
size p = length p.votes

pub vote_count : Votes → ℕ
vote_count [] = 0
vote_count ((k, vs) ∷ m) = length vs + vote_count m

pub total_votes : DvfVotePool → ℕ
unfolding vote_count
total_votes p = vote_count p.votes

pub clear : DvfVotePool → DvfVotePool
clear p = record { votes = []; participation = [] }
