-- ===== src/Dvf/Finality/Rounds.antt =====
-- Rounds of single votes in pallet-cerulea-dvf: how often an account votes in one.

use cerulea.Common.{
  ℕ, ◌+◌, ◌<◌, ◌≡◌, ap, ◌∙◌, ◌⊎◌, inl, inr, List, [], ◌∷◌, some, arith, ◌==◌, lookup, get,
  Bool-cases, min, u32_max,
}
use cerulea.Frame.Errors.{dvf_error, double_vote}
use cerulea.Frame.Action.{Origin, root, signed, unsigned, ok, err}
use cerulea.Dvf.State.{DvfVote, Config, Finality}
use cerulea.Dvf.Finality.{
  vote_record, insert_vote_record, finalize_block, prune_vote_records, submit_dvf_vote,
}
use cerulea.Dvf.Finality.Votes.{Eligible, submit_dvf_vote_recorded, vote_record-insert}

-- Calls of `submit_dvf_vote`, each with its origin.
unfoldable pub submit_votes : Config → List (Origin × DvfVote) → Finality → Finality
submit_votes cfg [] s = s
submit_votes cfg ((o, v) ∷ vs) s = submit_votes cfg vs (submit_dvf_vote cfg o v s).1

-- The round is over, or the account has a record in it.
abbrev Spent : ℕ → ℕ → Finality → Type 0
Spent round account s =
    (round < s.current_round)
    ⊎ ((s.current_round ≡ round) × ((v : DvfVote) × (vote_record round account s ≡ some v)))

-- A call leaves the round with its records or one more, or ends the round.
submit_dvf_vote_round :
    (cfg : Config) (who : ℕ) (v : DvfVote) (s : Finality)
    → let s' = (submit_dvf_vote cfg (signed who) v s).1 in
      ((s'.current_round ≡ s.current_round) × (s'.vote_records ≡ s.vote_records))
      ⊎ ((s'.current_round ≡ s.current_round)
          × (s'.vote_records ≡ (insert_vote_record s.current_round v s).vote_records))
      ⊎ (s'.current_round ≡ min (s.current_round + 1) u32_max)
unfolding submit_dvf_vote insert_vote_record finalize_block prune_vote_records
submit_dvf_vote_round cfg who v s = ground arith

-- A record stands after another one is inserted, or is replaced by it.
insert-recorded :
    (round account : ℕ) (v old : DvfVote) (s : Finality)
    → vote_record round account s ≡ some old
    → (old' : DvfVote) × (vote_record round account (insert_vote_record round v s) ≡ some old')
insert-recorded round account v old s found = elim (Bool-cases (v.validator_account == account)) [
  | inl e ↦ (v, ground (arith, e, vote_record-insert round account v s))
  | inr e ↦ (old, ground (arith, e, found, vote_record-insert round account v s))
]

submit_dvf_vote-Spent :
    (cfg : Config) (o : Origin) (v : DvfVote) (round account : ℕ) (s : Finality)
    → round < u32_max
    → Spent round account s
    → Spent round account (submit_dvf_vote cfg o v s).1
unfolding submit_dvf_vote
submit_dvf_vote-Spent cfg root v round account s small h = h
submit_dvf_vote-Spent cfg unsigned v round account s small h = h
submit_dvf_vote-Spent cfg (signed who) v round account s small (inl over) =
    elim (submit_dvf_vote_round cfg who v s) [
      | inl (same, recs) ↦ inl (omega (arith, over, same))
      | inr (inl (same, recs)) ↦ inl (omega (arith, over, same))
      | inr (inr next) ↦ inl (omega (arith, over, small, next))
    ]
submit_dvf_vote-Spent cfg (signed who) v round account s small (inr (now, (old, found))) =
    elim (submit_dvf_vote_round cfg who v s) [
      | inl (same, recs) ↦
          inr (same ∙ now, (old, ap (λ m. lookup account (get [] round m)) recs ∙ found))
      | inr (inl (same, recs)) ↦
          let (old', e) = insert-recorded round account v old s found in
          let recs' : (submit_dvf_vote cfg (signed who) v s).1.vote_records
              ≡ (insert_vote_record round v s).vote_records =
            recs ∙ ap (λ r. (insert_vote_record r v s).vote_records) now in
          inr (same ∙ now, (old', ap (λ m. lookup account (get [] round m)) recs' ∙ e))
      | inr (inr next) ↦ inl (omega (arith, now, small, next))
    ]

submit_votes-Spent :
    (cfg : Config) (vs : List (Origin × DvfVote)) (round account : ℕ) (s : Finality)
    → round < u32_max
    → Spent round account s
    → Spent round account (submit_votes cfg vs s)
unfolding submit_votes
submit_votes-Spent cfg [] round account s small h = h
submit_votes-Spent cfg ((o, v) ∷ vs) round account s small h =
    submit_votes-Spent cfg vs round account (submit_dvf_vote cfg o v s).1 small
      (submit_dvf_vote-Spent cfg o v round account s small h)

accepted_round :
    (cfg : Config) (who : ℕ) (v : DvfVote) (s : Finality)
    → (submit_dvf_vote cfg (signed who) v s).0 ≡ ok tt
    → let s' = (submit_dvf_vote cfg (signed who) v s).1 in
      ((s'.current_round ≡ s.current_round)
        × (s'.vote_records ≡ (insert_vote_record s.current_round v s).vote_records))
      ⊎ (s'.current_round ≡ min (s.current_round + 1) u32_max)
unfolding submit_dvf_vote insert_vote_record finalize_block prune_vote_records
accepted_round cfg who v s h = ground (arith, h)

inserted :
    (round : ℕ) (v : DvfVote) (s : Finality)
    → vote_record round v.validator_account (insert_vote_record round v s) ≡ some v
inserted round v s = ground (arith, vote_record-insert round v.validator_account v s)

accepted-Spent :
    (cfg : Config) (who : ℕ) (v : DvfVote) (s : Finality)
    → (submit_dvf_vote cfg (signed who) v s).0 ≡ ok tt
    → s.current_round < u32_max
    → Spent s.current_round v.validator_account (submit_dvf_vote cfg (signed who) v s).1
accepted-Spent cfg who v s h small = elim (accepted_round cfg who v s h) [
  | inl (same, recs) ↦ inr (
    same,
    (
      v,
      ap (λ m. lookup v.validator_account (get [] s.current_round m)) recs
          ∙ inserted s.current_round v s,
    ),
  )
  | inr next ↦ inl (omega (arith, small, next))
]

-- A validator votes once in a round: after a vote of it was accepted, and after any further calls of
-- `submit_dvf_vote` by anyone that leave the round what it was, each vote of the same validator that
-- passes the other checks is refused as a double vote and changes nothing. The round is below the
-- largest u32.
pub submit_dvf_vote_twice :
    (cfg : Config) (who who' : ℕ) (v v' : DvfVote) (w' : ℕ) (s : Finality)
    (vs : List (Origin × DvfVote))
    → (submit_dvf_vote cfg (signed who) v s).0 ≡ ok tt
    → s.current_round < u32_max
    → let t = submit_votes cfg vs (submit_dvf_vote cfg (signed who) v s).1 in
      t.current_round ≡ s.current_round
      → v'.validator_account ≡ v.validator_account
      → Eligible cfg v' w' t
      → submit_dvf_vote cfg (signed who') v' t ≡ (err (dvf_error double_vote), t)
submit_dvf_vote_twice cfg who who' v v' w' s vs accepted small still same el =
    let t = submit_votes cfg vs (submit_dvf_vote cfg (signed who) v s).1 in
    elim (submit_votes-Spent cfg vs s.current_round v.validator_account
      (submit_dvf_vote cfg (signed who) v s).1 small (accepted-Spent cfg who v s accepted small)) [
        | inl over ↦ absurd (omega (arith, over, still))
        | inr (now, (old, found)) ↦ submit_dvf_vote_recorded cfg who' v' old w' t el (
            ap (λ r. vote_record r v'.validator_account t) still
            ∙ ap (λ a. vote_record s.current_round a t) same
            ∙ found)
      ]
