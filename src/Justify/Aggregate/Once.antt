-- ===== src/Justify/Aggregate/Once.antt =====
-- Which blocks the service triggers: the heaviest candidate that reaches the threshold, and none
-- twice.
use mathlib.Core.Path.{subst}
use cerulea.Common.{
  ℕ, ◌≤◌, ◌<◌, ◌≡◌, refl, sym, ap, ◌∙◌, List, [], ◌∷◌, ◌&&◌, Option, none, some, arith,
  Option-cases, retain, is_empty, map_total, ◌%◌, ◌^◌, Bool-cases, inl, inr, ◌⊎◌,
}
use cerulea.Gossip.Pool.{DvfVotePool, get_candidate_blocks}
use cerulea.Justify.{Node, BuildError, Built, built, failed}
use cerulea.Justify.Aggregate.{
  Aggregator, View, Triggered, check_vote_accumulation, is_above, best_candidate, trigger,
}

-- The block that a check has triggered, by its number.
unfoldable pub triggered_number : View → Built Triggered → Option ℕ
triggered_number view (failed e) = none
triggered_number view (built none) = none
triggered_number view (built (some (h, o))) = view.header h

-- A block that is triggered is above all that were triggered and above the finalized head; it is
-- then the last one that was triggered.
trigger_above :
    (node : Node) (view : View) (pool : DvfVotePool) (round finalized chosen n : ℕ) (a : Aggregator)
    → triggered_number view (trigger node view pool round finalized chosen a).0 ≡ some n
    → (a.last_triggered_block < n)
      × ((trigger node view pool round finalized chosen a).1.last_triggered_block ≡ n)
unfolding trigger triggered_number
trigger_above node view pool round finalized chosen n a e =
    elim (Option-cases (view.header chosen)) [
      | inl h ↦ absurd (ground (arith, e, h))
      | inr (number, h) ↦ (ground (arith, e, h), ground (arith, e, h))
    ]

trigger_keeps :
    (node : Node) (view : View) (pool : DvfVotePool) (round finalized chosen : ℕ) (a : Aggregator)
    → a.last_triggered_block
      ≤ (trigger node view pool round finalized chosen a).1.last_triggered_block
unfolding trigger
trigger_keeps node view pool round finalized chosen a = ground arith

-- What the loop over the candidates comes to.
chosen_cases :
    (b : Built (Option ℕ × ℕ))
    → (((e : BuildError) × (b ≡ failed e)) ⊎ ((w : ℕ) × (b ≡ built (none, w))))
      ⊎ ((h : ℕ) × (w : ℕ) × (b ≡ built (some h, w)))
chosen_cases (failed e) = inl (inl (e, refl))
chosen_cases (built (none, w)) = inl (inr (w, refl))
chosen_cases (built (some h, w)) = inr (h, w, refl)

-- A check leaves the service as it is and triggers nothing, or ends with a chosen block.
check_cases :
    (node : Node) (view : View) (pool : DvfVotePool) (a : Aggregator)
    → ((triggered_number view (check_vote_accumulation node view pool a).0 ≡ none)
        × ((check_vote_accumulation node view pool a).1 ≡ a))
      ⊎ ((round : ℕ) × (finalized : ℕ) × (chosen : ℕ) × (check_vote_accumulation node view pool a
            ≡ trigger node view pool round finalized chosen a))
unfolding check_vote_accumulation triggered_number
check_cases node view pool a = elim (Option-cases view.get_current_round) [
  | inl r ↦ inl (ground (arith, r), ground (arith, r))
  | inr (round, r) ↦ elim (Option-cases view.get_dvf_finalized_block) [
    | inl f ↦ inl (ground (arith, r, f), ground (arith, r, f))
    | inr (finalized, f) ↦
        let candidates =
          retain (λ h. is_above view a.last_triggered_block h && is_above view finalized h)
            (get_candidate_blocks round pool) in
        elim (Bool-cases (is_empty candidates)) [
          | inl c ↦ inl (ground (arith, r, f, c), ground (arith, r, f, c))
          | inr c ↦ elim (Option-cases node.get_finality_threshold_perbill) [
            | inl p ↦ inl (ground (arith, r, f, c, p), ground (arith, r, f, c, p))
            | inr (perbill, p) ↦ elim (Option-cases node.get_validator_weights) [
              | inl w ↦ inl (ground (arith, r, f, c, p, w), ground (arith, r, f, c, p, w))
              | inr (entries, w) ↦
                  let best =
                    best_candidate node pool round (perbill (map_total entries % 2 ^ 128))
                      candidates none 0 in
                  elim (chosen_cases best) [
                    | inl (inl (x, b)) ↦
                        inl (ground (arith, r, f, c, p, w, b), ground (arith, r, f, c, p, w, b))
                    | inl (inr (x, b)) ↦
                        inl (ground (arith, r, f, c, p, w, b), ground (arith, r, f, c, p, w, b))
                    | inr (h, weight, b) ↦
                        inr (round, finalized, h, ground (arith, r, f, c, p, w, b))
                  ]
            ]
          ]
        ]
  ]
]

check_above :
    (node : Node) (view : View) (pool : DvfVotePool) (n : ℕ) (a : Aggregator)
    → triggered_number view (check_vote_accumulation node view pool a).0 ≡ some n
    → (a.last_triggered_block < n)
      × ((check_vote_accumulation node view pool a).1.last_triggered_block ≡ n)
check_above node view pool n a h = elim (check_cases node view pool a) [
  | inl (none_yet, same) ↦ absurd (ground (arith, h, none_yet))
  | inr (round, finalized, chosen, e) ↦
      let above =
        trigger_above node view pool round finalized chosen n a
          (sym (ap (λ x. triggered_number view x.0) e) ∙ h) in
      (above.0, ap (λ x. x.1.last_triggered_block) e ∙ above.1)
]

check_keeps :
    (node : Node) (view : View) (pool : DvfVotePool) (a : Aggregator)
    → a.last_triggered_block ≤ (check_vote_accumulation node view pool a).1.last_triggered_block
check_keeps node view pool a = elim (check_cases node view pool a) [
  | inl (none_yet, same) ↦ ground (arith, ap (λ x. x.last_triggered_block) same)
  | inr (round, finalized, chosen, e) ↦ ground (
    arith,
    ap (λ x. x.1.last_triggered_block) e,
    trigger_keeps node view pool round finalized chosen a,
  )
]

-- The numbers of the blocks that a sequence of checks triggers, while the answers and the pool change
-- in any way between them.
unfoldable pub all_triggered : List (Node × View × DvfVotePool) → Aggregator → List ℕ
unfolding triggered_number
all_triggered [] a = []
all_triggered ((node, view, pool) ∷ checks) a =
    let rest = all_triggered checks (check_vote_accumulation node view pool a).1 in
    elim (triggered_number view (check_vote_accumulation node view pool a).0) [
      | none ↦ rest
      | some n ↦ n ∷ rest
    ]

-- Each number is above the one before, the first above `low`.
abbrev pub IsRising : ℕ → List ℕ → Type 0
IsRising low [] = Unit {0}
IsRising low (n ∷ ns) = (low < n) × IsRising n ns

IsRising-le : (low high : ℕ) (ns : List ℕ) → low ≤ high → IsRising high ns → IsRising low ns
IsRising-le low high [] h r = tt
IsRising-le low high (n ∷ ns) h r = (omega (arith, h, r.0), r.1)

-- The service triggers blocks at rising numbers only: none is tried again, also when its
-- justification could not be built or applied, and none below it is tried afterwards.
pub all_triggered-IsRising :
    (checks : List (Node × View × DvfVotePool)) (a : Aggregator)
    → IsRising a.last_triggered_block (all_triggered checks a)
unfolding all_triggered
all_triggered-IsRising [] a = tt
all_triggered-IsRising ((node, view, pool) ∷ checks) a =
    let after = (check_vote_accumulation node view pool a).1 in
    let rest = all_triggered-IsRising checks after in
    go (triggered_number view (check_vote_accumulation node view pool a).0) refl rest
  where
    go :
        (o : Option ℕ)
        → triggered_number view (check_vote_accumulation node view pool a).0 ≡ o
        → IsRising
            (check_vote_accumulation node view pool a).1.last_triggered_block
            (all_triggered checks (check_vote_accumulation node view pool a).1)
        → IsRising a.last_triggered_block (elim o as (λ _. List ℕ) [
          | none ↦ all_triggered checks (check_vote_accumulation node view pool a).1
          | some n ↦ n ∷ all_triggered checks (check_vote_accumulation node view pool a).1
        ])
    go none e r = IsRising-le a.last_triggered_block _ _ (check_keeps node view pool a) r
    go (some n) e r =
        let above = check_above node view pool n a e in
        (
          above.0,
          subst
              (λ m. IsRising m (all_triggered checks (check_vote_accumulation node view pool a).1))
              above.1 r,
        )
