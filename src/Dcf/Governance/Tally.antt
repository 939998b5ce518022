-- ===== src/Dcf/Governance/Tally.antt =====
-- The votes of the proposals: who has voted, what is counted, and the verdict.
use mathlib.Core.Path.{subst⁻¹}
use cerulea.Common.{
  ℕ, ◌+◌, ◌%◌, ◌^◌, ◌≤◌, ◌<◌, ◌≡◌, sym, ap, ◌∙◌, Bool, true, false, ltb, ◌==◌, [], none, some, Map,
  lookup, has_key, get, insert, lookup-insert, IsUnique, insert-IsUnique, arith, Bool-cases, inl,
  inr, if-cases, ltb→lt,
}
use cerulea.Dcf.State.{GovernanceProposal, ProposalAction, executed}
use cerulea.Dcf.Governance.{
  new_proposal, counted, decided, is_pending, should_auto_approve_proposal,
}
use cerulea.Dcf.Governance.Execute.{is_approved}
use cerulea.Dcf.Governance.Counts.{
  tally, Agrees, AgreesWith, get-insert, stored, tally-insert, decided-AgreesWith, counted-pending,
  approved-executed,
}

-- Each account has voted at most once on each proposal, a proposal counts the votes of each kind, up
-- to the wrap of u32, its verdict agrees with the counts, and no vote waits under an id that is
-- still to be given.
pub record Tallied (ps : Map GovernanceProposal) (vs : Map (Map Bool)) (next : ℕ) : Type 0 where
  pub unique : IsUnique ps
  pub once : (id : ℕ) → IsUnique (get [] id vs)
  pub for :
      (id : ℕ) (p : GovernanceProposal)
      → lookup id ps ≡ some p
      → p.votes_for ≡ tally true (get [] id vs) % 2 ^ 32
  pub against :
      (id : ℕ) (p : GovernanceProposal)
      → lookup id ps ≡ some p
      → p.votes_against ≡ tally false (get [] id vs) % 2 ^ 32
  pub agrees :
      (id : ℕ) (p : GovernanceProposal)
      → lookup id ps ≡ some p
      → Agrees p.status p.action p.votes_for p.votes_against
  pub fresh : (id : ℕ) → next ≤ id → (lookup id ps ≡ none) × (get [] id vs ≡ [])

module _ {ps : Map GovernanceProposal} {vs : Map (Map Bool)} {next : ℕ}
    (t : Tallied ps vs next) where
  pub submit-Tallied :
      (who : ℕ) (action : ProposalAction)
      → Tallied (insert next (new_proposal who action) ps) vs (next + 1)
  unfolding new_proposal Agrees tally
  submit-Tallied who action =
      let none_yet = t.fresh next (omega arith) in
      let q = new_proposal who action in
      record {
        unique = insert-IsUnique next q ps t.unique;
        once = t.once;
        for =
            stored (λ id p. p.votes_for ≡ tally true (get [] id vs) % 2 ^ 32) next q ps
              (ap (λ m. tally true m % 2 ^ 32) (sym none_yet.1)) (λ id p e h. t.for id p h);
        against =
            stored (λ id p. p.votes_against ≡ tally false (get [] id vs) % 2 ^ 32) next q ps
              (ap (λ m. tally false m % 2 ^ 32) (sym none_yet.1)) (λ id p e h. t.against id p h);
        agrees =
            stored (λ id p. Agrees p.status p.action p.votes_for p.votes_against) next q ps tt
              (λ id p e h. t.agrees id p h);
        fresh = λ id h. (
          ground (arith, h, lookup-insert next id q ps, (t.fresh id (omega (arith, h))).0),
          (t.fresh id (omega (arith, h))).1,
        );
      }

  vote_old :
      (id who j : ℕ) (approve : Bool)
      → (id == j) ≡ false
      → get [] j (insert id (insert who approve (get [] id vs)) vs) ≡ get [] j vs
  vote_old id who j approve e =
      ground (arith, e, get-insert id j (insert who approve (get [] id vs)) vs)

  given : (id : ℕ) (p : GovernanceProposal) → lookup id ps ≡ some p → id < next
  given id p found = elim (Bool-cases (ltb id next)) [
    | inl e ↦ ltb→lt id next e
    | inr e ↦ absurd (ground (arith, found, (t.fresh id (ground (arith, e))).0))
  ]

  -- The counts with one more vote, and the verdict on them.
  decided_for :
      (id who active : ℕ) (approve : Bool) (p : GovernanceProposal)
      → lookup id ps ≡ some p
      → has_key who (get [] id vs) ≡ false
      → (decided active (counted approve p)).votes_for
        ≡ tally true (insert who approve (get [] id vs)) % 2 ^ 32
  unfolding decided counted tally
  decided_for id who active true p found new =
      ground (arith, t.for id p found, tally-insert true who true (get [] id vs) new)
  decided_for id who active false p found new =
      ground (arith, t.for id p found, tally-insert true who false (get [] id vs) new)

  decided_against :
      (id who active : ℕ) (approve : Bool) (p : GovernanceProposal)
      → lookup id ps ≡ some p
      → has_key who (get [] id vs) ≡ false
      → (decided active (counted approve p)).votes_against
        ≡ tally false (insert who approve (get [] id vs)) % 2 ^ 32
  unfolding decided counted tally
  decided_against id who active true p found new =
      ground (arith, t.against id p found, tally-insert false who true (get [] id vs) new)
  decided_against id who active false p found new =
      ground (arith, t.against id p found, tally-insert false who false (get [] id vs) new)

  pub vote-Tallied :
      (id who active : ℕ) (approve : Bool) (p : GovernanceProposal)
      → lookup id ps ≡ some p
      → is_pending p.status ≡ true
      → has_key who (get [] id vs) ≡ false
      → Tallied
          (insert id (decided active (counted approve p)) ps)
          (insert id (insert who approve (get [] id vs)) vs)
          next
  vote-Tallied id who active approve p found waits new =
      let q = decided active (counted approve p) in
      let m = insert who approve (get [] id vs) in
      let mine : get [] id (insert id m vs) ≡ m = ground (arith, get-insert id id m vs) in
      let known = given id p found in
      record {
        unique = insert-IsUnique id q ps t.unique;
        once = λ j. subst⁻¹ IsUnique (get-insert id j m vs) (
            if-cases IsUnique (id == j)
              (λ e. insert-IsUnique who approve (get [] id vs) (t.once id)) (λ e. t.once j));
        for =
            stored (λ j r. r.votes_for ≡ tally true (get [] j (insert id m vs)) % 2 ^ 32) id q ps
              (decided_for id who active approve p found new
                ∙ ap (λ x. tally true x % 2 ^ 32) (sym mine))
              (λ j r e h.
                t.for j r h ∙ ap (λ x. tally true x % 2 ^ 32) (sym (vote_old id who j approve e)));
        against =
            stored (λ j r. r.votes_against ≡ tally false (get [] j (insert id m vs)) % 2 ^ 32) id q
              ps
              (decided_against id who active approve p found new
                ∙ ap (λ x. tally false x % 2 ^ 32) (sym mine))
              (λ j r e h.
                t.against j r h
                ∙ ap (λ x. tally false x % 2 ^ 32) (sym (vote_old id who j approve e)));
        agrees =
            stored (λ j r. Agrees r.status r.action r.votes_for r.votes_against) id q ps
              (decided-AgreesWith active (counted approve p)
                (ap is_pending (counted-pending approve p) ∙ waits))
              (λ j r e h. t.agrees j r h);
        fresh = λ j h. (
          ground (arith, h, known, lookup-insert id j q ps, (t.fresh j h).0),
          vote_old id who j approve (ground (arith, h, known)) ∙ (t.fresh j h).1,
        );
      }

  -- A proposal is executed, which must agree with its counts.
  pub close-Tallied :
      (id : ℕ) (p : GovernanceProposal)
      → lookup id ps ≡ some p
      → AgreesWith (record p { status = executed })
      → Tallied (insert id (record p { status = executed }) ps) vs next
  close-Tallied id p found agreed =
      let q : GovernanceProposal = record p { status = executed } in
      record {
        unique = insert-IsUnique id q ps t.unique;
        once = t.once;
        for =
            stored (λ j r. r.votes_for ≡ tally true (get [] j vs) % 2 ^ 32) id q ps
              (t.for id p found) (λ j r e h. t.for j r h);
        against =
            stored (λ j r. r.votes_against ≡ tally false (get [] j vs) % 2 ^ 32) id q ps
              (t.against id p found) (λ j r e h. t.against j r h);
        agrees = stored (λ j r. AgreesWith r) id q ps agreed (λ j r e h. t.agrees j r h);
        fresh = λ j h. (
          ground (arith, h, given id p found, lookup-insert id j q ps, (t.fresh j h).0),
          (t.fresh j h).1,
        );
      }

  pub execute-Tallied :
      (id : ℕ) (p : GovernanceProposal)
      → lookup id ps ≡ some p
      → is_approved p.status ≡ true
      → Tallied (insert id (record p { status = executed }) ps) vs next
  execute-Tallied id p found passed =
      close-Tallied id p found (approved-executed p passed (t.agrees id p found))

  -- The epoch hook executes what needs no votes.
  pub process-Tallied :
      (id : ℕ) (p : GovernanceProposal)
      → lookup id ps ≡ some p
      → should_auto_approve_proposal p.action ≡ true
      → Tallied (insert id (record p { status = executed }) ps) vs next
  unfolding Agrees
  process-Tallied id p found automatic = close-Tallied id p found (inl automatic)
