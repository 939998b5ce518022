-- ===== src/Dcf/Governance/Epoch/Kept.antt =====
-- What the epoch hook on proposals leaves of the votes and the counts.
use mathlib.Core.Path.{subst⁻¹}
use cerulea.Common.{
  ℕ, ◌≡◌, refl, ap, sym, ◌∙◌, inl, inr, Bool, true, false, List, [], ◌∷◌, Option, none, some,
  if◌then◌else◌, ◌==◌, ⊤, Map, lookup, insert, lookup-insert, retain, All, IsUnique, arith,
  Bool-cases, Option-cases,
}
use cerulea.Frame.Action.{Result, ok}
use cerulea.Frame.Currency.{Currency}
use cerulea.Pos.State
use cerulea.Dcf.State.{
  Chain, Config, GovernanceProposal, ProposalAction, executed, slash, reward, eject, add_validator,
  remove_validator, reward_multiple,
}
use cerulea.Dcf.Governance.{is_pending, should_auto_approve_proposal}
use cerulea.Dcf.Governance.Execute.{execute_action}
use cerulea.Dcf.Governance.Tally.{process-Tallied}
use cerulea.Dcf.Governance.Parts.{Parts, parts, TalliedParts, execute_action-parts}
use cerulea.Dcf.Governance.Epoch.{
  pending_proposals, execute_automatic, process_proposal, process_proposals,
  process_epoch_proposals,
}

-- A proposal of the snapshot is of the kind that is stored under its id.
abbrev SameKind : Map GovernanceProposal → ℕ × GovernanceProposal → Type 0
SameKind ps e =
    (q : GovernanceProposal)
    → lookup e.0 ps ≡ some q
    → should_auto_approve_proposal q.action ≡ should_auto_approve_proposal e.1.action

All-map :
    {A : Type 0} {P Q : A → Type 0} → ((a : A) → P a → Q a) → (xs : List A) → All P xs → All Q xs
All-map f [] h = tt
All-map f (x ∷ xs) h = (f x h.0, All-map f xs h.1)

All-retain :
    {A : Type 0} (P : A → Type 0) (p : A → Bool) (xs : List A) → All P xs → All P (retain p xs)
All-retain P p [] h = tt
All-retain P p (x ∷ xs) h = elim (Bool-cases (p x)) [
  | inl e ↦
      subst⁻¹ (All P) (ap (λ b. if b then x ∷ retain p xs else retain p xs) e)
        (h.0, All-retain P p xs h.1)
  | inr e ↦
      subst⁻¹ (All P) (ap (λ b. if b then x ∷ retain p xs else retain p xs) e)
        (All-retain P p xs h.1)
]

-- The entries of a map with distinct keys are those that are found in it.
entries : (ps : Map GovernanceProposal) → IsUnique ps → All (λ e. lookup e.0 ps ≡ some e.1) ps
entries [] u = tt
entries ((k, p) ∷ ps) u =
    (ground arith, All-map (λ e h. ground (arith, h, u.0)) ps (entries ps u.1))

pending-SameKind :
    (ps : Map GovernanceProposal) → IsUnique ps → All (SameKind ps) (pending_proposals ps)
unfolding pending_proposals
pending-SameKind ps u =
    All-retain (SameKind ps) (λ e. is_pending e.1.status) ps
      (All-map (λ e h q found. ap (λ (o : Option GovernanceProposal). kind o) (sym found ∙ h)) ps
        (entries ps u))
  where
    kind : Option GovernanceProposal → Bool
    kind none = false
    kind (some q) = should_auto_approve_proposal q.action

insert-SameKind :
    (id : ℕ) (p : GovernanceProposal) (ps : Map GovernanceProposal)
    → lookup id ps ≡ some p
    → (e : ℕ × GovernanceProposal) → SameKind ps e
    → SameKind (insert id (record p { status = executed }) ps) e
insert-SameKind id p ps found e h q found' = elim (Bool-cases (id == e.0)) [
  | inl same ↦
      let closed : GovernanceProposal = record p { status = executed } in
      let it : closed ≡ q = ground (arith, same, found', lookup-insert id e.0 closed ps) in
      ap (λ (r : GovernanceProposal). should_auto_approve_proposal r.action) (sym it)
      ∙ h p (ground (arith, same, found))
  | inr other ↦
      h q (ground (arith, other, found', lookup-insert id e.0 (record p { status = executed }) ps))
]

module _ {B : Type 0} (cfg : Config) (pcfg : State.Config) (cur : Currency B)
    (get_score : ℕ → ℕ) where
  execute_automatic-parts :
      (action : ProposalAction) (c : Chain B)
      → parts (execute_automatic cfg pcfg cur get_score action c).1.dcf ≡ parts c.dcf
  unfolding execute_automatic
  execute_automatic-parts (slash v amount) c = refl
  execute_automatic-parts (reward v amount) c = refl
  execute_automatic-parts (reward_multiple vs amount) c = refl
  execute_automatic-parts (eject v reason) c =
      execute_action-parts cfg pcfg cur get_score (eject v reason) c
  execute_automatic-parts (add_validator v) c =
      execute_action-parts cfg pcfg cur get_score (add_validator v) c
  execute_automatic-parts (remove_validator v) c =
      execute_action-parts cfg pcfg cur get_score (remove_validator v) c

  execute_automatic_ok :
      (action : ProposalAction) (c : Chain B)
      → (execute_automatic cfg pcfg cur get_score action c).0 ≡ ok tt
  unfolding execute_automatic execute_action
  execute_automatic_ok (slash v amount) c = refl
  execute_automatic_ok (reward v amount) c = refl
  execute_automatic_ok (reward_multiple vs amount) c = refl
  execute_automatic_ok (eject v reason) c = refl
  execute_automatic_ok (add_validator v) c = refl
  execute_automatic_ok (remove_validator v) c = refl

  pub process_proposal-parts :
      (id : ℕ) (p : GovernanceProposal) (c : Chain B)
      → lookup id c.dcf.proposals ≡ some p
      → parts (process_proposal cfg pcfg cur get_score id c).1.dcf ≡ (
        insert id (record p { status = executed }) c.dcf.proposals,
        c.dcf.proposal_votes,
        c.dcf.next_proposal_id,
      )
  unfolding process_proposal
  process_proposal-parts id p c found =
      ground (arith, found, execute_automatic_ok p.action c, execute_automatic-parts p.action c)

  pub process_proposal-none :
      (id : ℕ) (c : Chain B)
      → lookup id c.dcf.proposals ≡ none
      → process_proposal cfg pcfg cur get_score id c ≡ (ok tt, c)
  unfolding process_proposal
  process_proposal-none id c absent = ground (arith, absent)

  process_proposal_ok :
      (id : ℕ) (c : Chain B) → (process_proposal cfg pcfg cur get_score id c).0 ≡ ok tt
  unfolding process_proposal
  process_proposal_ok id c = elim (Option-cases (lookup id c.dcf.proposals)) [
    | inl e ↦ ground (arith, e)
    | inr (p, e) ↦ ground (arith, e, execute_automatic_ok p.action c)
  ]

  -- The proposals of a snapshot are of the kinds that are stored, and the votes are in order.
  abbrev Ready : Map GovernanceProposal → ℕ → Chain B → Type 0
  Ready es n c =
      All (SameKind c.dcf.proposals) es × TalliedParts (parts c.dcf) × (c.dcf.next_proposal_id ≡ n)

  process_proposal-Ready :
      (id : ℕ) (proposal : GovernanceProposal) (es : Map GovernanceProposal) (n : ℕ) (c : Chain B)
      → should_auto_approve_proposal proposal.action ≡ true
      → Ready ((id, proposal) ∷ es) n c
      → Ready es n (process_proposal cfg pcfg cur get_score id c).1
  process_proposal-Ready id proposal es n c automatic r =
      elim (Option-cases (lookup id c.dcf.proposals)) [
        | inl e ↦
            subst⁻¹ (λ (x : Result ⊤ × Chain B). Ready es n x.1) (process_proposal-none id c e)
              (r.0.1, r.1, r.2)
        | inr (p, e) ↦
            let closed : GovernanceProposal = record p { status = executed } in
            let k = process_proposal-parts id p c e in
            (
              subst⁻¹ (λ (x : Parts). All (SameKind x.0) es) k
                  (All-map (insert-SameKind id p c.dcf.proposals e) es r.0.1),
              subst⁻¹ TalliedParts k (process-Tallied r.1 id p e (r.0.0 p e ∙ automatic)),
              ap (λ (x : Parts). x.2) k ∙ r.2,
            )
      ]

  module _ (id : ℕ) (p : GovernanceProposal) (es : Map GovernanceProposal) (c : Chain B) where
    pub skipped :
        should_auto_approve_proposal p.action ≡ false
        → process_proposals cfg pcfg cur get_score ((id, p) ∷ es) c
          ≡ process_proposals cfg pcfg cur get_score es c
    unfolding process_proposals
    skipped e = ground (arith, e)

    pub processed :
        should_auto_approve_proposal p.action ≡ true
        → process_proposals cfg pcfg cur get_score ((id, p) ∷ es) c
          ≡ process_proposals cfg pcfg cur get_score es
              (process_proposal cfg pcfg cur get_score id c).1
    unfolding process_proposals
    processed e = ground (arith, e, process_proposal_ok id c)

  process_proposals-Ready :
      (es : Map GovernanceProposal) (n : ℕ) (c : Chain B)
      → Ready es n c
      → Ready [] n (process_proposals cfg pcfg cur get_score es c).1
  unfolding process_proposals
  process_proposals-Ready [] n c r = r
  process_proposals-Ready ((id, p) ∷ es) n c r =
      elim (Bool-cases (should_auto_approve_proposal p.action)) [
        | inr e ↦
            subst⁻¹ (λ (x : Result ⊤ × Chain B). Ready [] n x.1) (skipped id p es c e)
              (process_proposals-Ready es n c (r.0.1, r.1, r.2))
        | inl e ↦
            let c' = (process_proposal cfg pcfg cur get_score id c).1 in
            subst⁻¹ (λ (x : Result ⊤ × Chain B). Ready [] n x.1) (processed id p es c e)
              (process_proposals-Ready es n c' (process_proposal-Ready id p es n c e r))
      ]

  -- The hook keeps the votes in order and gives no id.
  pub process_epoch_proposals-Tallied :
      (c : Chain B)
      → TalliedParts (parts c.dcf)
      → let d = (process_epoch_proposals cfg pcfg cur get_score c).1.dcf in
        TalliedParts (parts d) × (d.next_proposal_id ≡ c.dcf.next_proposal_id)
  unfolding process_epoch_proposals
  process_epoch_proposals-Tallied c t =
      let r =
        process_proposals-Ready (pending_proposals c.dcf.proposals) c.dcf.next_proposal_id c
          (pending-SameKind c.dcf.proposals t.unique, t, refl) in
      (r.1, r.2)
