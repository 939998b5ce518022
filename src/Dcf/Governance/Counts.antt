-- ===== src/Dcf/Governance/Counts.antt =====
-- The counts of a proposal's votes, the verdict on them, and writes of one proposal.
use mathlib.Core.Path.{subst}
use cerulea.Common.{
  ℕ, ◌+◌, ◌%◌, ◌^◌, ◌/◌, ◌≤◌, ◌<◌, ◌≡◌, ◌⊎◌, refl, Bool, true, false, if◌then◌else◌, ltb, leb, ◌==◌,
  [], ◌∷◌, some, Map, lookup, has_key, get, insert, lookup-insert, arith, Bool-cases, inl, inr,
  if-cases, ltb→lt,
}
use cerulea.Dcf.State.{
  GovernanceProposal, ProposalAction, ProposalStatus, pending, approved, rejected, executed,
}
use cerulea.Dcf.Governance.{counted, decided, is_pending, should_auto_approve_proposal}
use cerulea.Dcf.Governance.Execute.{is_approved}

-- The number of votes of one kind.
unfoldable pub tally : Bool → Map Bool → ℕ
tally b [] = 0
tally true ((who, v) ∷ m) = (if v then 1 else 0) + tally true m
tally false ((who, v) ∷ m) = (if v then 0 else 1) + tally false m

pub tally-insert :
    (b : Bool) (who : ℕ) (v : Bool) (m : Map Bool)
    → has_key who m ≡ false
    → tally b (insert who v m) ≡ tally b ((who, v) ∷ m)
unfolding tally
tally-insert b who v [] h = refl
tally-insert true who v ((w, x) ∷ m) h = ground (arith, h, tally-insert true who v m)
tally-insert false who v ((w, x) ∷ m) h = ground (arith, h, tally-insert false who v m)

-- The verdict agrees with the counts; what the epoch hook executes needs no votes.
unfoldable pub Agrees : ProposalStatus → ProposalAction → ℕ → ℕ → Type 0
Agrees pending action for against = Unit {0}
Agrees approved action for against = against < for
Agrees rejected action for against = for ≤ against
Agrees executed action for against = (should_auto_approve_proposal action ≡ true) ⊎ (against < for)

pub get-insert :
    (k j : ℕ) (v : Map Bool) (m : Map (Map Bool))
    → get [] j (insert k v m) ≡ (if k == j then v else get [] j m)
get-insert k j v m = ground (arith, lookup-insert k j v m)

-- What holds of the written proposal and of the others holds of all.
pub stored :
    (P : ℕ → GovernanceProposal → Type 0) (k : ℕ) (q : GovernanceProposal)
    (ps : Map GovernanceProposal)
    → P k q
    → ((id : ℕ) (p : GovernanceProposal) → (k == id) ≡ false → lookup id ps ≡ some p → P id p)
    → (id : ℕ) (p : GovernanceProposal) → lookup id (insert k q ps) ≡ some p
    → P id p
stored P k q ps new old id p h = elim (Bool-cases (k == id)) [
  | inl e ↦
      let same : k ≡ id = ground (arith, e) in
      let it : q ≡ p = ground (arith, e, h, lookup-insert k id q ps) in
      subst (λ i. P i p) same (subst (P k) it new)
  | inr e ↦ old id p e (ground (arith, e, h, lookup-insert k id q ps))
]

abbrev pub AgreesWith : GovernanceProposal → Type 0
AgreesWith p = Agrees p.status p.action p.votes_for p.votes_against

pending-AgreesWith : (p : GovernanceProposal) → is_pending p.status ≡ true → AgreesWith p
unfolding is_pending Agrees
pending-AgreesWith p h = go p.status h
  where
    go : (s : ProposalStatus) → is_pending s ≡ true → Agrees s p.action p.votes_for p.votes_against
    go pending e = tt
    go approved e = absurd (ground (arith, e))
    go rejected e = absurd (ground (arith, e))
    go executed e = absurd (ground (arith, e))

pub decided-AgreesWith :
    (active : ℕ) (p : GovernanceProposal)
    → is_pending p.status ≡ true
    → AgreesWith (decided active p)
unfolding decided Agrees
decided-AgreesWith active p h =
    if-cases AgreesWith
      (leb ((active % 2 ^ 32 + 1) % 2 ^ 32 / 2) ((p.votes_for + p.votes_against) % 2 ^ 32))
      (λ e.
        if-cases (λ s. Agrees s p.action p.votes_for p.votes_against)
          (ltb p.votes_against p.votes_for) (λ l. ltb→lt p.votes_against p.votes_for l)
          (λ l. ground (arith, l)))
      (λ e. pending-AgreesWith p h)

pub counted-pending :
    (approve : Bool) (p : GovernanceProposal) → (counted approve p).status ≡ p.status
unfolding counted
counted-pending true p = refl
counted-pending false p = refl

pub approved-executed :
    (p : GovernanceProposal)
    → is_approved p.status ≡ true
    → AgreesWith p
    → AgreesWith (record p { status = executed })
unfolding is_approved Agrees
approved-executed p h = go p.status h
  where
    go :
        (s : ProposalStatus)
        → is_approved s ≡ true
        → Agrees s p.action p.votes_for p.votes_against
        → Agrees executed p.action p.votes_for p.votes_against
    go pending e k = absurd (ground (arith, e))
    go approved e k = inr k
    go rejected e k = absurd (ground (arith, e))
    go executed e k = k
