-- ===== src/Dcf/Governance/Reach.antt =====
-- Any sequence of governance calls and epoch hooks keeps the votes in order.
use mathlib.Core.Path.{subst⁻¹}
use cerulea.Common.{
  ℕ, suc, ◌+◌, ◌%◌, ◌^◌, ◌≤◌, ◌<◌, ◌≡◌, refl, ap, ◌∙◌, inl, inr, Bool, List, [], ◌∷◌, Option,
  lookup, insert, length, arith, Option-cases,
}
use cerulea.Frame.Action.{Origin, root, signed, unsigned}
use cerulea.Frame.Currency.{Currency}
use cerulea.Pos.State
use cerulea.Pos.State.{World}
use cerulea.Dvf.Registry.{Registry}
use cerulea.Dcf.State.{Dcf, Chain, Config, ProposalAction, on_dcf}
use cerulea.Dcf.Governance.{submit_proposal_call, vote_proposal_call, create_proposal, new_proposal}
use cerulea.Dcf.Governance.Epoch.{process_epoch_proposals}
use cerulea.Dcf.Governance.Epoch.Kept.{process_epoch_proposals-Tallied}
use cerulea.Dcf.Governance.Execute.{execute_proposal}
use cerulea.Dcf.Governance.Tally.{submit-Tallied, vote-Tallied, execute-Tallied}
use cerulea.Dcf.Governance.Parts.{
  Parts, parts, TalliedParts, IsTallied, submit_proposal-parts, vote_proposal-parts, vote_unknown,
  execute_unknown, execute_proposal-parts,
}

module _ {B : Type 0} (cfg : Config) (pcfg : State.Config) (cur : Currency B)
    (get_score : ℕ → ℕ) where
  -- The calls on proposals; `creates` is a sudo call that proposes, past its guards, or the hook that
  -- proposes an ejection, and `processes` the epoch hook. Nothing else writes proposals or votes;
  -- `elsewhere` is any change of all other storage between two of them.
  pub data Call : Type 0 where
    submits : Origin → ProposalAction → Option (List ℕ) → Call
    votes_on : Origin → ℕ → Bool → Call
    executes : Origin → ℕ → Call
    creates : ℕ → ProposalAction → Call
    processes : Call
    elsewhere : World Registry B → Dcf → Call

  pub run : Call → Chain B → Chain B
  run (submits origin action text) c = (on_dcf (submit_proposal_call cfg origin action text) c).1
  run (votes_on origin id approve) c =
      (on_dcf (vote_proposal_call cfg c.world.handler origin id approve) c).1
  run (executes origin id) c = (execute_proposal cfg pcfg cur get_score origin id c).1
  run (creates proposer action) c = (on_dcf (create_proposal proposer action) c).1
  run processes c = (process_epoch_proposals cfg pcfg cur get_score c).1
  run (elsewhere w d) c = record c {
    dcf = record d {
      proposals = c.dcf.proposals;
      proposal_votes = c.dcf.proposal_votes;
      next_proposal_id = c.dcf.next_proposal_id;
    };
    world = w;
  }

  pub run_all : List Call → Chain B → Chain B
  unfolding run
  run_all [] c = c
  run_all (call ∷ calls) c = run_all calls (run call c)

  -- The votes are in order, and at most `n` ids are given.
  Within : ℕ → Parts → Type 0
  Within n q = TalliedParts q × (q.2 ≤ n)

  same : (n : ℕ) {q q' : Parts} → q' ≡ q → Within n q → Within (suc n) q'
  unfolding Within
  same n e w = subst⁻¹ (Within (suc n)) e (w.0, omega (arith, w.1))

  submits-Within :
      (n who : ℕ) (action : ProposalAction) (text : Option (List ℕ)) (c : Chain B)
      → suc n < 2 ^ 32
      → Within n (parts c.dcf)
      → Within (suc n) (parts (submit_proposal_call cfg (signed who) action text c.dcf).1)
  unfolding Within
  submits-Within n who action text c room w =
      let next = c.dcf.next_proposal_id in
      let small : (next + 1) % 2 ^ 32 ≡ next + 1 = omega (arith, w.1, room) in
      elim (submit_proposal-parts cfg who action text c.dcf) [
        | inl e ↦ same n e w
        | inr e ↦
            subst⁻¹ (Within (suc n))
              (e
                ∙ ap
                    (λ k. (
                      insert next (new_proposal who action) c.dcf.proposals,
                      c.dcf.proposal_votes,
                      k,
                    ))
                    small)
              (submit-Tallied w.0 who action, omega (arith, w.1))
      ]

  creates-Within :
      (n who : ℕ) (action : ProposalAction) (c : Chain B)
      → suc n < 2 ^ 32
      → Within n (parts c.dcf)
      → Within (suc n) (parts (create_proposal who action c.dcf).1)
  unfolding Within create_proposal
  creates-Within n who action c room w =
      let next = c.dcf.next_proposal_id in
      let small : (next + 1) % 2 ^ 32 ≡ next + 1 = omega (arith, w.1, room) in
      subst⁻¹ (Within (suc n))
        (ap (λ k. (insert next (new_proposal who action) c.dcf.proposals, c.dcf.proposal_votes, k))
          small)
        (submit-Tallied w.0 who action, omega (arith, w.1))

  votes-Within :
      (n who id : ℕ) (approve : Bool) (c : Chain B)
      → Within n (parts c.dcf)
      → Within
          (suc n)
          (parts (vote_proposal_call cfg c.world.handler (signed who) id approve c.dcf).1)
  unfolding Within
  votes-Within n who id approve c w =
      let r = c.world.handler in
      elim (Option-cases (lookup id c.dcf.proposals)) [
        | inl e ↦ same n (vote_unknown cfg pcfg cur get_score r who id approve c.dcf e) w
        | inr (p, found) ↦ elim (vote_proposal-parts cfg r who id approve p c.dcf found) [
          | inl e ↦ same n e w
          | inr e ↦ subst⁻¹ (Within (suc n)) e.2 (
            vote-Tallied w.0 id who (length r.active_validators) approve p found e.0 e.1,
            omega (arith, w.1),
          )
        ]
      ]

  executes-Within :
      (n id : ℕ) (c : Chain B)
      → Within n (parts c.dcf)
      → Within (suc n) (parts (execute_proposal cfg pcfg cur get_score root id c).1.dcf)
  unfolding Within
  executes-Within n id c w = elim (Option-cases (lookup id c.dcf.proposals)) [
    | inl e ↦ same n (execute_unknown cfg pcfg cur get_score id c e) w
    | inr (p, found) ↦ elim (execute_proposal-parts cfg pcfg cur get_score id p c found) [
      | inl e ↦ same n e w
      | inr e ↦
          subst⁻¹ (Within (suc n)) e.1 (execute-Tallied w.0 id p found e.0, omega (arith, w.1))
    ]
  ]

  run-Within :
      (n : ℕ) (call : Call) (c : Chain B)
      → suc n < 2 ^ 32
      → Within n (parts c.dcf)
      → Within (suc n) (parts (run call c).dcf)
  unfolding run submit_proposal_call vote_proposal_call execute_proposal Within
  run-Within n (submits root action text) c room w = same n refl w
  run-Within n (submits unsigned action text) c room w = same n refl w
  run-Within n (submits (signed who) action text) c room w =
      submits-Within n who action text c room w
  run-Within n (votes_on root id approve) c room w = same n refl w
  run-Within n (votes_on unsigned id approve) c room w = same n refl w
  run-Within n (votes_on (signed who) id approve) c room w = votes-Within n who id approve c w
  run-Within n (executes root id) c room w = executes-Within n id c w
  run-Within n (executes unsigned id) c room w = same n refl w
  run-Within n (executes (signed who) id) c room w = same n refl w
  run-Within n (creates who action) c room w = creates-Within n who action c room w
  run-Within n processes c room w =
      let (t, e) = process_epoch_proposals-Tallied cfg pcfg cur get_score c w.0 in
      (t, omega (arith, e, w.1))
  run-Within n (elsewhere world d) c room w = same n refl w

  run_all-Within :
      (n : ℕ) (calls : List Call) (c : Chain B)
      → n + length calls < 2 ^ 32
      → Within n (parts c.dcf)
      → TalliedParts (parts (run_all calls c).dcf)
  unfolding run_all Within
  run_all-Within n [] c room w = w.0
  run_all-Within n (call ∷ calls) c room w =
      run_all-Within (suc n) calls (run call c) (omega (arith, room))
        (run-Within n call c (omega (arith, room)) w)

  -- Whatever is submitted, proposed, voted on, executed and processed at the end of an epoch, while the
  -- ids of proposals do not wrap: each account votes at most once on a proposal, the counts of a
  -- proposal are those of the votes up to the wrap of u32, a proposal is approved only with more votes
  -- counted for than against it, and executed only so or if it is of a kind that the epoch hook
  -- executes without votes: an addition, a removal, or an ejection for a low score or an excess.
  pub run_all-IsTallied :
      (calls : List Call) (c : Chain B)
      → c.dcf.next_proposal_id + length calls < 2 ^ 32
      → IsTallied c.dcf
      → IsTallied (run_all calls c).dcf
  unfolding Within
  run_all-IsTallied calls c room t =
      run_all-Within c.dcf.next_proposal_id calls c room (t, omega arith)
