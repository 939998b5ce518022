-- ===== src/Poi/Calls/Reach.antt =====
-- The calls of pallet-cerulea-poi, in any order, from genesis.
use cerulea.Common.{
  ℕ, ◌%◌, ◌^◌, ◌≡◌, true, inl, inr, List, [], ◌∷◌, take, length, min, has_key, insert, Map, arith,
  lookup-insert, Option-cases,
}
use cerulea.Frame.Errors.{poi_error, inference_already_submitted}
use cerulea.Frame.Action.{ok, err, Keeps, >>=-Keeps, Origin, root, signed, unsigned}
use cerulea.Poi.State.{Config, PosInterface, DcfInterface, InferenceErrorSeverity, World}
use cerulea.Poi.Offchain.{Host, get_offchain_poi_score, run_offchain_computation, offchain_worker}
use cerulea.Poi.Calls.{
  store_result, submit_inference, challenge_inference, record_inference_activity,
  simulate_inference, apply_score, apply_scores, apply_offchain_poi_scores,
  update_validator_inference_score, handle_valid_inference, handle_invalid_inference,
}

-- What holds of the results and the epoch, and stays when a result of the epoch is stored.
module _ {H : Type 0} (cfg : Config) (pos : PosInterface H) (dcf : DcfInterface H)
    (Q : Map (ℕ × ℕ) → ℕ → Type 0)
    (stays : (who r e : ℕ) (m : Map (ℕ × ℕ)) → Q m e → Q (insert who (r, e) m) e) where
  abbrev Holds : World H → Type 0
  Holds w = Q w.poi.inference_results w.poi.current_epoch

  submit-Keeps : (o : Origin) (r c : ℕ) → Keeps Holds (submit_inference cfg pos dcf o r c)
  unfolding submit_inference store_result
  submit-Keeps root r c w h = h
  submit-Keeps unsigned r c w h = h
  submit-Keeps (signed who) r c w h =
      ground (arith, h, stays who r w.poi.current_epoch w.poi.inference_results h)

  challenge-Keeps : (o : Origin) (a r : ℕ) → Keeps Holds (challenge_inference cfg pos dcf o a r)
  unfolding challenge_inference
  challenge-Keeps root a r w h = h
  challenge-Keeps unsigned a r w h = h
  challenge-Keeps (signed who) a r w h = ground (arith, h)

  simulate-Keeps :
      (host : Host) (o : Origin) (a : ℕ) → Keeps Holds (simulate_inference cfg pos dcf host o a)
  unfolding simulate_inference record_inference_activity
  simulate-Keeps host root a w h = h
  simulate-Keeps host unsigned a w h = h
  simulate-Keeps host (signed who) a w h = ground (arith, h)

  apply-Keeps : (block v : ℕ) → Keeps Holds (apply_score cfg pos dcf block v)
  unfolding apply_score store_result
  apply-Keeps block v w h = elim (Option-cases (get_offchain_poi_score v block w.offchain)) [
    | inl e ↦ ground (arith, h, e)
    | inr (found, e) ↦ elim (Option-cases found) [
      | inl e' ↦ ground (arith, h, e, e')
      | inr (score, e') ↦
          ground (
            arith,
            h,
            e,
            e',
            stays v (score % 2 ^ 32) w.poi.current_epoch w.poi.inference_results h,
          )
    ]
  ]

  apply_all-Keeps : (block : ℕ) (vs : List ℕ) → Keeps Holds (apply_scores cfg pos dcf block vs)
  unfolding apply_scores
  apply_all-Keeps block [] w h = h
  apply_all-Keeps block (v ∷ vs) w h =
      >>=-Keeps Holds (apply_score cfg pos dcf block v) (λ _. apply_scores cfg pos dcf block vs)
        (apply-Keeps block v) (λ _. apply_all-Keeps block vs) w h

  apply_offchain-Keeps :
      (o : Origin) (block : ℕ) → Keeps Holds (apply_offchain_poi_scores cfg pos dcf o block)
  unfolding apply_offchain_poi_scores
  apply_offchain-Keeps root block w h = h
  apply_offchain-Keeps unsigned block w h = h
  apply_offchain-Keeps (signed who) block w h =
      let vs = pos.get_active_validators w.others in
      ground
        (arith, h, apply_all-Keeps block (take (min cfg.max_loop_iterations (length vs)) vs) w h)

  update-Keeps :
      (o : Origin) (v : ℕ) → Keeps Holds (update_validator_inference_score cfg pos dcf o v)
  unfolding update_validator_inference_score
  update-Keeps root v w h = h
  update-Keeps unsigned v w h = h
  update-Keeps (signed who) v w h = ground (arith, h)

  valid-Keeps : (v c : ℕ) → Keeps Holds (handle_valid_inference cfg pos dcf v c)
  unfolding handle_valid_inference record_inference_activity
  valid-Keeps v c w h = ground (arith, h)

  invalid-Keeps :
      (v : ℕ) (s : InferenceErrorSeverity) → Keeps Holds (handle_invalid_inference cfg pos dcf v s)
  unfolding handle_invalid_inference
  invalid-Keeps v s w h = ground (arith, h)

  worker-Keeps :
      (host : Host) (block : ℕ) (w : World H)
      → Holds w
      → Holds (offchain_worker cfg host pos block w)
  unfolding offchain_worker run_offchain_computation
  worker-Keeps host block w h = ground (arith, h)

-- The calls, the functions for other pallets, and the worker; `elsewhere` is anything that the
-- other pallets do with their state.
pub data Call (H : Type 0) : Type 0 where
  submits challenges : Origin → ℕ → ℕ → Call H
  simulates : Host → Origin → ℕ → Call H
  applies updates : Origin → ℕ → Call H
  handles_valid : ℕ → ℕ → Call H
  handles_invalid : ℕ → InferenceErrorSeverity → Call H
  works : Host → ℕ → Call H
  elsewhere : (H → H) → Call H

module _ {H : Type 0} (cfg : Config) (pos : PosInterface H) (dcf : DcfInterface H) where
  run : Call H → World H → World H
  run (submits o r c) w = (submit_inference cfg pos dcf o r c w).1
  run (challenges o a r) w = (challenge_inference cfg pos dcf o a r w).1
  run (simulates host o a) w = (simulate_inference cfg pos dcf host o a w).1
  run (applies o block) w = (apply_offchain_poi_scores cfg pos dcf o block w).1
  run (updates o v) w = (update_validator_inference_score cfg pos dcf o v w).1
  run (handles_valid v c) w = (handle_valid_inference cfg pos dcf v c w).1
  run (handles_invalid v s) w = (handle_invalid_inference cfg pos dcf v s w).1
  run (works host block) w = offchain_worker cfg host pos block w
  run (elsewhere f) w = record w { others = f w.others }

  unfoldable pub run_calls : List (Call H) → World H → World H
  unfolding run
  run_calls [] w = w
  run_calls (c ∷ cs) w = run_calls cs (run c w)

  module _ (Q : Map (ℕ × ℕ) → ℕ → Type 0)
      (stays : (who r e : ℕ) (m : Map (ℕ × ℕ)) → Q m e → Q (insert who (r, e) m) e) where
    run-Holds :
        (c : Call H) (w : World H)
        → Q w.poi.inference_results w.poi.current_epoch
        → Q (run c w).poi.inference_results (run c w).poi.current_epoch
    unfolding run
    run-Holds (submits o r c) w h = submit-Keeps cfg pos dcf Q stays o r c w h
    run-Holds (challenges o a r) w h = challenge-Keeps cfg pos dcf Q stays o a r w h
    run-Holds (simulates host o a) w h = simulate-Keeps cfg pos dcf Q stays host o a w h
    run-Holds (applies o block) w h = apply_offchain-Keeps cfg pos dcf Q stays o block w h
    run-Holds (updates o v) w h = update-Keeps cfg pos dcf Q stays o v w h
    run-Holds (handles_valid v c) w h = valid-Keeps cfg pos dcf Q stays v c w h
    run-Holds (handles_invalid v s) w h = invalid-Keeps cfg pos dcf Q stays v s w h
    run-Holds (works host block) w h = worker-Keeps cfg pos dcf Q stays host block w h
    run-Holds (elsewhere f) w h = h

    pub run_calls-Holds :
        (cs : List (Call H)) (w : World H)
        → Q w.poi.inference_results w.poi.current_epoch
        → Q (run_calls cs w).poi.inference_results (run_calls cs w).poi.current_epoch
    unfolding run_calls
    run_calls-Holds [] w h = h
    run_calls-Holds (c ∷ cs) w h = run_calls-Holds cs (run c w) (run-Holds c w h)

  has_key-insert :
      (a who : ℕ) (v : ℕ × ℕ) (m : Map (ℕ × ℕ))
      → has_key a m ≡ true
      → has_key a (insert who v m) ≡ true
  has_key-insert a who v m k = ground (arith, k, lookup-insert who a v m)

  submit_stores :
      (who result confidence : ℕ) (w : World H)
      → (submit_inference cfg pos dcf (signed who) result confidence w).0 ≡ ok tt
      → has_key who
          (submit_inference cfg pos dcf (signed who) result confidence w).1.poi.inference_results
        ≡ true
  unfolding submit_inference store_result
  submit_stores who result confidence w done =
      ground
        (arith, done, lookup-insert who who (result, w.poi.current_epoch) w.poi.inference_results)

  submit_refused :
      (who result confidence : ℕ) (w : World H)
      → has_key who w.poi.inference_results ≡ true
      → (submit_inference cfg pos dcf (signed who) result confidence w).0
        ≡ err (poi_error inference_already_submitted)
  unfolding submit_inference
  submit_refused who result confidence w present = ground (arith, present)

  -- A validator submits one inference at most: once a submission is accepted, whatever happens
  -- afterwards, each further one of the same account is refused, since no result is ever removed.
  pub submit-run_calls :
      (who result confidence : ℕ) (w : World H)
      → (submit_inference cfg pos dcf (signed who) result confidence w).0 ≡ ok tt
      → (cs : List (Call H)) (result' confidence' : ℕ)
      → (submit_inference cfg pos dcf
          (signed who)
          result'
          confidence'
          (run_calls cs (submit_inference cfg pos dcf (signed who) result confidence w).1)).0
        ≡ err (poi_error inference_already_submitted)
  submit-run_calls who result confidence w done cs result' confidence' =
      let w' = (submit_inference cfg pos dcf (signed who) result confidence w).1 in
      submit_refused who result' confidence' (run_calls cs w') (
        run_calls-Holds (λ m _. has_key who m ≡ true) (λ a r e m. has_key-insert who a (r, e) m) cs
          w' (submit_stores who result confidence w done))
