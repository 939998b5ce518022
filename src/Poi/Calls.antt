-- ===== src/Poi/Calls.antt =====
-- The calls of pallet-cerulea-poi, and the two functions that reward and punish an inference. The
-- interfaces to the other pallets are those that the runtime sets.
pub mod Reach
pub mod Genesis
use cerulea.Common.{
  ℕ, ◌+◌, ◌-◌, ◌*◌, ◌%◌, ◌^◌, min, ⊤, Bool, true, false, not, List, [], ◌∷◌, Option, none, some,
  if◌then◌else◌, ltb, leb, ◌==◌, lookup, has_key, get, insert, length, contains, take,
  saturating_add, u64_max,
}
use cerulea.Frame.Errors.{
  poi_error, inference_already_submitted, inference_not_found, invalid_challenge,
  confidence_too_low, challenge_window_expired, inference_too_old, weight_limit_exceeded,
  validator_not_found,
}
use cerulea.Frame.Action.{
  ok, err, Action, pure, ◌>>=◌, ◌>>◌, gets, modify, ensure, ok_or, ignore, Origin, ensure_signed,
}
use cerulea.Poi.State.{
  Config, PosInterface, DcfInterface, InferenceErrorSeverity, high, medium, low, Poi, World,
  modify_poi, deposit_event, on_others, inference_submitted, inference_accepted, inference_rejected,
  inference_challenged, validator_slashed, poi_score_updated, validator_poi_score_updated,
}
use cerulea.Poi.Offchain.{Host, get_offchain_poi_score, simulate_inference_computation}

-- `if let Err(e) = call { log } else { then }`: a failure is only logged.
abbrev and_if_ok : {S : Type 0} → Action S ⊤ → Action S ⊤ → Action S ⊤
and_if_ok m k s = let (r, s') = m s in elim r [ ok a ↦ k s' | err e ↦ (ok tt, s') ]

-- Genesis: the given results and challenges, all of the given epoch.
pub record GenesisConfig : Type 0 where
  pub inference_results : List (ℕ × ℕ)
  pub challenges : List (ℕ × ℕ × ℕ)
  pub current_epoch : ℕ

pub build_results : ℕ → List (ℕ × ℕ) → Poi → Poi
build_results epoch [] p = p
build_results epoch ((account, result) ∷ rs) p =
    build_results epoch rs
      (record p { inference_results = insert account (result, epoch) p.inference_results })

pub build_challenges : ℕ → List (ℕ × ℕ × ℕ) → Poi → Poi
build_challenges epoch [] p = p
build_challenges epoch ((challenger, challenged, result) ∷ cs) p =
    build_challenges epoch cs
      (record p { challenges = insert challenger (challenged, result, epoch) p.challenges })

abbrev pub empty_storage : Poi
empty_storage = record {
  inference_results = [];
  challenges = [];
  current_epoch = 0;
  validator_inference_count = [];
  events = [];
}

unfoldable pub build : GenesisConfig → Poi
unfolding build_results build_challenges
build g =
    record (build_challenges g.current_epoch g.challenges
      (build_results g.current_epoch g.inference_results empty_storage)) {
        current_epoch = g.current_epoch;
      }

pub store_result : ℕ → ℕ → Poi → Poi
store_result who result p = record p {
  inference_results = insert who (result, p.current_epoch) p.inference_results;
}

-- The bytes of b"Invalid inference".
abbrev invalid_inference : List ℕ
invalid_inference =
    73 ∷ 110 ∷ 118 ∷ 97 ∷ 108 ∷ 105 ∷ 100 ∷ 32 ∷ 105 ∷ 110 ∷ 102 ∷ 101 ∷ 114 ∷ 101 ∷ 110 ∷ 99 ∷ 101
    ∷ []

-- The difference of two u32 numbers wraps.
pub age : ℕ → ℕ → ℕ
age current_epoch epoch = (current_epoch + (2 ^ 32 - epoch)) % 2 ^ 32

module _ {H : Type 0} (cfg : Config) (pos : PosInterface H) (dcf : DcfInterface H) where
  unfoldable pub submit_inference : Origin → ℕ → ℕ → Action (World H) ⊤
  unfolding store_result
  submit_inference origin result confidence = do
    who ← ensure_signed origin
    present ← gets (λ w. has_key who w.poi.inference_results)
    ensure (not present) (poi_error inference_already_submitted)
    ensure (leb cfg.min_inference_confidence confidence) (poi_error confidence_too_low)
    current_epoch ← gets (λ w. w.poi.current_epoch)
    old ← gets (λ w. get (0, 0) who w.poi.inference_results)
    modify_poi (store_result who result)
    deposit_event (poi_score_updated who old.0 result current_epoch)
    deposit_event (inference_submitted who result confidence)
    and_if_ok
        (on_others (
          pos.boost_score who
            (if leb 90 confidence then 10 else if leb 70 confidence then 5 else 2)))
        (deposit_event (inference_accepted who confidence))
    ignore (on_others (dcf.record_inference_activity who))

  unfoldable pub challenge_inference : Origin → ℕ → ℕ → Action (World H) ⊤
  unfolding age
  challenge_inference origin challenged result = do
    challenger ← ensure_signed origin
    found ← gets (λ w. lookup challenged w.poi.inference_results)
    stored ← ok_or found (poi_error inference_not_found)
    current_epoch ← gets (λ w. w.poi.current_epoch)
    ensure (leb (age current_epoch stored.1) cfg.max_inference_age) (poi_error inference_too_old)
    ensure (leb (age current_epoch stored.1) cfg.challenge_window)
        (poi_error challenge_window_expired)
    ensure (stored.0 == result) (poi_error invalid_challenge)
    modify_poi (λ p. record p {
      challenges = insert challenger (challenged, result, current_epoch) p.challenges;
    })
    deposit_event (inference_challenged challenger challenged result)
    and_if_ok (on_others (pos.slash_score challenged 7)) (do
      deposit_event (inference_rejected challenged 0)
      deposit_event (validator_slashed challenged invalid_inference))

  -- The outcome of the tracking in the coordination pallet is dropped.
  unfoldable pub record_inference_activity : ℕ → Action (World H) ⊤
  record_inference_activity validator = do
    modify_poi (λ p. record p {
      validator_inference_count =
          insert validator (saturating_add u64_max (get 0 validator p.validator_inference_count) 1)
            p.validator_inference_count;
    })
    ignore (on_others (dcf.record_inference_activity validator))

  pub simulate_inference : Host → Origin → ℕ → Action (World H) ⊤
  unfolding record_inference_activity
  simulate_inference host origin target_validator = do
    who ← ensure_signed origin
    active_validators ← gets (λ w. pos.get_active_validators w.others)
    ensure (contains active_validators target_validator) (poi_error validator_not_found)
    record_inference_activity target_validator
    current_epoch ← gets (λ w. w.poi.current_epoch)
    simulated ← gets (λ w. simulate_inference_computation cfg host target_validator current_epoch)
    deposit_event (inference_submitted target_validator simulated.0 simulated.1)

  -- One round of the loop: the score that is read, if it is within the bound. The host documents the
  -- local storage as open to off-chain workers only; read in a call it stops the call, which then
  -- changes nothing. The model reads it, so it has the runs of a host that allows it too.
  pub apply_score : ℕ → ℕ → Action (World H) ⊤
  unfolding store_result
  apply_score block validator = do
    found ← gets (λ w. get_offchain_poi_score validator block w.offchain)
    elim found [
      | none ↦ pure tt
      | some none ↦ pure tt
      | some (some poi_score) ↦
          if leb poi_score cfg.max_validator_score
          then (do
            modify_poi (store_result validator (poi_score % 2 ^ 32))
            ignore (on_others (dcf.update_final_score validator))
            deposit_event (validator_poi_score_updated validator poi_score))
          else pure tt
    ]

  pub apply_scores : ℕ → List ℕ → Action (World H) ⊤
  unfolding apply_score
  apply_scores block [] = pure tt
  apply_scores block (v ∷ vs) = apply_score block v >> apply_scores block vs

  unfoldable pub apply_offchain_poi_scores : Origin → ℕ → Action (World H) ⊤
  unfolding apply_scores
  apply_offchain_poi_scores origin block = do
    who ← ensure_signed origin
    validators ← gets (λ w. pos.get_active_validators w.others)
    ensure (leb (length validators * 50000) cfg.max_validator_iteration_weight)
        (poi_error weight_limit_exceeded)
    apply_scores block (take (min cfg.max_loop_iterations (length validators)) validators)

  pub update_validator_inference_score : Origin → ℕ → Action (World H) ⊤
  update_validator_inference_score origin validator = do
    who ← ensure_signed origin
    present ← gets (λ w. has_key validator w.poi.inference_results)
    if present then on_others (dcf.update_final_score validator) else pure tt

  unfoldable pub handle_valid_inference : ℕ → ℕ → Action (World H) ⊤
  unfolding record_inference_activity
  handle_valid_inference validator confidence = do
    record_inference_activity validator
    on_others (
        pos.boost_score validator (
          (if leb cfg.confidence_threshold_high confidence
            then cfg.inference_boost_high
            else if leb cfg.confidence_threshold_low confidence
            then cfg.inference_boost_medium
            else cfg.inference_boost_low)
          % 2 ^ 32))
    ignore (on_others (dcf.update_final_score validator))

  penalty : InferenceErrorSeverity → ℕ
  penalty high = cfg.inference_penalty_high
  penalty medium = cfg.inference_penalty_medium
  penalty low = cfg.inference_penalty_low

  unfoldable pub handle_invalid_inference : ℕ → InferenceErrorSeverity → Action (World H) ⊤
  unfolding penalty
  handle_invalid_inference validator severity = do
    on_others (pos.slash_score validator (penalty severity % 2 ^ 32))
    ignore (on_others (dcf.update_final_score validator))
