-- ===== src/Poi/Calls/Genesis.antt =====
-- What the epoch of pallet-cerulea-poi is after genesis: no call changes it, so a result is always
-- of the current epoch.
use cerulea.Common.{
  ℕ, ◌*◌, ◌/◌, ◌^◌, ◌<◌, min, ◌≡◌, ◌≢◌, List, [], ◌∷◌, some, lookup, insert, Map, arith,
  lookup-insert, inl, inr, Option-cases,
}
use cerulea.Frame.Errors.{poi_error, inference_too_old, challenge_window_expired}
use cerulea.Frame.Action.{err, Origin, root, signed, unsigned}
use cerulea.Poi.State.{Config, PosInterface, DcfInterface, Poi, World, Entry}
use cerulea.Poi.Offchain.{Host, collect_inference_data, compute_poi_score}
use cerulea.Poi.Calls.{
  GenesisConfig, build, build_results, build_challenges, empty_storage, age, challenge_inference,
}
use cerulea.Poi.Calls.Reach.{Call, run_calls, run_calls-Holds}

-- Every result is of the epoch, which is a u32.
abbrev pub IsCurrent : Map (ℕ × ℕ) → ℕ → Type 0
IsCurrent m e = (e < 2 ^ 32) × ((a : ℕ) (x : ℕ × ℕ) → lookup a m ≡ some x → x.1 ≡ e)

insert-IsCurrent :
    (who r e : ℕ) (m : Map (ℕ × ℕ)) → IsCurrent m e → IsCurrent (insert who (r, e) m) e
insert-IsCurrent who r e m h =
    (h.0, λ a x k. ground (arith, k, h.1 a x, lookup-insert who a (r, e) m))

build_results-IsCurrent :
    (e : ℕ) (rs : List (ℕ × ℕ)) (p : Poi)
    → IsCurrent p.inference_results e
    → IsCurrent (build_results e rs p).inference_results e
unfolding build_results
build_results-IsCurrent e [] p h = h
build_results-IsCurrent e ((a, r) ∷ rs) p h =
    build_results-IsCurrent e rs
      (record p { inference_results = insert a (r, e) p.inference_results })
      (insert-IsCurrent a r e p.inference_results h)

build_challenges-IsCurrent :
    (e : ℕ) (cs : List (ℕ × ℕ × ℕ)) (p : Poi)
    → IsCurrent p.inference_results e
    → IsCurrent (build_challenges e cs p).inference_results e
unfolding build_challenges
build_challenges-IsCurrent e [] p h = h
build_challenges-IsCurrent e ((a, b, r) ∷ cs) p h =
    build_challenges-IsCurrent e cs (record p { challenges = insert a (b, r, e) p.challenges }) h

build-IsCurrent :
    (g : GenesisConfig)
    → g.current_epoch < 2 ^ 32
    → IsCurrent (build g).inference_results (build g).current_epoch
unfolding build
build-IsCurrent g word =
    build_challenges-IsCurrent g.current_epoch g.challenges
      (build_results g.current_epoch g.inference_results empty_storage)
      (build_results-IsCurrent g.current_epoch g.inference_results empty_storage
        (word, λ a x k. ground (arith, k)))

age_same : (e x : ℕ) → e < 2 ^ 32 → x ≡ e → age e x ≡ 0
unfolding age
age_same e x h k = omega (arith, h, k)

-- The storage at genesis, with any state of the other pallets and of the off-chain storage.
abbrev pub genesis : {H : Type 0} → GenesisConfig → H → Map (Map Entry) → World H
genesis g h m = record { poi = build g; others = h; offchain = m }

module _ {H : Type 0} (cfg : Config) (pos : PosInterface H) (dcf : DcfInterface H) where
  fresh_accepted :
      (o : Origin) (a r : ℕ) (w : World H)
      → IsCurrent w.poi.inference_results w.poi.current_epoch
      → ((challenge_inference cfg pos dcf o a r w).0 ≢ err (poi_error inference_too_old))
        × ((challenge_inference cfg pos dcf o a r w).0 ≢ err (poi_error challenge_window_expired))
  unfolding challenge_inference
  fresh_accepted root a r w h = (λ k. ground (arith, k), λ k. ground (arith, k))
  fresh_accepted unsigned a r w h = (λ k. ground (arith, k), λ k. ground (arith, k))
  fresh_accepted (signed who) a r w h = elim (Option-cases (lookup a w.poi.inference_results)) [
    | inl e ↦ (λ k. ground (arith, k, e), λ k. ground (arith, k, e))
    | inr (x, e) ↦
        let aged = age_same w.poi.current_epoch x.1 h.0 (h.1 a x e) in
        (λ k. ground (arith, k, e, aged), λ k. ground (arith, k, e, aged))
  ]

  computed :
      (host : Host) (v : ℕ) (x : ℕ × ℕ) (p : Poi) (e : ℕ)
      → lookup v p.inference_results ≡ some x
      → x.1 ≡ e
      → compute_poi_score cfg (collect_inference_data cfg host v p.current_epoch p)
        ≡ min (x.0 * e / cfg.percentage_precision) cfg.max_validator_score
  unfolding compute_poi_score collect_inference_data
  computed host v x p e k s = ground (arith, k, s)

  module _ (g : GenesisConfig) (word : g.current_epoch < 2 ^ 32) where
    run_calls-IsCurrent :
        (cs : List (Call H)) (others : H) (offchain : Map (Map Entry))
        → let p = (run_calls cfg pos dcf cs (genesis g others offchain)).poi in
          IsCurrent p.inference_results p.current_epoch
    run_calls-IsCurrent cs others offchain =
        run_calls-Holds cfg pos dcf IsCurrent insert-IsCurrent cs (genesis g others offchain)
          (build-IsCurrent g word)

    -- Whatever is called after genesis, in any order, a challenge is never refused because the
    -- inference is too old or the window has expired: no call changes the epoch, so every result
    -- is of the current one. The epoch of genesis must be a u32.
    pub challenge-run_calls :
        (cs : List (Call H)) (others : H) (offchain : Map (Map Entry)) (o : Origin) (a r : ℕ)
        → let w = run_calls cfg pos dcf cs (genesis g others offchain) in
          ((challenge_inference cfg pos dcf o a r w).0 ≢ err (poi_error inference_too_old))
          × ((challenge_inference cfg pos dcf o a r w).0 ≢ err (poi_error challenge_window_expired))
    challenge-run_calls cs others offchain o a r =
        fresh_accepted o a r (run_calls cfg pos dcf cs (genesis g others offchain))
          (run_calls-IsCurrent cs others offchain)

    -- After any calls since genesis, the score that the worker computes for a validator with a
    -- result is the result times the current epoch, over the precision, within the bound: the
    -- confidence of the submission does not count. The epoch of genesis must be a u32.
    pub compute_poi_score-run_calls :
        (cs : List (Call H)) (others : H) (offchain : Map (Map Entry)) (host : Host) (v : ℕ)
        (x : ℕ × ℕ)
        → let p = (run_calls cfg pos dcf cs (genesis g others offchain)).poi in
          lookup v p.inference_results ≡ some x
          → compute_poi_score cfg (collect_inference_data cfg host v p.current_epoch p)
            ≡ min (x.0 * p.current_epoch / cfg.percentage_precision) cfg.max_validator_score
    compute_poi_score-run_calls cs others offchain host v x k =
        let p = (run_calls cfg pos dcf cs (genesis g others offchain)).poi in
        computed host v x p p.current_epoch k ((run_calls-IsCurrent cs others offchain).1 v x k)
