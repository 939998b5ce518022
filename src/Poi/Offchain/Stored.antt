-- ===== src/Poi/Offchain/Stored.antt =====
-- What the off-chain worker of pallet-cerulea-poi leaves in the off-chain storage.
use cerulea.Common.{
  ℕ, ◌^◌, ◌-◌, ◌<◌, ◌≤◌, min, ◌≡◌, ◌∙◌, refl, ap, true, false, List, [], ◌∷◌, some, if◌then◌else◌,
  ◌==◌, Map, get, insert, arith, lookup-insert, contains, inl, inr, Bool-cases,
}
use cerulea.Poi.State.{Config, PosInterface, Poi, World, Entry, score_data}
use cerulea.Poi.Offchain.{
  Host, get_inference_score, put_entry, get_offchain_poi_score, verify_score,
  store_offchain_poi_score, collect_inference_data, compute_poi_score, compute_and_store,
  compute_all, run_offchain_computation,
}

entry : Host → ℕ → ℕ → ℕ → Entry
entry host u s b =
    score_data (record { validator = u; score = s; block_number = b; timestamp = host.unix_millis })

get-store :
    (host : Host) (v u s b : ℕ) (m : Map (Map Entry))
    → get_offchain_poi_score v b (store_offchain_poi_score host u s b m)
      ≡ (if u == v then some (some s) else get_offchain_poi_score v b m)
unfolding get_offchain_poi_score store_offchain_poi_score put_entry entry
get-store host v u s b m = ground (
  arith,
  lookup-insert u v (insert b (entry host u s b) (get [] u m)) m,
  lookup-insert b b (entry host u s b) (get [] u m),
)

-- The score that the worker computes for a validator.
unfoldable pub computed : Config → Host → Poi → ℕ → ℕ
computed cfg host p v = compute_poi_score cfg (collect_inference_data cfg host v p.current_epoch p)

pub computed-le :
    (cfg : Config) (host : Host) (p : Poi) (v : ℕ) → computed cfg host p v ≤ cfg.max_validator_score
unfolding computed compute_poi_score
computed-le cfg host p v = omega arith

module _ (cfg : Config) (host : Host) (b : ℕ) (p : Poi) where
  step :
      (v u : ℕ) (m : Map (Map Entry))
      → get_offchain_poi_score v b (compute_and_store cfg host b p u m) ≡ (
          if computed cfg host p u == get_inference_score u p
          then get_offchain_poi_score v b m
          else if u == v
          then some (some (computed cfg host p u))
          else get_offchain_poi_score v b m)
  unfolding compute_and_store computed
  step v u m = ground (arith, get-store host v u (computed cfg host p u) b m)

  pub stored-kept :
      (v : ℕ) (vs : List ℕ) (m : Map (Map Entry))
      → get_offchain_poi_score v b m ≡ some (some (computed cfg host p v))
      → get_offchain_poi_score v b (compute_all cfg host b p vs m)
        ≡ some (some (computed cfg host p v))
  unfolding compute_all
  stored-kept v [] m h = h
  stored-kept v (u ∷ vs) m h =
      stored-kept v vs (compute_and_store cfg host b p u m) (ground (arith, h, step v u m))

  pub compute_all-stored :
      (v : ℕ) (vs : List ℕ) (m : Map (Map Entry))
      → contains vs v ≡ true
      → (computed cfg host p v == get_inference_score v p) ≡ false
      → get_offchain_poi_score v b (compute_all cfg host b p vs m)
        ≡ some (some (computed cfg host p v))
  unfolding compute_all
  compute_all-stored v [] m c d = ground (arith, c)
  compute_all-stored v (u ∷ vs) m c d = elim (Bool-cases (u == v)) [
    | inl same ↦
        stored-kept v vs (compute_and_store cfg host b p u m) (ground (arith, d, same, step v u m))
    | inr other ↦
        compute_all-stored v vs (compute_and_store cfg host b p u m) (ground (arith, c, other)) d
  ]

  pub compute_all-skipped :
      (v : ℕ) (vs : List ℕ) (m : Map (Map Entry))
      → (computed cfg host p v == get_inference_score v p) ≡ true
      → get_offchain_poi_score v b (compute_all cfg host b p vs m) ≡ get_offchain_poi_score v b m
  unfolding compute_all
  compute_all-skipped v [] m d = refl
  compute_all-skipped v (u ∷ vs) m d =
      compute_all-skipped v vs (compute_and_store cfg host b p u m) d
      ∙ ground (arith, d, step v u m)

verified :
    (v x s b : ℕ) (m : Map (Map Entry))
    → get_offchain_poi_score v b m ≡ some (some x)
    → verify_score v s b m ≡ (x == s)
unfolding verify_score
verified v x s b m k = ground (arith, k)

-- What the worker stores is what verifies: after it has run for a block, exactly the computed score
-- of an active validator verifies for that block, if it differs from the score on the chain. The
-- block number must be a u32.
pub verify_score-run_offchain_computation :
    {H : Type 0} (cfg : Config) (host : Host) (pos : PosInterface H) (b : ℕ) (w : World H) (v : ℕ)
    → b < 2 ^ 32
    → contains (pos.get_active_validators w.others) v ≡ true
    → (computed cfg host w.poi v == get_inference_score v w.poi) ≡ false
    → (s : ℕ)
    → verify_score v s b (run_offchain_computation cfg host pos b w).offchain
      ≡ (computed cfg host w.poi v == s)
unfolding run_offchain_computation
verify_score-run_offchain_computation cfg host pos b w v block active differs s =
    let vs = pos.get_active_validators w.others in
    let saturated : min b (2 ^ 32 - 1) ≡ b = omega (arith, block) in
    ap (λ n. verify_score v s b (compute_all cfg host n w.poi vs w.offchain)) saturated
    ∙ verified v (computed cfg host w.poi v) s b (compute_all cfg host b w.poi vs w.offchain)
        (compute_all-stored cfg host b w.poi v vs w.offchain active differs)
