-- ===== src/Pos/Registry/Reach.antt =====
-- The calls of pallet-cerulea-pos on its own storage, in any order.
use mathlib.Core.Path.{subst⁻¹}
use cerulea.Common.{
  ℕ, ◌<◌, ◌≡◌, true, false, ◌⊎◌, inl, inr, length, has_key, insert, erase, arith, ⊤, List, [], ◌∷◌,
}
use cerulea.Frame.Action.{root, signed, unsigned, Origin, Keeps, Action}
use cerulea.Pos.State.{Config, Pos}
use cerulea.Pos.Registry.{
  next_count, remove_slashed, register_validator, submit_score, slash_validator_call, bond_stake,
  unbond_stake, boost_score, slash_score, slash_validator_stake, reward_validator,
  activate_validator, deactivate_validator,
}
use cerulea.Pos.Registry.Bounds.{
  Items, items, BoundedItems, IsBounded, insert-Bounded, new-Bounded, drop-Bounded, count-Bounded,
  erase-insert-Bounded,
}

module _ (cfg : Config) where
  items-register :
      (who : ℕ) (p : Pos)
      → let p' = (register_validator cfg (signed who) p).1 in
        (items p' ≡ items p)
        ⊎ ((length p.validators < cfg.max_validators)
            × (items p' ≡ (insert who true p.validators, p.slashing_count)))
  unfolding register_validator
  items-register who p = ground arith

  items-submit : (o : Origin) (v s : ℕ) (p : Pos) → items (submit_score cfg o v s p).1 ≡ items p
  unfolding submit_score
  items-submit o v s p = ground arith

  items-slash :
      (o : Origin) (v : ℕ) (p : Pos)
      → let p' = (slash_validator_call cfg o v p).1 in
        (items p' ≡ items p)
        ⊎ (items p' ≡ (erase v p.validators, erase v p.slashing_count))
        ⊎ ((next_count v p < cfg.max_slashing_count)
            × (items p' ≡ (p.validators, insert v (next_count v p) p.slashing_count)))
  unfolding slash_validator_call remove_slashed
  items-slash o v p = ground arith

  items-slash_stake :
      (v a : ℕ) (p : Pos)
      → let p' = (slash_validator_stake cfg v a p).1 in
        (items p' ≡ items p)
        ⊎ (items p' ≡ (erase v p.validators, erase v (insert v (next_count v p) p.slashing_count)))
        ⊎ ((next_count v p < cfg.max_slashing_count)
            × (items p' ≡ (p.validators, insert v (next_count v p) p.slashing_count)))
  unfolding slash_validator_stake remove_slashed
  items-slash_stake v a p = ground arith

  items-bond : (o : Origin) (a : ℕ) (p : Pos) → items (bond_stake cfg o a p).1 ≡ items p
  unfolding bond_stake
  items-bond o a p = ground arith

  items-unbond : (o : Origin) (a : ℕ) (p : Pos) → items (unbond_stake cfg o a p).1 ≡ items p
  unfolding unbond_stake
  items-unbond o a p = ground arith

items-boost : (o : Origin) (v a : ℕ) (p : Pos) → items (boost_score o v a p).1 ≡ items p
unfolding boost_score
items-boost o v a p = ground arith

items-slash_score : (o : Origin) (v a : ℕ) (p : Pos) → items (slash_score o v a p).1 ≡ items p
unfolding slash_score
items-slash_score o v a p = ground arith

items-reward : (v a : ℕ) (p : Pos) → items (reward_validator v a p).1 ≡ items p
unfolding reward_validator
items-reward v a p = ground arith

items-activate :
    (v : ℕ) (p : Pos)
    → let p' = (activate_validator v p).1 in
      (items p' ≡ items p)
      ⊎ ((has_key v p.validators ≡ true)
          × (items p' ≡ (insert v true p.validators, p.slashing_count)))
unfolding activate_validator
items-activate v p = ground arith

items-deactivate :
    (v : ℕ) (p : Pos)
    → let p' = (deactivate_validator v p).1 in
      (items p' ≡ items p)
      ⊎ ((has_key v p.validators ≡ true)
          × (items p' ≡ (insert v false p.validators, p.slashing_count)))
unfolding deactivate_validator
items-deactivate v p = ground arith

pub data Call : Type 0 where
  registers : Origin → Call
  submits boosts slashes_score : Origin → ℕ → ℕ → Call
  slashes : Origin → ℕ → Call
  bonds unbonds : Origin → ℕ → Call
  slashes_stake rewards : ℕ → ℕ → Call
  activates deactivates : ℕ → Call

pub run : Config → Call → Action Pos ⊤
run cfg (registers o) = register_validator cfg o
run cfg (submits o v s) = submit_score cfg o v s
run cfg (boosts o v weight) = boost_score o v weight
run cfg (slashes_score o v weight) = slash_score o v weight
run cfg (slashes o v) = slash_validator_call cfg o v
run cfg (bonds o amount) = bond_stake cfg o amount
run cfg (unbonds o amount) = unbond_stake cfg o amount
run cfg (slashes_stake v amount) = slash_validator_stake cfg v amount
run cfg (rewards v amount) = reward_validator v amount
run cfg (activates v) = activate_validator v
run cfg (deactivates v) = deactivate_validator v

module _ (cfg : Config) (pos : 0 < cfg.max_slashing_count) where
  carry : (p : Pos) {t : Items} → items p ≡ t → BoundedItems cfg t → IsBounded cfg p
  carry p e h = subst⁻¹ (BoundedItems cfg) e h

  run-IsBounded : (c : Call) → Keeps (IsBounded cfg) (run cfg c)
  unfolding run register_validator
  run-IsBounded (registers root) p h = h
  run-IsBounded (registers unsigned) p h = h
  run-IsBounded (registers (signed who)) p h = elim (items-register cfg who p) [
    | inl e ↦ carry (register_validator cfg (signed who) p).1 e h
    | inr (room, e) ↦
        carry (register_validator cfg (signed who) p).1 e (new-Bounded who true room h)
  ]
  run-IsBounded (submits o v s) p h =
      carry (submit_score cfg o v s p).1 (items-submit cfg o v s p) h
  run-IsBounded (boosts o v weight) p h =
      carry (boost_score o v weight p).1 (items-boost o v weight p) h
  run-IsBounded (slashes_score o v weight) p h =
      carry (slash_score o v weight p).1 (items-slash_score o v weight p) h
  run-IsBounded (slashes o v) p h = elim (items-slash cfg o v p) [
    | inl e ↦ carry (slash_validator_call cfg o v p).1 e h
    | inr (inl e) ↦ carry (slash_validator_call cfg o v p).1 e (drop-Bounded v pos h)
    | inr (inr (low, e)) ↦
        carry (slash_validator_call cfg o v p).1 e (count-Bounded v (next_count v p) low h)
  ]
  run-IsBounded (bonds o amount) p h =
      carry (bond_stake cfg o amount p).1 (items-bond cfg o amount p) h
  run-IsBounded (unbonds o amount) p h =
      carry (unbond_stake cfg o amount p).1 (items-unbond cfg o amount p) h
  run-IsBounded (slashes_stake v amount) p h = elim (items-slash_stake cfg v amount p) [
    | inl e ↦ carry (slash_validator_stake cfg v amount p).1 e h
    | inr (inl e) ↦
        carry (slash_validator_stake cfg v amount p).1 e
          (erase-insert-Bounded v (next_count v p) pos h)
    | inr (inr (low, e)) ↦
        carry (slash_validator_stake cfg v amount p).1 e (count-Bounded v (next_count v p) low h)
  ]
  run-IsBounded (rewards v amount) p h =
      carry (reward_validator v amount p).1 (items-reward v amount p) h
  run-IsBounded (activates v) p h = elim (items-activate v p) [
    | inl e ↦ carry (activate_validator v p).1 e h
    | inr (known, e) ↦ carry (activate_validator v p).1 e (insert-Bounded v true known h)
  ]
  run-IsBounded (deactivates v) p h = elim (items-deactivate v p) [
    | inl e ↦ carry (deactivate_validator v p).1 e h
    | inr (known, e) ↦ carry (deactivate_validator v p).1 e (insert-Bounded v false known h)
  ]

pub run_all : Config → List Call → Pos → Pos
run_all cfg [] p = p
run_all cfg (c ∷ cs) p = run_all cfg cs (run cfg c p).1

-- Any sequence of these calls, by anyone and whether they fail or not, keeps the number of
-- validators within the bound and every slashing count below the one that removes a validator. The
-- latter must be positive.
pub run_all-IsBounded :
    (cfg : Config)
    → 0 < cfg.max_slashing_count
    → (cs : List Call) (p : Pos) → IsBounded cfg p
    → IsBounded cfg (run_all cfg cs p)
unfolding run_all
run_all-IsBounded cfg pos [] p h = h
run_all-IsBounded cfg pos (c ∷ cs) p h =
    run_all-IsBounded cfg pos cs (run cfg c p).1 (run-IsBounded cfg pos c p h)
