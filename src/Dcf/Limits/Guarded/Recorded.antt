-- ===== src/Dcf/Limits/Guarded/Recorded.antt =====
-- Recording an operation that check_rate_limits allows keeps the limits.
use mathlib.Core.Path.{subst, subst⁻¹}
use cerulea.Common.{
  ℕ, ◌≤◌, ◌≡◌, refl, ap, Bool, true, false, ◌&&◌, if◌then◌else◌, ◌==◌, List, ◌∷◌, Option, none,
  some, lookup-insert, arith, Bool-cases, inl, inr, saturating_add, u32_max,
}
use cerulea.Dcf.Limits.Config.{
  RateLimitConfig, DispatchableType, get_per_block_limit, get_per_account_limit,
  get_minimum_interval,
}
use cerulea.Dcf.Limits.{
  RateLimits, code, block_count, history, last_block, current_block, check_rate_limits,
  check_minimum_intervals, operations_in_window, record_operation, update_history,
}
use cerulea.Dcf.Limits.Window.{accept-Tracks}
use cerulea.Dcf.Limits.Guarded.{
  Entry, blocks, done, Within, Limited, allowed-parts, now-IsSpaced, code-injective, IsSmall,
  history-record_operation, last_block-record_operation,
}

choose-Within :
    {config : RateLimitConfig} {now : ℕ} {op : DispatchableType} (b : Bool) {hist hist' : List ℕ}
    {last last' : Option ℕ} {log log' : List ℕ}
    → (b ≡ true → Within config now op hist last log)
    → Within config now op hist' last' log'
    → Within config now op
        (if b then hist else hist')
        (if b then last else last')
        (if b then log else log')
choose-Within true h k = h refl
choose-Within false h k = k

module _ (s : RateLimits) (log : List Entry) (today : List ℕ) (who : ℕ) (op : DispatchableType)
    (weight : ℕ) (small : IsSmall s.rate_limit_config) (l : Limited (s, log, today))
    (allowed : check_rate_limits who op weight s ≡ none) where
  -- The account and the operation that were recorded.
  own-Within :
      Within s.rate_limit_config
        (current_block s)
        op
        (update_history
          (get_per_account_limit op s.rate_limit_config).1
          (current_block s)
          (history who op s))
        (some (current_block s))
        (current_block s ∷ blocks who op log)
  unfolding IsSmall operations_in_window check_minimum_intervals
  own-Within =
      let w = l.within who op in
      let parts = allowed-parts who op weight s allowed in
      record {
        tracks = accept-Tracks (small op).1 w.tracks parts.1;
        latest = refl;
        spaced =
            now-IsSpaced (get_minimum_interval op s.rate_limit_config) (current_block s)
              (last_block who op s) (blocks who op log) w.latest w.spaced
              (λ b e. ground (arith, e, parts.2));
      }

  -- The same, for an account and an operation that are equal to them.
  moved-Within :
      (other : ℕ) (op' : DispatchableType)
      → (who == other && code op == code op') ≡ true
      → Within s.rate_limit_config
          (current_block s)
          op'
          (update_history
            (get_per_account_limit op s.rate_limit_config).1
            (current_block s)
            (history who op s))
          (some (current_block s))
          (current_block s ∷ blocks other op' log)
  moved-Within other op' h =
      let hist =
        update_history (get_per_account_limit op s.rate_limit_config).1 (current_block s)
          (history who op s) in
      let same_who : who ≡ other = ground (arith, h) in
      let same_op : op ≡ op' = code-injective op op' (ground (arith, h)) in
      subst
        (λ o.
          Within s.rate_limit_config (current_block s) o hist (some (current_block s))
            (current_block s ∷ blocks other o log))
        same_op
        (subst
          (λ w.
            Within s.rate_limit_config (current_block s) op hist (some (current_block s))
              (current_block s ∷ blocks w op log))
          same_who own-Within)

  recorded-Within :
      (other : ℕ) (op' : DispatchableType)
      → Within s.rate_limit_config
          (current_block s)
          op'
          (history other op' (record_operation who op s))
          (last_block other op' (record_operation who op s))
          (blocks other op' ((who, code op, current_block s) ∷ log))
  recorded-Within other op' =
      let b = who == other && code op == code op' in
      let es = blocks other op' ((who, code op, current_block s) ∷ log) in
      subst⁻¹
        (λ hist.
          Within s.rate_limit_config (current_block s) op' hist
            (last_block other op' (record_operation who op s)) es)
        (history-record_operation s who other op op')
        (subst⁻¹
          (λ last.
            Within s.rate_limit_config (current_block s) op'
              (if b
                then update_history (get_per_account_limit op s.rate_limit_config).1
                    (current_block s) (history who op s)
                else history other op' s)
              last es)
          (last_block-record_operation s who other op op')
          (choose-Within b (moved-Within other op') (l.within other op')))

  recorded-counted :
      (op' : DispatchableType)
      → (block_count op' (record_operation who op s) ≡ done op' (code op ∷ today))
        × (done op' (code op ∷ today) ≤ get_per_block_limit op' s.rate_limit_config)
  unfolding record_operation IsSmall
  recorded-counted op' =
      let parts = allowed-parts who op weight s allowed in
      let count = saturating_add u32_max (block_count op s) 1 in
      let written = lookup-insert (code op) (code op') count s.block_operation_counts in
      let known = l.counted op' in
      elim (Bool-cases (code op == code op')) [
        | inl h ↦
            let e = code-injective op op' (ground (arith, h)) in
            let counts : block_count op s ≡ block_count op' s = ap (λ o. block_count o s) e in
            let limits = ap (λ o. get_per_block_limit o s.rate_limit_config) e in
            (
              ground (arith, h, written, counts, known, parts.0, (small op).0),
              ground (arith, h, counts, limits, known, parts.0),
            )
        | inr h ↦ (ground (arith, h, written, known), ground (arith, h, l.few op'))
      ]

  pub recorded-Limited :
      Limited (record_operation who op s, (who, code op, current_block s) ∷ log, code op ∷ today)
  unfolding record_operation
  recorded-Limited = record {
    within = recorded-Within;
    counted = λ op'. (recorded-counted op').0;
    few = λ op'. (recorded-counted op').1;
  }
