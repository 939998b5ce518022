-- ===== src/Dcf/Private/Allowed.antt =====
-- The allowlist over any sequence of the operations of the private chain mode.
use cerulea.Common.{
  ℕ, suc, ◌+◌, ◌≤◌, ◌<◌, ◌≡◌, ap, Bool, false, not, if◌then◌else◌, ltb, leb, List, [], ◌∷◌, Option,
  none, some, length, contains, remove_first, IsDistinct, arith, if-cases, ltb→lt,
  remove_first-IsDistinct, length-remove_first-le,
}
use mathlib.Core.Path.{subst⁻¹}
use cerulea.Common.Sort.{insert_sorted, length-insert_sorted, insert_sorted-IsDistinct}
use cerulea.Dcf.State.{Dcf, PrivateChainConfig}
use cerulea.Dcf.Private.{
  try_insert, fill, put_config, add_to_validator_allowlist, disable_private_chain_mode,
}

-- No account stands twice on the list, which is within its own bound and that of the set.
pub record IsAllowlist (max : ℕ) (xs : List ℕ) : Type 0 where
  pub distinct : IsDistinct xs
  pub within_set : length xs ≤ 100
  pub within_max : length xs ≤ max

abbrev pub IsValid : Option PrivateChainConfig → Type 0
IsValid none = Unit {0}
IsValid (some c) = IsAllowlist c.max_allowlist_size c.validator_allowlist

-- The list with an account, if there is room for it.
unfoldable pub grown : ℕ → List ℕ → List ℕ
grown a xs = if contains xs a then xs else if ltb (length xs) 100 then insert_sorted a xs else xs

grown-IsAllowlist :
    (a max : ℕ) (xs : List ℕ) → length xs < max → IsAllowlist max xs → IsAllowlist max (grown a xs)
unfolding grown
grown-IsAllowlist a max xs room v =
    if-cases (IsAllowlist max) (contains xs a) (λ e. v)
      (λ e.
        if-cases (IsAllowlist max) (ltb (length xs) 100)
          (λ l. record {
            distinct = insert_sorted-IsDistinct a xs v.distinct e;
            within_set = omega (arith, length-insert_sorted a xs, ltb→lt (length xs) 100 l);
            within_max = omega (arith, length-insert_sorted a xs, room);
          })
          (λ l. v))

-- What the operations make of the stored configuration.
unfoldable pub added : ℕ → Option PrivateChainConfig → Option PrivateChainConfig
added a none = none
added a (some c) =
    if not c.enabled
    then some c
    else if not c.allow_allowlist_updates
    then some c
    else if leb c.max_allowlist_size (length c.validator_allowlist)
    then some c
    else some (record c { validator_allowlist = grown a c.validator_allowlist })

pub add_to_validator_allowlist-config :
    (a : ℕ) (d : Dcf)
    → (add_to_validator_allowlist a d).1.private_chain_config ≡ added a d.private_chain_config
unfolding add_to_validator_allowlist added put_config try_insert grown
add_to_validator_allowlist-config a d = ground arith

pub added-IsValid : (a : ℕ) (o : Option PrivateChainConfig) → IsValid o → IsValid (added a o)
unfolding added
added-IsValid a none v = tt
added-IsValid a (some c) v =
    if-cases IsValid (not c.enabled) (λ e. v)
      (λ e.
        if-cases IsValid (not c.allow_allowlist_updates) (λ u. v)
          (λ u.
            if-cases IsValid (leb c.max_allowlist_size (length c.validator_allowlist)) (λ l. v)
              (λ l.
                grown-IsAllowlist a c.max_allowlist_size c.validator_allowlist (ground (arith, l))
                  v)))

unfoldable pub dropped : ℕ → Option PrivateChainConfig → Option PrivateChainConfig
dropped a none = none
dropped a (some c) =
    if not c.enabled
    then some c
    else if not c.allow_allowlist_updates
    then some c
    else if contains c.validator_allowlist a
    then some (record c { validator_allowlist = remove_first a c.validator_allowlist })
    else some c

pub dropped-IsValid : (a : ℕ) (o : Option PrivateChainConfig) → IsValid o → IsValid (dropped a o)
unfolding dropped
dropped-IsValid a none v = tt
dropped-IsValid a (some c) v =
    if-cases IsValid (not c.enabled) (λ e. v)
      (λ e.
        if-cases IsValid (not c.allow_allowlist_updates) (λ u. v)
          (λ u.
            if-cases IsValid (contains c.validator_allowlist a)
              (λ l. record {
                distinct = remove_first-IsDistinct a c.validator_allowlist v.distinct;
                within_set =
                    omega (arith, length-remove_first-le a c.validator_allowlist, v.within_set);
                within_max =
                    omega (arith, length-remove_first-le a c.validator_allowlist, v.within_max);
              })
              (λ l. v)))

unfoldable pub disabled : Option PrivateChainConfig → Option PrivateChainConfig
disabled none = none
disabled (some c) =
    if c.enabled then some (record c { enabled = false; validator_allowlist = [] }) else some c

pub disable_private_chain_mode-config :
    (d : Dcf)
    → (disable_private_chain_mode d).1.private_chain_config ≡ disabled d.private_chain_config
unfolding disable_private_chain_mode disabled put_config
disable_private_chain_mode-config d = ground arith

pub disabled-IsValid : (o : Option PrivateChainConfig) → IsValid o → IsValid (disabled o)
unfolding disabled
disabled-IsValid none v = tt
disabled-IsValid (some c) v =
    if-cases IsValid c.enabled
      (λ e. record { distinct = tt; within_set = omega arith; within_max = omega arith }) (λ e. v)

length-grown-le : (a : ℕ) (xs : List ℕ) → length (grown a xs) ≤ suc (length xs)
unfolding grown
length-grown-le a xs = ground (arith, length-insert_sorted a xs)

fill-grown : (a : ℕ) (vs xs : List ℕ) → fill (a ∷ vs) xs ≡ fill vs (grown a xs)
unfolding fill try_insert grown
fill-grown a vs xs = ap (fill vs) (grown-elim (contains xs a) (ltb (length xs) 100))
  where
    grown-elim :
        (b c : Bool)
        → (elim (if b then some xs else if c then some (insert_sorted a xs) else none)
            as (λ _. List ℕ) [ none ↦ xs | some ys ↦ ys ])
          ≡ (if b then xs else if c then insert_sorted a xs else xs)
    grown-elim b c = ground arith

pub fill-IsAllowlist :
    (max : ℕ) (vs xs : List ℕ)
    → length xs + length vs ≤ max
    → IsAllowlist max xs
    → IsAllowlist max (fill vs xs)
unfolding fill
fill-IsAllowlist max [] xs room v = v
fill-IsAllowlist max (a ∷ vs) xs room v = subst⁻¹ (IsAllowlist max) (fill-grown a vs xs) (
    fill-IsAllowlist max vs (grown a xs) (omega (arith, room, length-grown-le a xs))
      (grown-IsAllowlist a max xs (omega (arith, room)) v))
