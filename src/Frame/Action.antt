-- ===== src/Frame/Action.antt =====
-- A call that changes storage and may fail. What was written before the failure stays written in
-- the state that comes back with the error: rolling it back is the framework's part.
use cerulea.Common.{ℕ, ◌≡◌, refl, ◌⊎◌, inl, inr, Bool, true, false, Option, none, some, ⊤}
use cerulea.Frame.Errors.{DispatchError, bad_origin}

pub data Result (A : Type 0) : Type 0 where
  ok : A → Result A
  err : DispatchError → Result A

abbrev pub Action : Type 0 → Type 0 → Type 0
Action S A = S → Result A × S

module _ {S : Type 0} where
  abbrev pub pure : {A : Type 0} → A → Action S A
  pure a s = (ok a, s)

  abbrev pub fail : {A : Type 0} → DispatchError → Action S A
  fail e s = (err e, s)

  infixl 5 ◌>>=◌ ◌>>◌
  abbrev pub ◌>>=◌ : {A B : Type 0} → Action S A → (A → Action S B) → Action S B
  ◌>>=◌ m f s = let (r, s') = m s in elim r [ ok a ↦ f a s' | err e ↦ (err e, s') ]

  abbrev pub ◌>>◌ : {A B : Type 0} → Action S A → Action S B → Action S B
  m >> k = m >>= λ _. k

  abbrev pub gets : {A : Type 0} → (S → A) → Action S A
  gets f s = (ok (f s), s)

  abbrev pub modify : (S → S) → Action S ⊤
  modify f s = (ok tt, f s)

  -- `ensure!(test, error)`
  abbrev pub ensure : Bool → DispatchError → Action S ⊤
  ensure true e s = (ok tt, s)
  ensure false e s = (err e, s)

  -- `option.ok_or(error)?`
  abbrev pub ok_or : {A : Type 0} → Option A → DispatchError → Action S A
  ok_or none e s = (err e, s)
  ok_or (some a) e s = (ok a, s)

  -- `let _ = call(..)`: the outcome is dropped, and what was written stays.
  abbrev pub ignore : {A : Type 0} → Action S A → Action S ⊤
  ignore m s = (ok tt, (m s).1)

-- Who sent a call.
pub data Origin : Type 0 where
  root : Origin
  signed : ℕ → Origin
  unsigned : Origin

module _ {S : Type 0} where
  abbrev pub ensure_signed : Origin → Action S ℕ
  ensure_signed root s = (err bad_origin, s)
  ensure_signed (signed who) s = (ok who, s)
  ensure_signed unsigned s = (err bad_origin, s)

  abbrev pub ensure_root : Origin → Action S ⊤
  ensure_root root s = (ok tt, s)
  ensure_root (signed who) s = (err bad_origin, s)
  ensure_root unsigned s = (err bad_origin, s)

  abbrev pub ensure_none : Origin → Action S ⊤
  ensure_none root s = (err bad_origin, s)
  ensure_none (signed who) s = (err bad_origin, s)
  ensure_none unsigned s = (ok tt, s)

pub Result-cases :
    {A : Type 0} (r : Result A) → ((a : A) × (r ≡ ok a)) ⊎ ((e : DispatchError) × (r ≡ err e))
Result-cases (ok a) = inl (a, refl)
Result-cases (err e) = inr (e, refl)

-- What a call keeps, whether it succeeds or fails.
abbrev pub Keeps : {S A : Type 0} → (S → Type 0) → Action S A → Type 0
Keeps {S} P m = (s : S) → P s → P (m s).1

pub >>=-Keeps :
    {S A B : Type 0} (P : S → Type 0) (m : Action S A) (f : A → Action S B)
    → Keeps P m
    → ((a : A) → Keeps P (f a))
    → Keeps P (m >>= f)
>>=-Keeps {S} {A} {B} P m f km kf s h = after (m s).0 (m s).1 (km s h)
  where
    after : (r : Result A) (s' : S) → P s' → P (((λ (_ : S). (r, s')) >>= f) s').1
    after (ok a) s' k = kf a s' k
    after (err e) s' k = k
