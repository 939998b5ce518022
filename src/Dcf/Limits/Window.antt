-- ===== src/Dcf/Limits/Window.antt =====
-- The history that record_operation keeps for an account: it counts the operations of the window as
-- a log of all of them does.
use cerulea.Common.{
  ℕ, ◌+◌, ◌-◌, ◌≤◌, ◌<◌, ◌≡◌, refl, ◌∙◌, Bool, true, false, if◌then◌else◌, leb, ltb, List, [], ◌∷◌,
  ◌++◌, length, retain, All, arith, Bool-cases, inl, inr,
}
use cerulea.Dcf.Limits.{count_from, remove_oldest, update_history}

count_from-push :
    (start n : ℕ) (xs : List ℕ)
    → count_from start (xs ++ n ∷ []) ≡ count_from start xs + (if leb start n then 1 else 0)
count_from-push start n [] = ground arith
count_from-push start n (x ∷ xs) = ground (arith, count_from-push start n xs)

-- What is dropped before the window is not counted in it.
count_from-retain :
    (start s : ℕ) (xs : List ℕ)
    → start ≤ s
    → count_from s (retain (λ b. leb start b) xs) ≡ count_from s xs
count_from-retain start s [] h = refl
count_from-retain start s (x ∷ xs) h = ground (arith, h, count_from-retain start s xs h)

pub count_from-le : (s t : ℕ) (xs : List ℕ) → s ≤ t → count_from t xs ≤ count_from s xs
count_from-le s t [] h = omega arith
count_from-le s t (x ∷ xs) h = ground (arith, h, count_from-le s t xs h)

-- The oldest block stands first.
abbrev pub IsAscending : List ℕ → Type 0
IsAscending [] = Unit {0}
IsAscending (x ∷ xs) = All (λ y. x ≤ y) xs × IsAscending xs

All-push : (P : ℕ → Type 0) (n : ℕ) (xs : List ℕ) → P n → All P xs → All P (xs ++ n ∷ [])
All-push P n [] p h = (p, tt)
All-push P n (x ∷ xs) p h = (h.0, All-push P n xs p h.1)

-- A property of both branches is one of the conditional.
either : (P : List ℕ → Type 0) (b : Bool) {xs ys : List ℕ} → P xs → P ys → P (if b then xs else ys)
either P true h k = h
either P false h k = k

All-retain : (P : ℕ → Type 0) (p : ℕ → Bool) (xs : List ℕ) → All P xs → All P (retain p xs)
All-retain P p [] h = tt
All-retain P p (x ∷ xs) h =
    let rest = All-retain P p xs h.1 in either (All P) (p x) (h.0, rest) rest

push-IsAscending :
    (n : ℕ) (xs : List ℕ) → All (λ y. y ≤ n) xs → IsAscending xs → IsAscending (xs ++ n ∷ [])
push-IsAscending n [] h a = (tt, tt)
push-IsAscending n (x ∷ xs) h a =
    (All-push (λ y. x ≤ y) n xs h.0 a.0, push-IsAscending n xs h.1 a.1)

retain-IsAscending : (p : ℕ → Bool) (xs : List ℕ) → IsAscending xs → IsAscending (retain p xs)
retain-IsAscending p [] a = tt
retain-IsAscending p (x ∷ xs) a =
    let rest = retain-IsAscending p xs a.1 in
    either IsAscending (p x) (All-retain (λ y. x ≤ y) p xs a.0, rest) rest

remove_oldest-IsAscending : (xs : List ℕ) → IsAscending xs → IsAscending (remove_oldest xs)
remove_oldest-IsAscending [] a = tt
remove_oldest-IsAscending (x ∷ xs) a = a.1

All-remove_oldest : (P : ℕ → Type 0) (xs : List ℕ) → All P xs → All P (remove_oldest xs)
All-remove_oldest P [] h = tt
All-remove_oldest P (x ∷ xs) h = h.1

count_from_whole :
    (start x : ℕ) (xs : List ℕ) → start ≤ x → All (λ y. x ≤ y) xs → count_from start xs ≡ length xs
count_from_whole start x [] h a = refl
count_from_whole start x (y ∷ ys) h a = ground (arith, h, a.0, count_from_whole start x ys h a.1)

-- When not all blocks are in the window, the oldest is not.
count_from-remove_oldest :
    (start s : ℕ) (xs : List ℕ)
    → IsAscending xs
    → count_from start xs < length xs
    → start ≤ s
    → count_from s (remove_oldest xs) ≡ count_from s xs
count_from-remove_oldest start s [] a h le = refl
count_from-remove_oldest start s (x ∷ xs) a h le = elim (Bool-cases (leb start x)) [
  | inl e ↦
      let whole : count_from start xs ≡ length xs =
        count_from_whole start x xs (ground (arith, e)) a.0 in
      absurd (ground (arith, e, h, whole))
  | inr e ↦ ground (arith, e, le)
]

-- A history against the log of all operations, the newest first.
pub record Tracks (limit window now : ℕ) (hist log : List ℕ) : Type 0 where
  pub ascending : IsAscending hist
  pub past : All (λ b. b ≤ now) hist
  pub agrees : (s : ℕ) → now - window ≤ s → count_from s hist ≡ count_from s log
  pub bounded : count_from (now - window) log ≤ limit

All-le : (m n : ℕ) (xs : List ℕ) → m ≤ n → All (λ b. b ≤ m) xs → All (λ b. b ≤ n) xs
All-le m n [] h a = tt
All-le m n (x ∷ xs) h a = (omega (arith, a.0), All-le m n xs h a.1)

pub advance-Tracks :
    {limit window now : ℕ} {hist log : List ℕ} (later : ℕ)
    → now ≤ later
    → Tracks limit window now hist log
    → Tracks limit window later hist log
advance-Tracks {limit} {window} {now} {hist} {log} later le t = record {
  ascending = t.ascending;
  past = All-le now later hist le t.past;
  agrees = λ s h. t.agrees s (omega (arith, h, le));
  bounded =
      omega
        (arith, t.bounded, count_from-le (now - window) (later - window) log (omega (arith, le)));
}

-- What update_history pushes, before it drops what is out of the window.
pushed : ℕ → List ℕ → List ℕ
pushed now hist = if ltb (length hist) 100 then hist ++ now ∷ [] else remove_oldest hist ++ now ∷ []

module _ {limit window now : ℕ} {hist log : List ℕ} (small : limit ≤ 100)
    (t : Tracks limit window now hist log) (room : count_from (now - window) hist < limit) where
  pushed-count :
      (s : ℕ) → now - window ≤ s → count_from s (pushed now hist) ≡ count_from s (now ∷ log)
  unfolding pushed
  pushed-count s h = elim (Bool-cases (ltb (length hist) 100)) [
    | inl e ↦ ground (arith, e, count_from-push s now hist, t.agrees s h)
    | inr e ↦
        let full : count_from (now - window) hist < length hist = ground (arith, e, room, small) in
        let kept = count_from-remove_oldest (now - window) s hist t.ascending full h in
        ground (arith, e, count_from-push s now (remove_oldest hist), kept, t.agrees s h)
  ]

  pushed-IsAscending : IsAscending (pushed now hist)
  unfolding pushed
  pushed-IsAscending =
      either IsAscending (ltb (length hist) 100) (push-IsAscending now hist t.past t.ascending) (
        push-IsAscending now (remove_oldest hist) (All-remove_oldest (λ b. b ≤ now) hist t.past)
          (remove_oldest-IsAscending hist t.ascending))

  pushed-past : All (λ b. b ≤ now) (pushed now hist)
  unfolding pushed
  pushed-past =
      either (All (λ b. b ≤ now)) (ltb (length hist) 100)
        (All-push (λ b. b ≤ now) now hist (omega arith) t.past)
        (All-push (λ b. b ≤ now) now (remove_oldest hist) (omega arith)
          (All-remove_oldest (λ b. b ≤ now) hist t.past))

  pub accept-Tracks : Tracks limit window now (update_history window now hist) (now ∷ log)
  unfolding update_history pushed
  accept-Tracks =
      let start = now - window in
      record {
        ascending = retain-IsAscending (λ b. leb start b) (pushed now hist) pushed-IsAscending;
        past = All-retain (λ b. b ≤ now) (λ b. leb start b) (pushed now hist) pushed-past;
        agrees = λ s h. count_from-retain start s (pushed now hist) h ∙ pushed-count s h;
        bounded = ground (arith, t.agrees start (omega arith), room);
      }
