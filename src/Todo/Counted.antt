-- ===== src/Todo/Counted.antt =====
-- The counts and ids of todo items.
use mathlib.Core.Path.{subst⁻¹}
use cerulea.Common.{
  ℕ, suc, ◌+◌, ◌-◌, ◌%◌, ◌^◌, ◌<◌, ◌≤◌, ◌≡◌, refl, true, false, Bool, [], ◌∷◌, Map, has_key, get,
  insert, erase, lookup-insert, lookup-erase, IsUnique, insert-IsUnique, erase-IsUnique, length,
  length-insert, arith, if◌then◌else◌, ◌==◌,
}
use cerulea.Todo.{TodoItem, Todos}

length-erase_absent :
    {V : Type 0} (k : ℕ) (m : Map V) → has_key k m ≡ false → length (erase k m) ≡ length m
length-erase_absent k [] h = refl
length-erase_absent k ((j, w) ∷ m) h = ground (arith, h, length-erase_absent k m)

length-erase :
    {V : Type 0} (k : ℕ) (m : Map V)
    → IsUnique m
    → has_key k m ≡ true
    → suc (length (erase k m)) ≡ length m
length-erase k [] u h = ground (arith, h)
length-erase k ((j, w) ∷ m) u h =
    ground (arith, h, u.0, length-erase k m u.1, length-erase_absent k m)

-- The count of each account is the number of its items and within the bound, no id stands twice, and
-- the ids of its items are below the next id, so that a new id is fresh.
pub record Counted (max : ℕ) (ts : Map (Map TodoItem)) (nexts counts : Map ℕ) : Type 0 where
  pub unique : (a : ℕ) → IsUnique (get [] a ts)
  pub counted : (a : ℕ) → get 0 a counts ≡ length (get [] a ts)
  pub capped : (a : ℕ) → get 0 a counts ≤ max
  pub fresh : (a i : ℕ) → has_key i (get [] a ts) ≡ true → i < get 0 a nexts

abbrev pub Parts : Type 0
Parts = Map (Map TodoItem) × Map ℕ × Map ℕ

abbrev pub parts : Todos → Parts
parts t = (t.todos, t.next_todo_id, t.todo_count)

abbrev pub CountedParts : ℕ → Parts → Type 0
CountedParts max (ts, nexts, counts) = Counted max ts nexts counts

abbrev pub IsCounted : ℕ → Todos → Type 0
IsCounted max t = Counted max t.todos t.next_todo_id t.todo_count

pub carry : (max : ℕ) (t : Todos) {q : Parts} → parts t ≡ q → CountedParts max q → IsCounted max t
carry max t e h = subst⁻¹ (CountedParts max) e h

items-put :
    (who a : ℕ) (m : Map TodoItem) (ts : Map (Map TodoItem))
    → get [] a (insert who m ts) ≡ (if who == a then m else get [] a ts)
items-put who a m ts = ground (arith, lookup-insert who a m ts)

get-put : (who a n : ℕ) (m : Map ℕ) → get 0 a (insert who n m) ≡ (if who == a then n else get 0 a m)
get-put who a n m = ground (arith, lookup-insert who a n m)

choose-IsUnique :
    (b : Bool) (m k : Map TodoItem) → IsUnique m → IsUnique k → IsUnique (if b then m else k)
choose-IsUnique true m k u v = u
choose-IsUnique false m k u v = v

module _ {max : ℕ} {ts : Map (Map TodoItem)} {nexts counts : Map ℕ} (who : ℕ)
    (h : Counted max ts nexts counts) where
  pub create-Counted :
      (item : TodoItem)
      → get 0 who counts < max
      → max < 2 ^ 32
      → Counted max
          (insert who (insert (get 0 who nexts) item (get [] who ts)) ts)
          (insert who (get 0 who nexts + 1) nexts)
          (insert who ((get 0 who counts + 1) % 2 ^ 32) counts)
  create-Counted item room word =
      let m = insert (get 0 who nexts) item (get [] who ts) in
      let n = get 0 who nexts + 1 in
      let c = (get 0 who counts + 1) % 2 ^ 32 in
      record {
        unique = λ a. subst⁻¹ IsUnique (items-put who a m ts) (
            choose-IsUnique (who == a) m (get [] a ts)
              (insert-IsUnique (get 0 who nexts) item (get [] who ts) (h.unique who)) (h.unique a));
        counted = λ a. ground (
          arith,
          items-put who a m ts,
          get-put who a c counts,
          h.counted a,
          h.counted who,
          room,
          word,
          length-insert (get 0 who nexts) item (get [] who ts),
          h.fresh who (get 0 who nexts),
        );
        capped = λ a. ground (arith, get-put who a c counts, h.capped a, room, word);
        fresh = λ a i k. ground (
          arith,
          items-put who a m ts,
          get-put who a n nexts,
          h.fresh a i,
          h.fresh who i,
          lookup-insert (get 0 who nexts) i item (get [] who ts),
          k,
        );
      }

  pub replace-Counted :
      (id : ℕ) (item : TodoItem)
      → has_key id (get [] who ts) ≡ true
      → Counted max (insert who (insert id item (get [] who ts)) ts) nexts counts
  replace-Counted id item known =
      let m = insert id item (get [] who ts) in
      record {
        unique = λ a. subst⁻¹ IsUnique (items-put who a m ts) (
            choose-IsUnique (who == a) m (get [] a ts)
              (insert-IsUnique id item (get [] who ts) (h.unique who)) (h.unique a));
        counted = λ a. ground (
          arith,
          items-put who a m ts,
          h.counted a,
          h.counted who,
          length-insert id item (get [] who ts),
          known,
        );
        capped = h.capped;
        fresh = λ a i k. ground (
          arith,
          items-put who a m ts,
          h.fresh a i,
          h.fresh who i,
          h.fresh who id known,
          lookup-insert id i item (get [] who ts),
          k,
        );
      }

  pub remove-Counted :
      (id : ℕ)
      → has_key id (get [] who ts) ≡ true
      → Counted max
          (insert who (erase id (get [] who ts)) ts)
          nexts
          (insert who (get 0 who counts - 1) counts)
  remove-Counted id known =
      let m = erase id (get [] who ts) in
      let c = get 0 who counts - 1 in
      record {
        unique = λ a. subst⁻¹ IsUnique (items-put who a m ts) (
            choose-IsUnique (who == a) m (get [] a ts)
              (erase-IsUnique id (get [] who ts) (h.unique who)) (h.unique a));
        counted = λ a. ground (
          arith,
          items-put who a m ts,
          get-put who a c counts,
          h.counted a,
          h.counted who,
          length-erase id (get [] who ts) (h.unique who) known,
        );
        capped = λ a. ground (arith, get-put who a c counts, h.capped a, h.capped who);
        fresh = λ a i k. ground (
          arith,
          items-put who a m ts,
          h.fresh a i,
          h.fresh who i,
          lookup-erase id i (get [] who ts),
          k,
        );
      }
