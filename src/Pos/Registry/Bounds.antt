-- ===== src/Pos/Registry/Bounds.antt =====
-- The bounds on the validators and on the slashing counts of pallet-cerulea-pos.

use cerulea.Common.{
  ℕ, ◌<◌, ◌≤◌, ◌≡◌, Bool, true, Map, length, length-insert, length-erase-le, lookup-insert,
  lookup-erase, get, has_key, insert, erase, arith,
}
use cerulea.Pos.State.{Config, Pos}

-- No more validators than the bound, and no slashing count at the count that removes.
pub record Bounded (max removes : ℕ) (validators : Map Bool) (counts : Map ℕ) : Type 0 where
  pub few : length validators ≤ max
  pub low : (v : ℕ) → get 0 v counts < removes

abbrev pub Items : Type 0
Items = Map Bool × Map ℕ

abbrev pub items : Pos → Items
items p = (p.validators, p.slashing_count)

abbrev pub BoundedItems : Config → Items → Type 0
BoundedItems cfg (vs, cs) = Bounded cfg.max_validators cfg.max_slashing_count vs cs

abbrev pub IsBounded : Config → Pos → Type 0
IsBounded cfg p = Bounded cfg.max_validators cfg.max_slashing_count p.validators p.slashing_count

module _ {max removes : ℕ} {vs : Map Bool} {cs : Map ℕ} (v : ℕ) where
  pub insert-Bounded :
      (b : Bool)
      → has_key v vs ≡ true
      → Bounded max removes vs cs
      → Bounded max removes (insert v b vs) cs
  insert-Bounded b known h = record {
    few = ground (arith, length-insert v b vs, known, h.few);
    low = h.low;
  }

  pub new-Bounded :
      (b : Bool)
      → length vs < max
      → Bounded max removes vs cs
      → Bounded max removes (insert v b vs) cs
  new-Bounded b room h = record { few = ground (arith, length-insert v b vs, room); low = h.low }

  pub drop-Bounded :
      0 < removes → Bounded max removes vs cs → Bounded max removes (erase v vs) (erase v cs)
  drop-Bounded pos h = record {
    few = omega (arith, length-erase-le v vs, h.few);
    low = λ a. ground (arith, lookup-erase v a cs, h.low a, pos);
  }

  pub count-Bounded :
      (n : ℕ) → n < removes → Bounded max removes vs cs → Bounded max removes vs (insert v n cs)
  count-Bounded n lt h = record {
    few = h.few;
    low = λ a. ground (arith, lookup-insert v a n cs, h.low a, lt);
  }

pub erase-insert-Bounded :
    {max removes : ℕ} {vs : Map Bool} {cs : Map ℕ} (v n : ℕ)
    → 0 < removes
    → Bounded max removes vs cs
    → Bounded max removes (erase v vs) (erase v (insert v n cs))
erase-insert-Bounded {vs = vs} {cs = cs} v n pos h = record {
  few = omega (arith, length-erase-le v vs, h.few);
  low = λ a. ground (arith, lookup-erase v a (insert v n cs), lookup-insert v a n cs, h.low a, pos);
}
