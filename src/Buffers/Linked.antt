-- ===== src/Buffers/Linked.antt =====
-- The well-formedness of the descriptor table: which indices are free, which are full, and which
-- are in neither list.
use cppgenerics.Prelude.{
  ℕ, ◌+◌, ◌≡◌, refl, arith, true, false, ◌||◌, none, some, List, [], ◌∷◌, ltb, length, has,
  Distinct, Apart,
}
use cppgenerics.Buffers.Descriptors.{Idx, Storage, Shared, set_next}
use cppgenerics.Buffers.Chain.{Chain}

-- -1, or a lost index.
abbrev pub IsLost : Idx → List ℕ → Type 0
IsLost none lost = Unit {0}
IsLost (some l) lost = has l lost ≡ true

-- `free` and `full` list the descriptors of the two chains from the control block; the others below
-- the capacity are lost; each index below the capacity stands in exactly one of the three lists,
-- and once. The first descriptor of a chain may point back to a lost one.
pub record IsLinked (capacity : ℕ) (s : Shared) (free full : List ℕ) : Type 0 where
  pub lost : List ℕ
  pub before_free : Idx
  pub before_full : Idx
  pub free_chain : Chain s.main_storage before_free s.control.next_free_idx free
  pub full_chain : Chain s.main_storage before_full s.control.next_full_idx full
  pub before_free_lost : IsLost before_free lost
  pub before_full_lost : IsLost before_full lost
  pub free_distinct : Distinct free
  pub full_distinct : Distinct full
  pub lost_distinct : Distinct lost
  pub apart : Apart free full
  pub lost_free : Apart lost free
  pub lost_full : Apart lost full
  pub covers : (a : ℕ) → (has a free || has a full || has a lost) ≡ ltb a capacity
  pub count : length free + length full + length lost ≡ capacity

-- A guarded write to a lost descriptor changes no other.
pub set_next-lost :
    (h v : Idx) (lost : List ℕ) (m : Storage) (a : ℕ)
    → IsLost h lost
    → has a lost ≡ false
    → set_next h v m a ≡ m a
set_next-lost none v lost m a there out = refl
set_next-lost (some l) v lost m a there out = ground arith

-- The free list behind the release of an index: an empty list takes it, any other stays as it is.
abbrev pub free_with : ℕ → List ℕ → List ℕ
free_with i [] = i ∷ []
free_with i (x ∷ xs) = x ∷ xs

-- No free descriptor has an id.
abbrev pub Blank : Shared → List ℕ → Type 0
Blank s free = (a : ℕ) → has a free ≡ true → (s.main_storage a).id ≡ []
