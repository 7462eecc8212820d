-- ===== src/Buffers/Lost.antt =====
-- The free list behind a release, and the indices that are in neither list.
use cppgenerics.Prelude.{
  ℕ, ◌+◌, ◌≡◌, refl, true, false, ◌||◌, none, some, List, [], ◌∷◌, ◌==◌, length, has, Distinct,
  Apart, arith,
}
use cppgenerics.Buffers.Descriptors.{Idx}
use cppgenerics.Buffers.Linked.{IsLost, free_with}

-- The descriptor before the free list behind a release, and the lost ones.
abbrev pub before_with : ℕ → List ℕ → Idx
before_with i [] = none
before_with i (x ∷ xs) = some i

abbrev pub lost_with : ℕ → List ℕ → List ℕ → List ℕ
lost_with i [] lost = lost
lost_with i (x ∷ xs) lost = i ∷ lost

pub before_with-IsLost :
    (i : ℕ) (free lost : List ℕ) → IsLost (before_with i free) (lost_with i free lost)
before_with-IsLost i [] lost = tt
before_with-IsLost i (x ∷ xs) lost = ground arith

pub has-free_with :
    (a i : ℕ) (free lost : List ℕ)
    → (has a (free_with i free) || has a (lost_with i free lost))
      ≡ ((i == a) || (has a free || has a lost))
has-free_with a i [] lost = ground arith
has-free_with a i (x ∷ xs) lost = ground arith

pub length-free_with :
    (i : ℕ) (free lost : List ℕ)
    → length (free_with i free) + length (lost_with i free lost) ≡ length free + length lost + 1
length-free_with i [] lost = omega arith
length-free_with i (x ∷ xs) lost = omega arith

pub free_with-Distinct : (i : ℕ) (free : List ℕ) → Distinct free → Distinct (free_with i free)
free_with-Distinct i [] d = (refl, tt)
free_with-Distinct i (x ∷ xs) d = d

pub lost_with-Distinct :
    (i : ℕ) (free lost : List ℕ)
    → Distinct lost
    → has i lost ≡ false
    → Distinct (lost_with i free lost)
lost_with-Distinct i [] lost d out = d
lost_with-Distinct i (x ∷ xs) lost d out = (out, d)

pub lost_with-Apart :
    (i : ℕ) (free lost : List ℕ)
    → Apart lost free
    → has i free ≡ false
    → has i lost ≡ false
    → Apart (lost_with i free lost) (free_with i free)
lost_with-Apart i [] lost apart out new a there = ground arith
lost_with-Apart i (x ∷ xs) lost apart out new a there = ground (arith, apart a)

pub free_with-has :
    (a i : ℕ) (free : List ℕ) → has a (free_with i free) ≡ true → ((i == a) || has a free) ≡ true
free_with-has a i [] there = ground arith
free_with-has a i (x ∷ xs) there = ground arith

pub lost_with-has :
    (a i : ℕ) (free lost : List ℕ)
    → has a (lost_with i free lost) ≡ true
    → ((i == a) || has a lost) ≡ true
lost_with-has a i [] lost there = ground arith
lost_with-has a i (x ∷ xs) lost there = ground arith

pub lost_with-IsLost :
    (h : Idx) (i : ℕ) (free lost : List ℕ) → IsLost h lost → IsLost h (lost_with i free lost)
lost_with-IsLost none i free lost there = tt
lost_with-IsLost (some l) i [] lost there = there
lost_with-IsLost (some l) i (x ∷ xs) lost there = ground arith
