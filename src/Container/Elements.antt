-- ===== src/Container/Elements.antt =====
-- The elements that the iterators of a container visit, and those of operator[].
use cppgenerics.Prelude.{
  ℕ, zero, suc, ◌+◌, ◌*◌, ◌/◌, ◌≤◌, ◌<◌, ◌≡◌, refl, true, false, some, List, [], ◌∷◌, arith,
}
use cppgenerics.Buffers.Manager.{Buffer}
use cppgenerics.Container.{
  Iterator, new_iterator, begin, end, next, equal, differ, deref, index, visit,
}

-- The addresses of `n` elements from the i-th on.
abbrev pub elements : ℕ → ℕ → ℕ → ℕ → List ℕ
elements size_of start i zero = []
elements size_of start i (suc n) = (start + i * size_of) ∷ elements size_of start (i + 1) n

abbrev at : Buffer → ℕ → Iterator
at b i = record { pos = i; buf = b.sptr; storage_size = b.size }

differ_less : (b : Buffer) (i j : ℕ) → i < j → differ (at b i) (at b j) ≡ true
unfolding differ equal
differ_less b i j h = ground arith

differ_same : (b : Buffer) (i j : ℕ) → i ≡ j → differ (at b i) (at b j) ≡ false
unfolding differ equal
differ_same b i j h = ground arith

visit_from :
    (fuel size_of n i j : ℕ) (b : Buffer)
    → i + n ≡ j
    → n < fuel
    → visit fuel size_of (at b i) (at b j) ≡ some (elements size_of b.sptr i n)
unfolding visit next deref
visit_from zero size_of n i j b e h = absurd (omega arith)
visit_from (suc fuel) size_of zero i j b e h = rw (differ_same b i j (omega arith)) refl
visit_from (suc fuel) size_of (suc n) i j b e h =
    rw
      (
        differ_less b i j (omega arith),
        visit_from fuel size_of n (i + 1) j b (omega arith) (omega arith),
      )
      refl

-- The elements that fit in a size fit one after the other.
fits : (size size_of i : ℕ) → 0 < size_of → i < size / size_of → i * size_of + size_of ≤ size
fits size size_of i pos h = grind arith

-- Every element at these addresses lies in the buffer.
abbrev pub AreWithin : Buffer → ℕ → List ℕ → Type 0
AreWithin b size_of [] = Unit {0}
AreWithin b size_of (x ∷ xs) =
    (b.sptr ≤ x) × (x + size_of ≤ b.sptr + b.size) × AreWithin b size_of xs

elements-AreWithin :
    (b : Buffer) (size_of i n : ℕ)
    → 0 < size_of
    → i + n ≡ b.size / size_of
    → AreWithin b size_of (elements size_of b.sptr i n)
elements-AreWithin b size_of i zero pos e = tt
elements-AreWithin b size_of i (suc n) pos e = (
  omega arith,
  omega (arith, fits b.size size_of i pos (omega arith)),
  elements-AreWithin b size_of (i + 1) n pos (omega arith),
)

-- A loop from begin to end ends, visits the elements of the buffer in the order of their addresses, as
-- many as fit, and none outside of it.
pub visit-elements :
    (fuel size_of : ℕ) (b : Buffer)
    → 0 < size_of
    → b.size / size_of < fuel
    → (visit fuel size_of (begin b) (end size_of b)
        ≡ some (elements size_of b.sptr 0 (b.size / size_of)))
      × AreWithin b size_of (elements size_of b.sptr 0 (b.size / size_of))
unfolding begin end new_iterator
visit-elements fuel size_of b pos enough = (
  visit_from fuel size_of (b.size / size_of) 0 (b.size / size_of) b (omega arith) enough,
  elements-AreWithin b size_of 0 (b.size / size_of) pos (omega arith),
)

behind_end : (size size_of k : ℕ) → 0 < size_of → size / size_of ≤ k → size < k * size_of + size_of
behind_end size size_of k pos h = grind arith

-- For elements of more than one byte, operator[] of a valid index above 0 gives an address behind
-- the element that the iterator of this position refers to, and one whose element is not in the
-- buffer where the index times the size of an element reaches the number of elements.
index-beyond :
    (size_of idx : ℕ) (b : Buffer)
    → 1 < size_of
    → 0 < idx
    → idx < b.size / size_of
    → b.size / size_of ≤ idx * size_of
    → (deref size_of (new_iterator b idx) < index size_of b idx)
      × (b.sptr + b.size < index size_of b idx + size_of)
unfolding deref new_iterator index
index-beyond size_of idx b wide pos valid far =
    (grind arith, omega (arith, behind_end b.size size_of (idx * size_of) (omega arith) far))
