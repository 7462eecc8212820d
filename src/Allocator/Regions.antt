-- ===== src/Allocator/Regions.antt =====
-- What allocate and deallocate of IPC_Allocator.h do to the model.
use native.Mathlib.Nat.{mul-div_cancel}
use cppgenerics.Prelude.{
  ℕ, zero, suc, ◌+◌, ◌*◌, ◌/◌, ◌%◌, ◌≤◌, ◌<◌, ◌≡◌, refl, ◌∙◌, Bool, true, false, ◌&&◌, Option, none,
  some, if◌then◌else◌, leb, ltb, arith, ℤ, pos, negsuc,
}
use cppgenerics.Bits.{test_bit}
use cppgenerics.BitBuffer.{
  Access, ok, logic_error, undefined, BitBuffer, get, find, unit_bits, ◌>>=◌,
}
use cppgenerics.BitBuffer.GetSet.{IsPlain, get-set, get-test_bit}
use cppgenerics.BitBuffer.Find.{Reads, IsRegion, FirstRegion, find-FirstRegion}
use cppgenerics.Allocator.{Allocator, take_loop, release_loop, place, allocate, deallocate}

-- Every index of a buffer of at most 31 elements is plain.
abbrev pub small : ℕ
small = 31

pub plain : (b : BitBuffer) (i : ℕ) → b.num_elements ≤ small → i < b.num_elements → IsPlain b i
plain b i few inside = record { inside = inside; size = omega arith; low = omega arith }

-- The bits from `at` on, `n` of them, read as `val`, and all others as before.
abbrev pub Filled : BitBuffer → ℕ → ℕ → Bool → BitBuffer → Type 0
Filled b at n val b' =
    (b'.num_elements ≡ b.num_elements)
    × ((j : ℕ)
        → j < b.num_elements
        → get b' j ≡ (if leb at j && ltb j (at + n) then ok val else get b j))

take_loop-Filled :
    (n at : ℕ) (b : BitBuffer)
    → b.num_elements ≤ small
    → at + n ≤ b.num_elements
    → (b' : BitBuffer) × (take_loop n at b ≡ ok b') × Filled b at n false b'
unfolding take_loop
take_loop-Filled zero at b few fits = (b, refl, (refl, λ j h. ground arith))
take_loop-Filled (suc n) at b few fits =
    let (b1, done, same1, bits1) = get-set b at false (plain b at few (omega arith)) in
    let (b2, rest, kept) =
      take_loop-Filled n (at + 1) b1 (omega (arith, same1)) (omega (arith, same1)) in
    (
      b2,
      rw done rest,
      (
        kept.0 ∙ same1,
        λ j h. ground (arith, kept.1 j (omega (arith, same1)), bits1 j (plain b j few h)),
      ),
    )

release_loop-Filled :
    (n idx i : ℕ) (b : BitBuffer)
    → b.num_elements ≤ small
    → idx + i + n ≤ b.num_elements
    → (b' : BitBuffer) × (release_loop n idx i b ≡ ok b') × Filled b (idx + i) n true b'
unfolding release_loop
release_loop-Filled zero idx i b few fits = (b, refl, (refl, λ j h. ground arith))
release_loop-Filled (suc n) idx i b few fits =
    let (b1, done, same1, bits1) = get-set b (idx + i) true (plain b (idx + i) few (omega arith)) in
    let (b2, rest, kept) =
      release_loop-Filled n idx (i + 1) b1 (omega (arith, same1)) (omega (arith, same1)) in
    (
      b2,
      rw done rest,
      (
        kept.0 ∙ same1,
        λ j h. ground (arith, kept.1 j (omega (arith, same1)), bits1 j (plain b j few h)),
      ),
    )

-- A small buffer reads as a view.
abbrev pub view : BitBuffer → ℕ → Bool
view b i = test_bit (b.units (i / unit_bits)) (i % unit_bits)

Reads-view : (b : BitBuffer) → b.num_elements ≤ small → Reads b (view b)
Reads-view b few i inside = get-test_bit b i (plain b i few inside)

-- What allocate promises on a model: the first free region, which is taken, and nothing else
-- changes; or the null pointer, no region and no change.
abbrev pub Allocated : Allocator → ℕ → Option ℕ × Allocator → Type 0
Allocated a num (none, a') =
    (a' ≡ a) × ((t : ℕ) → ¬ IsRegion a.model.num_elements (view a.model) t num)
Allocated a num (some p, a') =
    (s : ℕ) × (p ≡ s * a.elem_size)
    × IsRegion a.model.num_elements (view a.model) s num
    × ((t : ℕ) → IsRegion a.model.num_elements (view a.model) t num → s ≤ t)
    × Filled a.model s num false a'.model

place-Allocated :
    (a : Allocator) (num : ℕ) (r : ℤ)
    → a.model.num_elements ≤ small
    → FirstRegion a.model (view a.model) num (ok r)
    → (out : Option ℕ × Allocator) × (place a num r ≡ ok out) × Allocated a num out
unfolding place
place-Allocated a num (pos s) few first =
    let (b, done, kept) = take_loop-Filled num s a.model few first.0.inside in
    ((some (s * a.elem_size), record a { model = b }), rw done, (s, refl, first.0, first.1, kept))
place-Allocated a num (negsuc k) few first = ((none, a), refl, (refl, first.1))

found_by :
    (a : Allocator) (num : ℕ) (r : Access ℤ)
    → a.model.num_elements ≤ small
    → FirstRegion a.model (view a.model) num r
    → (out : Option ℕ × Allocator) × ((r >>= place a num) ≡ ok out) × Allocated a num out
found_by a num (ok r) few first = place-Allocated a num r few first
found_by a num logic_error few first = absurd first
found_by a num undefined few first = absurd first

-- allocate, on a model of at most 31 elements and a request of no more than these: the first free
-- region is returned and taken, or null is returned because there is none.
pub allocate-Allocated :
    (a : Allocator) (num : ℕ)
    → a.model.num_elements ≤ small
    → num ≤ a.model.num_elements
    → (out : Option ℕ × Allocator) × (allocate a num ≡ ok out) × Allocated a num out
unfolding allocate
allocate-Allocated a num few enough =
    found_by a num (find a.model num) few
      (find-FirstRegion a.model (view a.model) num (Reads-view a.model few) (omega arith) enough)

-- For a model of at most 31 elements and an element size above 0, deallocate of `num` elements at
-- the element of index `k`, where 2 * k + num elements fit, frees the `num` elements from 2 * k on
-- and no others: it adds the index twice.
deallocate-twice :
    (a : Allocator) (k num : ℕ)
    → 0 < a.elem_size
    → a.model.num_elements ≤ small
    → k + k + num ≤ a.model.num_elements
    → (a' : Allocator) × (deallocate a (k * a.elem_size) num ≡ ok a')
      × Filled a.model (k + k) num true a'.model
unfolding deallocate
deallocate-twice a k num sized few fits =
    let (b, done, kept) = release_loop-Filled num k k a.model few fits in
    let index : k * a.elem_size / a.elem_size ≡ k = mul-div_cancel k sized in
    let len : ℕ = num * a.elem_size in
    let p : ℕ = k * a.elem_size in
    (
      record a { model = b; storage = λ j. if leb p j && ltb j (p + len) then 0 else a.storage j },
      rw index (rw done),
      kept,
    )
