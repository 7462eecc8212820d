-- ===== src/Allocator/Attach.antt =====
-- A second allocator on the buffers of another.
use cppgenerics.Prelude.{
  ℕ, ◌*◌, ◌/◌, ◌≤◌, ◌<◌, ◌≡◌, refl, sym, ◌∙◌, true, Option, none, some, List, arith, ap,
}
use cppgenerics.BitBuffer.{ok}
use cppgenerics.BitBuffer.GetSet.{get-test_bit}
use cppgenerics.BitBuffer.Init.{init-free}
use cppgenerics.Allocator.{Allocator, allocate, attach}
use cppgenerics.Allocator.Regions.{small, plain, view, Allocated, allocate-Allocated}

ok-injective : {A : Type 0} (a b : A) → ok a ≡ ok b → a ≡ b
ok-injective a b e = cc

-- On a model with all elements free, allocate gives the start of the storage.
at_start :
    (a : Allocator) (num : ℕ) (out : Option ℕ × Allocator)
    → ((i : ℕ) → i < a.model.num_elements → view a.model i ≡ true)
    → num ≤ a.model.num_elements
    → Allocated a num out
    → out.0 ≡ some 0
at_start a num (none, a') free fits (same, no_region) =
    absurd
      (no_region 0 (record { inside = omega arith; all_free = λ i lo hi. free i (omega arith) }))
at_start a num (some p, a') free fits (s, e, region, first, kept) =
    let start : s ≡ 0 = omega (
      arith,
      first 0 (record { inside = omega arith; all_free = λ i lo hi. free i (omega arith) }),
    ) in
    ap some (e ∙ ap (λ x. x * a.elem_size) start ∙ omega arith)

-- Whatever the shared model says, an allocator of at most 31 elements that is constructed on it gives
-- out the elements from the first on: for every request that fits, the next allocate returns the
-- start of the storage, also when another allocator has given it out.
pub attach-allocate :
    (storage_key model_key : List ℕ) (elem_size size num : ℕ) (units storage : ℕ → ℕ)
    → size / elem_size ≤ small
    → num ≤ size / elem_size
    → (a a' : Allocator) × (attach storage_key model_key elem_size size units storage ≡ ok a)
      × (allocate a num ≡ ok (some 0, a'))
unfolding attach
attach-allocate storage_key model_key elem_size size num units storage few fits =
    let n : ℕ = size / elem_size in
    let (b, made, count, free) = init-free n units (omega arith) in
    let a : Allocator = record {
      storage_key = storage_key;
      model_key = model_key;
      elem_size = elem_size;
      model = b;
      storage = storage;
    } in
    let (out, done, promised) =
      allocate-Allocated a num (omega (arith, count)) (omega (arith, count)) in
    let all_free : (i : ℕ) → i < b.num_elements → view b i ≡ true = λ i inside.
      let p = plain b i (omega (arith, count)) inside in
      ok-injective (view b i) true (sym (get-test_bit b i p) ∙ free i p) in
    let start : out.0 ≡ some 0 = at_start a num out all_free (omega (arith, count)) promised in
    (a, out.1, rw made refl, done ∙ ap (λ p. ok (p, out.1)) start)
