-- ===== src/Allocator.antt =====
-- IPC::Allocator of include/cppgenerics/IPC_Allocator.h over its model buffer, a BitBuffer with a
-- bit for each element. allocate and deallocate run under the locks of the two buffers. The storage
-- is a function of the byte's offset, and a T* is the offset of the element.
mod Tests
pub mod Regions
pub mod Attach
pub mod Construct
use cppgenerics.Prelude.{
  ℕ, zero, suc, ◌+◌, ◌*◌, ◌/◌, Bool, true, false, ◌&&◌, Option, none, some, if◌then◌else◌, leb, ltb,
  ℤ, pos, negsuc, List, same, ◌==◌,
}
use cppgenerics.BitBuffer.{
  Access, ok, logic_error, undefined, BitBuffer, set, find, init, new_bit_buffer, ◌>>=◌,
}

pub record Allocator : Type 0 where
  pub storage_key : List ℕ
  pub model_key : List ℕ
  pub elem_size : ℕ
  pub model : BitBuffer
  pub storage : ℕ → ℕ

-- The loop of allocate: `m_model.set(idx + i, false)` for each i, `at` being idx + i.
unfoldable pub take_loop : ℕ → ℕ → BitBuffer → Access BitBuffer
take_loop zero at b = ok b
take_loop (suc n) at b = do b' ← set b at false; take_loop n (at + 1) b'

-- The loop of deallocate, with i from idx on: `m_model.set(idx + i, true)`.
unfoldable pub release_loop : ℕ → ℕ → ℕ → BitBuffer → Access BitBuffer
release_loop zero idx i b = ok b
release_loop (suc n) idx i b = do b' ← set b (idx + i) true; release_loop n idx (i + 1) b'

-- The test of find's result in allocate.
unfoldable pub place : Allocator → ℕ → ℤ → Access (Option ℕ × Allocator)
unfolding take_loop
place a num_elems (negsuc _) = ok (none, a)
place a num_elems (pos idx) = do
  b ← take_loop num_elems idx a.model
  ok (some (idx * a.elem_size), record a { model = b })

-- Allocator::allocate: `none` is the null pointer.
unfoldable pub allocate : Allocator → ℕ → Access (Option ℕ × Allocator)
unfolding place
allocate a num_elems = do idx ← find a.model num_elems; place a num_elems idx

-- Allocator::deallocate.
unfoldable pub deallocate : Allocator → ℕ → ℕ → Access Allocator
unfolding release_loop
deallocate a p num_elems = do
  let idx = p / a.elem_size
  b ← release_loop num_elems idx idx a.model
  let len = num_elems * a.elem_size
  ok (record a { model = b; storage = λ j. if leb p j && ltb j (p + len) then 0 else a.storage j })

-- operator== of two allocators.
unfoldable pub equal : Allocator → Allocator → Bool
equal lhs rhs =
    same lhs.model_key rhs.model_key
    && same lhs.storage_key rhs.storage_key
    && lhs.elem_size == rhs.elem_size

-- The part of the constructor behind the two getBuffer calls: `size` is that of the storage buffer,
-- `units` what the model buffer holds, and `storage` what the storage buffer holds.
unfoldable pub attach : List ℕ → List ℕ → ℕ → ℕ → (ℕ → ℕ) → (ℕ → ℕ) → Access Allocator
attach storage_key model_key elem_size size units storage = do
  model ← init (new_bit_buffer (size / elem_size) units)
  ok (record {
    storage_key = storage_key;
    model_key = model_key;
    elem_size = elem_size;
    model = model;
    storage = storage;
  })

-- The constructor from an allocator of another type, of elements of `elem_size` bytes: it shares the
-- buffers, and the model has the other's number of elements.
unfoldable pub rebind : ℕ → Allocator → Allocator
rebind elem_size o = record o { elem_size = elem_size }
