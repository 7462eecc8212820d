-- ===== src/BitBuffer/Copies.antt =====
-- The copies, the moves and the destructor of src/BitBuffer.cpp, over a heap of blocks of units. A
-- buffer points to a block, that it has allocated or was given; `none` is the null pointer. Deleting
-- a block or touching one that is not live is a fault.

mod Tests
pub mod Owned
use cppgenerics.Prelude.{
  ℕ, ◌+◌, ◌≡◌, Bool, true, false, Option, none, some, ◌==◌, ltb, if◌then◌else◌, write,
}
use cppgenerics.BitBuffer.{BitBuffer, Access, new_bit_buffer, init, set, get}

-- The blocks below `next` have been allocated; a live block has its units.
pub record Heap : Type 0 where
  pub next : ℕ
  pub block : ℕ → Option (ℕ → ℕ)

-- BitBuffer with its m_storage and m_isSelfAllocatedStorage.
pub record Object : Type 0 where
  pub num_elements : ℕ
  pub num_units : ℕ
  pub last_unit_bits : ℕ
  pub storage : Option ℕ
  pub owns : Bool

pub data Run (A : Type 0) : Type 0 where
  ok : A → Heap → Run A
  fault : Run A

abbrev pub M : Type 0 → Type 0
M A = Heap → Run A

infixl 5 ◌>>=◌ ◌>>◌
abbrev pub ◌>>=◌ : {A B : Type 0} → M A → (A → M B) → M B
◌>>=◌ c f h = elim (c h) [ ok a h' ↦ f a h' | fault ↦ fault ]

abbrev pub ◌>>◌ : {B : Type 0} → M (Unit {0}) → M B → M B
c >> k = c >>= λ _. k

abbrev pub pure : {A : Type 0} → A → M A
pure a h = ok a h

-- A new block with the units.
unfoldable pub new_block : (ℕ → ℕ) → M ℕ
new_block units h =
    ok h.next (record { next = h.next + 1; block = write h.block h.next (some units) })

-- The units of a live block.
unfoldable pub load : Option ℕ → M (ℕ → ℕ)
load none h = fault
load (some p) h = elim (h.block p) [ none ↦ fault | some units ↦ ok units h ]

-- delete[] of a live block, or of the null pointer.
unfoldable pub delete : Option ℕ → M (Unit {0})
delete none h = ok tt h
delete (some p) h = elim (h.block p) [
  | none ↦ fault
  | some units ↦ ok tt (record h { block = write h.block p none })
]

-- freeMyMem, which is also the destructor.
unfoldable pub free_my_mem : Object → M (Unit {0})
unfolding delete
free_my_mem o = if o.owns then delete o.storage else pure tt

-- The units that createOther copies: memcpy takes m_numUnits * c_unitBytes bytes. The new block ends
-- there, and the methods refuse the indices behind it.
unfoldable pub first_units : ℕ → (ℕ → ℕ) → ℕ → ℕ
first_units n units i = if ltb i n then units i else 0

-- createOther: the members that it gives the new object.
unfoldable pub create_other : Object → M Object
unfolding new_block load first_units
create_other o =
    if o.owns
    then (do
      units ← load o.storage
      p ← new_block (first_units o.num_units units)
      pure (record o { storage = some p }))
    else pure o

-- The copy constructor.
unfoldable pub copy : Object → M Object
unfolding create_other
copy o = create_other o

-- The move constructor: the new object, and what it leaves of the other.
unfoldable pub move : Object → M (Object × Object)
unfolding create_other
move o = do
  let left = record o { owns = false }
  new ← create_other left
  pure (record new { owns = o.owns }, left)

-- operator=, of the object `b` and another.
unfoldable pub assign : Object → Object → M Object
unfolding free_my_mem create_other
assign b o = do free_my_mem b; create_other o

-- operator= of an object and itself.
unfoldable pub assign_self : Object → M Object
unfolding assign
assign_self b = assign b b

-- The BitBuffer that an object is, for the units of its block.
abbrev pub seen : Object → (ℕ → ℕ) → BitBuffer
seen o units = record {
  num_elements = o.num_elements;
  num_units = o.num_units;
  last_unit_bits = o.last_unit_bits;
  units = units;
}

-- A method of BitBuffer that writes, on an object: what it leaves in the block.
unfoldable pub write_units : Object → (ℕ → ℕ) → M (Unit {0})
write_units o units h = elim o.storage [
  | none ↦ fault
  | some p ↦ elim (h.block p) [
    | none ↦ fault
    | some old ↦ ok tt (record h { block = write h.block p (some units) })
  ]
]
