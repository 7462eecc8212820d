-- ===== src/Allocator/Tests.antt =====
-- An allocator of ten elements of 8 bytes, the first two taken.
use cppgenerics.Prelude.{ℕ, ◌*◌, ◌/◌, ◌≡◌, Option, some, [], ◌∷◌, arith}
use cppgenerics.BitBuffer
use cppgenerics.BitBuffer.{get_size_bytes, new_bit_buffer, unit_bytes}
use cppgenerics.Buffers.Manager.{ok, storage}
use cppgenerics.Buffers.Tests.{os, later, fresh, made, made_later}
use cppgenerics.Allocator.Construct.{construct, construct-allocate}
use cppgenerics.Allocator.{Allocator, allocate}
use cppgenerics.Allocator.Regions.{Allocated, allocate-Allocated}

abbrev eights : Allocator
eights = record {
  storage_key = [];
  model_key = [];
  elem_size = 8;
  model = record { num_elements = 10; num_units = 1; last_unit_bits = 10; units = λ _. 0x3fc };
  storage = λ _. 1;
}

allocate-Allocated_example :
    (out : Option ℕ × Allocator) × (allocate eights 3 ≡ BitBuffer.ok out) × Allocated eights 3 out
allocate-Allocated_example = allocate-Allocated eights 3 (omega arith) (omega arith)

-- An allocator of two elements on the buffers "A" and "B".
construct-allocate_example :
    (a a' : Allocator) × (construct 4 os later (65 ∷ []) (66 ∷ []) 8 16 (λ i. 0) (λ i. 0) fresh
      ≡ ok
          (record {
            storage_buffer = some made.0;
            model_buffer = some made_later.0;
            allocator = BitBuffer.ok a;
          })
          made_later.1)
    × ((storage made_later.1 (made.0).descriptor).ref_count ≡ 1)
    × ((storage made_later.1 (made_later.0).descriptor).ref_count ≡ 1)
    × ((new_bit_buffer (16 / 8) (λ i. 0)).num_units * unit_bytes ≡ (made_later.0).size)
    × (allocate a 2 ≡ BitBuffer.ok (some 0, a'))
unfolding get_size_bytes
construct-allocate_example =
    construct-allocate 3 4 8 16 2 0 1 4096 8192 os later (65 ∷ []) (66 ∷ []) (2 ∷ []) [] (λ i. 0)
      (λ i. 0) fresh made.1 made_later.1 made.0 made_later.0 made.2 made.3 made_later.2 made_later.3
      (omega arith) (omega arith)
