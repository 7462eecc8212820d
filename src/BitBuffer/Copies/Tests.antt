-- ===== src/BitBuffer/Copies/Tests.antt =====
-- A heap with one live block, owned by a buffer of ten elements.
use cppgenerics.Prelude.{ℕ, ◌<◌, ◌≡◌, refl, true, none, some, ◌==◌, if◌then◌else◌, arith}
use cppgenerics.BitBuffer.Copies.{Heap, Object, ok}
use cppgenerics.BitBuffer.Copies.Owned.{Owns, write_copy, write_original, copy_independent}

abbrev units : ℕ → ℕ
units i = 0x3ff

abbrev one_block : Heap
one_block = record { next = 1; block = λ q. if q == 0 then some units else none }

abbrev ten : Object
ten = record {
  num_elements = 10;
  num_units = 1;
  last_unit_bits = 10;
  storage = some 0;
  owns = true;
}

ten-Owns : Owns one_block ten 0 units
ten-Owns = record { owner = refl; points = refl; live = refl; below = omega arith }

copy_independent_example :
    (h1 h2 : Heap) × (write_copy ten (λ i. 0) one_block ≡ ok units h1)
    × ((q : ℕ) → q < 1 → h1.block q ≡ one_block.block q)
    × (h1.block 1 ≡ none)
    × ((kept : ℕ → ℕ) × (write_original ten (λ i. 0) one_block ≡ ok kept h2)
        × ((i : ℕ) → i < 1 → kept i ≡ units i))
    × (h2.block 0 ≡ none)
copy_independent_example = copy_independent one_block ten 0 units ten-Owns (λ i. 0)
