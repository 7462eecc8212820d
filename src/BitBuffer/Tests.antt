-- ===== src/BitBuffer/Tests.antt =====
-- Buffers of 10 and of 64 elements, runs on them, and the theorems at them.
use cppgenerics.Prelude.{
  ℕ, ◌-◌, ◌%◌, ◌^◌, ◌<◌, ◌≡◌, refl, ◌∙◌, Bool-cases, inl, inr, Bool, true, false, if◌then◌else◌,
  ◌==◌, ltb, arith, pos, negsuc,
}
use cppgenerics.Bits.{test_bit, test_bit-ones}
use cppgenerics.BitBuffer.{ok, BitBuffer, get, set, init, find, new_bit_buffer, unit_bits, ◌>>=◌}
use cppgenerics.BitBuffer.GetSet.{IsPlain, get-test_bit, get-set}
use cppgenerics.BitBuffer.Find.{Reads, FirstRegion, find-FirstRegion}

-- Ten elements with the one at 3 taken, as in the repository's own test.
abbrev ten : BitBuffer
ten = record { num_elements = 10; num_units = 1; last_unit_bits = 10; units = λ _. 0x3f7 }

-- What init makes of ten elements, and a set of one of them.
ten_made :
    (init (new_bit_buffer 10 (λ _. 0)) >>= λ b. set b 3 false)
    ≡ ok (record ten {
      units = λ i.
          if 0 == i then 0x3f7 else (if 0 == i then 0x3ff else (if ltb i 1 then 2 ^ 64 - 1 else 0));
    })
unfolding init new_bit_buffer set
ten_made = refl

find_3 : find ten 3 ≡ ok (pos 0)
unfolding find get
find_3 = refl

find_5 : find ten 5 ≡ ok (pos 4)
unfolding find get
find_5 = refl

find_7 : find ten 7 ≡ ok (negsuc 0)
unfolding find get
find_7 = refl

abbrev bits_of_ten : ℕ → Bool
bits_of_ten i = test_bit 0x3f7 (i % unit_bits)

ten-IsPlain : (i : ℕ) → i < 10 → IsPlain ten i
ten-IsPlain i h = record { inside = h; size = omega arith; low = omega arith }

ten-Reads : Reads ten bits_of_ten
ten-Reads i h = get-test_bit ten i (ten-IsPlain i h)

find-FirstRegion_example : FirstRegion ten bits_of_ten 5 (find ten 5)
find-FirstRegion_example = find-FirstRegion ten bits_of_ten 5 ten-Reads (omega arith) (omega arith)

get-set_example :
    (b' : BitBuffer) × (set ten 3 true ≡ ok b')
    × (b'.num_elements ≡ 10)
    × ((j : ℕ) → IsPlain ten j → get b' j ≡ (if 3 == j then ok true else get ten j))
get-set_example = get-set ten 3 true (ten-IsPlain 3 (omega arith))

-- One unit, every element free.
abbrev one_unit : BitBuffer
one_unit = record { num_elements = 64; num_units = 1; last_unit_bits = 0; units = λ _. 2 ^ 64 - 1 }

bit_31 : get one_unit 31 ≡ ok true
unfolding get
bit_31 = refl

one_unit-free : (i : ℕ) → i < 32 → get one_unit i ≡ ok true
one_unit-free i h = elim (Bool-cases (i == 31)) [
  | inl last ↦ let e : i ≡ 31 = ground arith in rw e bit_31
  | inr low ↦
      get-test_bit one_unit i
        (record { inside = omega arith; size = omega arith; low = ground arith })
      ∙ ground (arith, test_bit-ones 64 (i % 64))
]
