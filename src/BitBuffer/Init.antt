-- ===== src/BitBuffer/Init.antt =====
-- The sizes of BitBuffer and BitBuffer::init of src/BitBuffer.cpp.
use Prim.Native.Nat.{bit_or}
use cppgenerics.Prelude.{
  ℕ, zero, suc, ◌+◌, ◌-◌, ◌*◌, ◌%◌, ◌^◌, ◌≤◌, ◌<◌, ◌≡◌, refl, ◌∙◌, true, false, if◌then◌else◌, ◌==◌,
  ltb, write, arith, Bool-cases, inl, inr,
}
use cppgenerics.Bits.{test_bit, test_bit-bit_or, test_bit-pow, test_bit-ones, test_bit-zero}
use cppgenerics.BitBuffer.{
  ok, undefined, BitBuffer, unit_bits, unit_bytes, int_shl, get, get_size_bytes, new_bit_buffer,
  last_unit, init,
}
use cppgenerics.BitBuffer.GetSet.{IsPlain, get-test_bit}

-- For fewer than 2 ^ 63 elements, getSizeBytes is the size of the units that the constructor
-- counts: the least number of whole units with a bit for each element.
get_size_bytes-units :
    (n : ℕ) (storage : ℕ → ℕ)
    → n < 2 ^ 63
    → (get_size_bytes n ≡ (new_bit_buffer n storage).num_units * unit_bytes)
      × (n ≤ get_size_bytes n * 8)
      × (get_size_bytes n * 8 < n + unit_bits)
unfolding get_size_bytes new_bit_buffer
get_size_bytes-units n storage small = (ground arith, ground arith, ground arith)

last_unit-ones :
    (n : ℕ) → n ≤ 31 → (u : ℕ) × (last_unit n ≡ ok u) × ((k : ℕ) → test_bit u k ≡ ltb k n)
unfolding last_unit int_shl
last_unit-ones zero small = (0, refl, λ k. ground (arith, test_bit-zero k))
last_unit-ones (suc n) small =
    let (u, made, bits) = last_unit-ones n (omega arith) in
    (
      bit_or u (2 ^ n),
      rw made (ground arith),
      λ k. ground (arith, bits k, test_bit-bit_or k u (2 ^ n), test_bit-pow n k),
    )

-- Where the last unit has at most 31 elements, init of a new buffer returns, and get of every plain
-- index then gives true, which is free.
pub init-free :
    (n : ℕ) (storage : ℕ → ℕ)
    → n % unit_bits ≤ 31
    → (b : BitBuffer) × (init (new_bit_buffer n storage) ≡ ok b)
      × (b.num_elements ≡ n)
      × ((idx : ℕ) → IsPlain b idx → get b idx ≡ ok true)
unfolding init new_bit_buffer
init-free n storage small =
    let nb : BitBuffer = new_bit_buffer n storage in
    let full : ℕ → ℕ = λ j. if ltb j nb.num_units then 2 ^ 64 - 1 else storage j in
    let (u, made, bits) = last_unit-ones (n % 64) small in
    elim (Bool-cases (n % 64 == 0)) [
      | inl whole ↦ (
        record nb { units = full },
        rw whole refl,
        refl,
        λ idx p.
            get-test_bit (record nb { units = full }) idx p
            ∙ ground (arith, p.inside, p.low, test_bit-ones 64 (idx % 64)),
      )
      | inr part ↦ (
        record nb { units = write full (nb.num_units - 1) u },
        rw (part, made) refl,
        refl,
        λ idx p.
            get-test_bit (record nb { units = write full (nb.num_units - 1) u }) idx p
            ∙ ground (arith, p.inside, p.low, test_bit-ones 64 (idx % 64), bits (idx % 64)),
      )
    ]

last_unit-all_ones : last_unit 32 ≡ ok (2 ^ 64 - 1)
unfolding last_unit
last_unit-all_ones = refl

last_unit-undefined : (n : ℕ) → 33 ≤ n → last_unit n ≡ undefined
unfolding last_unit int_shl
last_unit-undefined zero wide = absurd (omega arith)
last_unit-undefined (suc n) wide = elim (Bool-cases (n == 32)) [
  | inl first ↦ let e : n ≡ 32 = ground arith in rw e refl
  | inr later ↦ rw (last_unit-undefined n (ground arith)) refl
]

-- With 33 elements or more in the last unit, init is undefined.
pub init-undefined :
    (n : ℕ) (storage : ℕ → ℕ) → 33 ≤ n % unit_bits → init (new_bit_buffer n storage) ≡ undefined
unfolding init new_bit_buffer
init-undefined n storage wide =
    let part : (n % 64 == 0) ≡ false = ground arith in
    rw part (rw (last_unit-undefined (n % 64) wide))
