-- ===== src/BitBuffer/GetSet.antt =====
-- BitBuffer::get and BitBuffer::set of src/BitBuffer.cpp, where the shift is defined and positive.
use Prim.Native.Nat.{bit_and, bit_or}
use cppgenerics.Prelude.{
  ℕ, ◌-◌, ◌/◌, ◌%◌, ◌^◌, ◌≤◌, ◌<◌, ◌≡◌, refl, ap, ◌∙◌, Bool, true, false, not, if◌then◌else◌, ◌==◌,
  ltb, write, arith,
}
use cppgenerics.Bits.{
  test_bit, test_bit-bit_and, test_bit-bit_or, test_bit-complement, test_bit-pow, bit_and-pow,
  pow-pos, pow-lt, test_bit-ones,
}
use cppgenerics.BitBuffer.{
  ok, logic_error, undefined, BitBuffer, unit_bits, int_shl, check_idx, get, set,
}

-- An index of the buffer whose bit lies below bit 31 of its unit.
pub record IsPlain (b : BitBuffer) (idx : ℕ) : Type 0 where
  pub inside : idx < b.num_elements
  pub size : b.num_elements < 2 ^ 64
  pub low : idx % unit_bits < 31

int_shl-low : (k : ℕ) → k < 31 → int_shl k ≡ ok (2 ^ k)
unfolding int_shl
int_shl-low k h = ground arith

check_idx-ok :
    (b : BitBuffer) (idx : ℕ)
    → idx < b.num_elements
    → b.num_elements < 2 ^ 64
    → check_idx b idx ≡ ok tt
unfolding check_idx
check_idx-ok b idx inside size = ground arith

nonzero : (w k : ℕ) → not (bit_and w (2 ^ k) == 0) ≡ test_bit w k
nonzero w k = ground (arith, bit_and-pow k w, pow-pos k)

-- get is the bit.
pub get-test_bit :
    (b : BitBuffer) (idx : ℕ)
    → IsPlain b idx
    → get b idx ≡ ok (test_bit (b.units (idx / unit_bits)) (idx % unit_bits))
unfolding get
get-test_bit b idx p =
    rw (check_idx-ok b idx p.inside p.size, int_shl-low (idx % 64) p.low) (ap ok (nonzero _ _))

-- The unit that set writes.
abbrev pub changed : ℕ → ℕ → Bool → ℕ
changed u k val = if val then bit_or u (2 ^ k) else bit_and u (2 ^ 64 - 1 - 2 ^ k)

pub set-changed :
    (b : BitBuffer) (idx : ℕ) (val : Bool)
    → IsPlain b idx
    → set b idx val
      ≡ ok (record b {
        units =
            write b.units
              (idx / unit_bits)
              (changed (b.units (idx / unit_bits)) (idx % unit_bits) val);
      })
unfolding set
set-changed b idx val p = rw (check_idx-ok b idx p.inside p.size, int_shl-low (idx % 64) p.low) refl

test_bit-changed :
    (u k j : ℕ) (val : Bool)
    → k < 31
    → j < 31
    → test_bit (changed u k val) j ≡ (if k == j then val else test_bit u j)
test_bit-changed u k j true hk hj = ground (arith, test_bit-bit_or j u (2 ^ k), test_bit-pow k j)
test_bit-changed u k j false hk hj =
    let fits : 2 ^ k < 2 ^ 64 = pow-lt k 64 (omega arith) in
    let kept : test_bit (2 ^ 64 - 1 - 2 ^ k) j ≡ not (k == j) =
      test_bit-complement 64 j (2 ^ k) (omega arith) fits ∙ ap not (test_bit-pow k j) in
    rw (test_bit-bit_and j u (2 ^ 64 - 1 - 2 ^ k), kept) (ground arith)

-- set at a plain index returns a buffer of as many elements, of which get at any plain index gives
-- the value set, at that index, and what it gave before elsewhere.
pub get-set :
    (b : BitBuffer) (i : ℕ) (val : Bool)
    → IsPlain b i
    → (b' : BitBuffer) × (set b i val ≡ ok b')
      × (b'.num_elements ≡ b.num_elements)
      × ((j : ℕ) → IsPlain b j → get b' j ≡ (if i == j then ok val else get b j))
get-set b i val p =
    let u : ℕ = changed (b.units (i / 64)) (i % 64) val in
    let b' : BitBuffer = record b { units = write b.units (i / 64) u } in
    (
      b',
      set-changed b i val p,
      refl,
      λ j q.
          let p' : IsPlain b' j = record { inside = q.inside; size = q.size; low = q.low } in
          ground (
            arith,
            get-test_bit b' j p',
            get-test_bit b j q,
            test_bit-changed (b.units (i / 64)) (i % 64) (j % 64) val p.low q.low,
          ),
    )

-- An index outside the buffer is refused by both.
pub outside-logic_error :
    (b : BitBuffer) (idx : ℕ) (val : Bool)
    → 0 < b.num_elements
    → b.num_elements < 2 ^ 64
    → b.num_elements ≤ idx
    → (get b idx ≡ logic_error) × (set b idx val ≡ logic_error)
unfolding get set check_idx
outside-logic_error b idx val some_elements size out = (ground arith, ground arith)

-- At an index inside a buffer of fewer than 2 ^ 64 elements whose bit in its unit is 32 or higher,
-- get and set are undefined: they shift an int.
pub high-undefined :
    (b : BitBuffer) (idx : ℕ) (val : Bool)
    → idx < b.num_elements
    → b.num_elements < 2 ^ 64
    → 32 ≤ idx % unit_bits
    → (get b idx ≡ undefined) × (set b idx val ≡ undefined)
unfolding get set int_shl
high-undefined b idx val inside size high = (
  rw (check_idx-ok b idx inside size) (ground arith),
  rw (check_idx-ok b idx inside size) (ground arith),
)

sign_mask : (j : ℕ) → j < 64 → test_bit (2 ^ 64 - 2 ^ 31) j ≡ not (ltb j 31)
sign_mask j h = test_bit-complement 64 j (2 ^ 31 - 1) h (omega arith) ∙ ap not (test_bit-ones 31 j)

-- Setting bit 31 of a unit sets bits 32 to 63 too: 1 << 31 is negative, and is sign-extended.
pub set-sign_extends :
    (b : BitBuffer) (idx : ℕ)
    → idx < b.num_elements
    → b.num_elements < 2 ^ 64
    → idx % unit_bits ≡ 31
    → (b' : BitBuffer) × (set b idx true ≡ ok b')
      × ((j : ℕ) → 31 ≤ j → j < 64 → test_bit (b'.units (idx / unit_bits)) j ≡ true)
unfolding set int_shl
set-sign_extends b idx inside size high =
    let mask : ℕ = 2 ^ 64 - 2 ^ 31 in
    let u : ℕ = b.units (idx / 64) in
    (
      record b { units = write b.units (idx / 64) (bit_or u mask) },
      rw (check_idx-ok b idx inside size) (rw high),
      λ j lo hi. ground (arith, test_bit-bit_or j u mask, sign_mask j hi),
    )
