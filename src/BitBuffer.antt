-- ===== src/BitBuffer.antt =====
-- BitBuffer: include/cppgenerics/BitBuffer.h and src/BitBuffer.cpp. A storeUnit_t is a 64-bit ulong
-- and the storage a function of the unit's index. An access may throw, or be undefined: the code
-- shifts the 32-bit int 1 (or FREE_BIT), which C++ defines for shifts below 32 alone.
mod Tests
pub mod GetSet
pub mod Init
pub mod Find
pub mod Copies
use Prim.Native.Nat.{bit_and, bit_or}
use cppgenerics.Prelude.{
  ℕ, zero, suc, ◌+◌, ◌-◌, ◌*◌, ◌/◌, ◌%◌, ◌^◌, Bool, true, false, not, ◌&&◌, Option, none, some,
  if◌then◌else◌, ◌==◌, ltb, write, ℤ, pos, negsuc, to_int,
}

-- The result of an access: `logic_error` is the exception of checkIdx and checkNumber.
pub data Access {ℓ} (A : Type ℓ) : Type ℓ where
  ok : A → Access A
  logic_error : Access A
  undefined : Access A

infixl 5 ◌>>=◌ ◌>>◌
abbrev pub ◌>>=◌ {ℓ κ} : {A : Type ℓ} {B : Type κ} → Access A → (A → Access B) → Access B
ok a >>= f = f a
logic_error >>= f = logic_error
undefined >>= f = undefined

abbrev pub ◌>>◌ {ℓ} : {B : Type ℓ} → Access (Unit {0}) → Access B → Access B
c >> k = c >>= λ _. k

-- `c_unitBytes` and `c_unitBits`.
abbrev pub unit_bytes : ℕ
unit_bytes = 8

abbrev pub unit_bits : ℕ
unit_bits = 64

abbrev pub size_t : ℕ → ℕ
size_t n = n % 2 ^ 64

pub record BitBuffer : Type 0 where
  pub num_elements : ℕ
  pub num_units : ℕ
  pub last_unit_bits : ℕ
  pub units : ℕ → ℕ

-- BitBuffer::getSizeBytes.
unfoldable pub get_size_bytes : ℕ → ℕ
get_size_bytes num_elems =
    let out = num_elems / (unit_bytes * 8) in
    let out' = if num_elems % (unit_bytes * 8) == 0 then out else out + 1 in
    size_t (out' * unit_bytes)

-- BitBuffer::BitBuffer(size_t, void*), over storage that it is given or will allocate.
unfoldable pub new_bit_buffer : ℕ → (ℕ → ℕ) → BitBuffer
new_bit_buffer n storage =
    let whole = n / unit_bits in
    let last = n % unit_bits in
    record {
      num_elements = n;
      num_units = if last == 0 then whole else whole + 1;
      last_unit_bits = last;
      units = storage;
    }

-- `1 << k` as an int, converted to ulong: 1 << 31 is the least int, which is sign-extended.
unfoldable pub int_shl : ℕ → Access ℕ
int_shl k = if ltb k 31 then ok (2 ^ k) else if k == 31 then ok (2 ^ 64 - 2 ^ 31) else undefined

-- BitBuffer::checkIdx: `m_numElements - 1` is a size_t.
unfoldable pub check_idx : BitBuffer → ℕ → Access (Unit {0})
check_idx b idx = if ltb (size_t (b.num_elements + 2 ^ 64 - 1)) idx then logic_error else ok tt

-- BitBuffer::checkNumber.
unfoldable pub check_number : BitBuffer → ℕ → Access (Unit {0})
check_number b num = if ltb b.num_elements num then logic_error else ok tt

-- BitBuffer::get.
unfoldable pub get : BitBuffer → ℕ → Access Bool
unfolding check_idx int_shl
get b idx = do
  check_idx b idx
  mask ← int_shl (idx % unit_bits)
  ok (not (bit_and (b.units (idx / unit_bits)) mask == 0))

-- BitBuffer::set. `~` of the int is converted like the int.
unfoldable pub set : BitBuffer → ℕ → Bool → Access BitBuffer
unfolding check_idx int_shl
set b idx val = do
  check_idx b idx
  mask ← int_shl (idx % unit_bits)
  let i = idx / unit_bits
  let old = b.units i
  let new = if val then bit_or old mask else bit_and old (2 ^ 64 - 1 - mask)
  ok (record b { units = write b.units i new })

-- The loop of init over the bits of the last unit: `lastUnit |= FREE_BIT << i`.
unfoldable pub last_unit : ℕ → Access ℕ
unfolding int_shl
last_unit zero = ok 0
last_unit (suc i) = do unit ← last_unit i; mask ← int_shl i; ok (bit_or unit mask)

-- BitBuffer::init, with memset of 0xFF and the last unit adjusted.
unfoldable pub init : BitBuffer → Access BitBuffer
unfolding last_unit
init b =
    let full : ℕ → ℕ = λ j. if ltb j b.num_units then 2 ^ 64 - 1 else b.units j in
    if b.last_unit_bits == 0 then ok (record b { units = full }) else do
      last ← last_unit b.last_unit_bits
      ok (record b { units = write full (b.num_units - 1) last })

-- The loop of find, with its rounds left, foundNum, foundUnitIdx + 1 and curIdx.
unfoldable pub find_loop : BitBuffer → ℕ → ℕ → ℕ → ℕ → ℕ → Access (ℕ × ℕ)
find_loop b num zero found after cur = ok (found, after)
find_loop b num (suc rounds) found after cur =
    let next : Access (ℕ × ℕ) = do
      free ← get b cur
      find_loop b num rounds (if free then found + 1 else 0) (if free then cur + 1 else after)
          (cur + 1)
    in if ltb found num then next else ok (found, after)

-- BitBuffer::find; the result passes through an int.
unfoldable pub find : BitBuffer → ℕ → Access ℤ
unfolding check_number find_loop
find b num = do
  check_number b num
  (found, after) ← find_loop b num b.num_elements 0 0 0
  ok (if found == num then to_int (after + 2 ^ 64 - num) else negsuc 0)
