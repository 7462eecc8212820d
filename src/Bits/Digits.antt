-- ===== src/Bits/Digits.antt =====
-- The bit operations, one binary digit at a time.
use Prim.Native.Nat.{min, max, bit_and, bit_or, digits, bitwise, bit_and-bitwise, bit_or-bitwise}
use native.Mathlib.Nat.{pow-suc}
use cppgenerics.Prelude.{
  ℕ, zero, suc, ◌+◌, ◌-◌, ◌*◌, ◌/◌, ◌%◌, ◌^◌, ◌≤◌, ◌<◌, ◌≡◌, refl, Bool, not, ◌&&◌, ◌||◌, ◌==◌,
  arith,
}

-- Bit k of a number.
unfoldable pub test_bit : ℕ → ℕ → Bool
test_bit w zero = w % 2 == 1
test_bit w (suc k) = test_bit (w / 2) k

module _ (z : ℕ → ℕ) (op : ℕ → ℕ → ℕ) where
  -- More fuel than the first number needs does not count.
  same_digits : (k l u v : ℕ) → u ≤ k → u ≤ l → digits z op k u v ≡ digits z op l u v
  same_digits zero zero u v below under = refl
  same_digits zero (suc l) zero v below under = refl
  same_digits (suc k) zero zero v below under = refl
  same_digits (suc k) (suc l) zero v below under = refl
  same_digits zero (suc l) (suc u) v below under = absurd (omega arith)
  same_digits (suc k) zero (suc u) v below under = absurd (omega arith)
  same_digits (suc k) (suc l) (suc u) v below under =
      rw (same_digits k l (suc u / 2) (v / 2) (omega arith) (omega arith))

  bitwise_half :
      (u v : ℕ)
      → bitwise z op (suc u) v ≡ bitwise z op (suc u / 2) (v / 2) * 2 + op (suc u % 2) (v % 2)
  bitwise_half u v =
      omega (arith, same_digits u (suc u / 2) (suc u / 2) (v / 2) (omega arith) (omega arith))

pub bit_and_half : (u v : ℕ) → bit_and u v ≡ bit_and (u / 2) (v / 2) * 2 + min (u % 2) (v % 2)
bit_and_half zero v = simp bit_and-bitwise (omega arith)
bit_and_half (suc u) v = simp bit_and-bitwise (bitwise_half (λ _. 0) min u v)

pub bit_or_half : (u v : ℕ) → bit_or u v ≡ bit_or (u / 2) (v / 2) * 2 + max (u % 2) (v % 2)
bit_or_half zero v = simp bit_or-bitwise (omega arith)
bit_or_half (suc u) v = simp bit_or-bitwise (bitwise_half (λ n. n) max u v)

-- The two equations that the halves of an operation give.
and_low : (u v : ℕ) → bit_and u v % 2 ≡ min (u % 2) (v % 2)
and_low u v = omega (arith, bit_and_half u v)

and_high : (u v : ℕ) → bit_and u v / 2 ≡ bit_and (u / 2) (v / 2)
and_high u v = omega (arith, bit_and_half u v)

or_low : (u v : ℕ) → bit_or u v % 2 ≡ max (u % 2) (v % 2)
or_low u v = omega (arith, bit_or_half u v)

or_high : (u v : ℕ) → bit_or u v / 2 ≡ bit_or (u / 2) (v / 2)
or_high u v = omega (arith, bit_or_half u v)

pub test_bit-bit_and : (k u v : ℕ) → test_bit (bit_and u v) k ≡ (test_bit u k && test_bit v k)
unfolding test_bit
test_bit-bit_and zero u v = ground (arith, and_low u v)
test_bit-bit_and (suc k) u v = rw (and_high u v) (test_bit-bit_and k (u / 2) (v / 2))

pub test_bit-bit_or : (k u v : ℕ) → test_bit (bit_or u v) k ≡ (test_bit u k || test_bit v k)
unfolding test_bit
test_bit-bit_or zero u v = ground (arith, or_low u v)
test_bit-bit_or (suc k) u v = rw (or_high u v) (test_bit-bit_or k (u / 2) (v / 2))

-- ~x of a w-bit number is 2 ^ w - 1 - x.
pub test_bit-complement :
    (w k x : ℕ) → k < w → x < 2 ^ w → test_bit (2 ^ w - 1 - x) k ≡ not (test_bit x k)
unfolding test_bit
test_bit-complement zero k x below fits = absurd (omega arith)
test_bit-complement (suc w) zero x below fits = ground (arith, pow-suc 2 w)
test_bit-complement (suc w) (suc k) x below fits =
    let half : (2 ^ suc w - 1 - x) / 2 ≡ 2 ^ w - 1 - x / 2 = omega (arith, pow-suc 2 w) in
    rw half (test_bit-complement w k (x / 2) (omega arith) (omega (arith, pow-suc 2 w)))
