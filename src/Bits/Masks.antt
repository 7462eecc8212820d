-- ===== src/Bits/Masks.antt =====
-- The masks of one bit and of all bits.
use Prim.Native.Nat.{bit_and, bit_or, bit_and-bitwise}
use native.Mathlib.Nat.{pow-suc}
use cppgenerics.Prelude.{
  ℕ, zero, suc, ◌-◌, ◌/◌, ◌%◌, ◌^◌, ◌≤◌, ◌<◌, ◌≡◌, refl, ◌∙◌, false, ◌==◌, if◌then◌else◌, ltb,
  arith,
}
use cppgenerics.Bits.Digits.{test_bit, bit_and_half, bit_or_half}

pub test_bit-zero : (k : ℕ) → test_bit 0 k ≡ false
unfolding test_bit
test_bit-zero zero = refl
test_bit-zero (suc k) = test_bit-zero k

pub test_bit-pow : (i k : ℕ) → test_bit (2 ^ i) k ≡ (i == k)
unfolding test_bit
test_bit-pow zero zero = refl
test_bit-pow zero (suc k) = ground (arith, test_bit-zero k)
test_bit-pow (suc i) zero = ground (arith, pow-suc 2 i)
test_bit-pow (suc i) (suc k) =
    let half : 2 ^ suc i / 2 ≡ 2 ^ i = omega (arith, pow-suc 2 i) in
    rw half (ground (arith, test_bit-pow i k))

pub pow-pos : (w : ℕ) → 0 < 2 ^ w
pow-pos zero = omega arith
pow-pos (suc w) = omega (arith, pow-suc 2 w, pow-pos w)

pub pow-lt : (k w : ℕ) → k < w → 2 ^ k < 2 ^ w
pow-lt k zero h = absurd (omega arith)
pow-lt zero (suc w) h = omega (arith, pow-suc 2 w, pow-pos w)
pow-lt (suc k) (suc w) h = omega (arith, pow-suc 2 w, pow-suc 2 k, pow-lt k w (omega arith))

pub test_bit-ones : (w k : ℕ) → test_bit (2 ^ w - 1) k ≡ ltb k w
unfolding test_bit
test_bit-ones zero zero = refl
test_bit-ones zero (suc k) = ground (arith, test_bit-zero k)
test_bit-ones (suc w) zero = ground (arith, pow-suc 2 w, pow-pos w)
test_bit-ones (suc w) (suc k) =
    let half : (2 ^ suc w - 1) / 2 ≡ 2 ^ w - 1 = omega (arith, pow-suc 2 w, pow-pos w) in
    rw half (ground (arith, test_bit-ones w k))

bit_and-zero_below : (n u : ℕ) → u ≤ n → bit_and u 0 ≡ 0
bit_and-zero_below zero u h = let e : u ≡ 0 = omega arith in rw e
bit_and-zero_below (suc n) zero h = refl
bit_and-zero_below (suc n) (suc u) h =
    omega (arith, bit_and_half (suc u) 0, bit_and-zero_below n (suc u / 2) (omega arith))

-- `w & (1 << k)` is the bit, in its place.
pub bit_and-pow : (k w : ℕ) → bit_and w (2 ^ k) ≡ (if test_bit w k then 2 ^ k else 0)
unfolding test_bit
bit_and-pow zero w =
    ground (arith, bit_and_half w 1, bit_and-zero_below (w / 2) (w / 2) (omega arith))
bit_and-pow (suc k) w =
    let half : 2 ^ suc k / 2 ≡ 2 ^ k = omega (arith, pow-suc 2 k) in
    let even : 2 ^ suc k % 2 ≡ 0 = omega (arith, pow-suc 2 k) in
    bit_and_half w (2 ^ suc k)
    ∙ rw (half, even) (ground (arith, bit_and-pow k (w / 2), pow-suc 2 k))

pub bit_or-lt : (w u v : ℕ) → u < 2 ^ w → v < 2 ^ w → bit_or u v < 2 ^ w
bit_or-lt zero u v p q =
    let e : u ≡ 0 = omega arith in let f : v ≡ 0 = omega arith in rw (e, f) (omega arith)
bit_or-lt (suc w) u v p q = omega (
  arith,
  bit_or_half u v,
  pow-suc 2 w,
  bit_or-lt w (u / 2) (v / 2) (omega (arith, pow-suc 2 w)) (omega (arith, pow-suc 2 w)),
)

pub bit_and-lt : (w u v : ℕ) → u < 2 ^ w → bit_and u v < 2 ^ w
bit_and-lt zero u v p = let e : u ≡ 0 = omega arith in rw e (omega (arith, bit_and-bitwise 0 v))
bit_and-lt (suc w) u v p = omega (
  arith,
  bit_and_half u v,
  pow-suc 2 w,
  bit_and-lt w (u / 2) (v / 2) (omega (arith, pow-suc 2 w)),
)
