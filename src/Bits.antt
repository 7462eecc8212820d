-- ===== src/Bits.antt =====
-- Bits of a number, for the 64-bit units of BitBuffer (src/BitBuffer.cpp).
mod Digits
mod Masks
unfoldable pub use Digits.{test_bit}
pub use Digits.{test_bit-bit_and, test_bit-bit_or, test_bit-complement}
pub use Masks.{
  pow-pos, pow-lt, test_bit-zero, test_bit-pow, test_bit-ones, bit_and-pow, bit_or-lt, bit_and-lt,
}
