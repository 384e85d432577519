-- ===== src/Header/BlockNumber/Codec.antt =====
-- Three bytes hold a block number below 2 ^ 24.
use rust_tftp.Common.{ℕ, ◌+◌, ◌*◌, ◌%◌, ◌^◌, ◌≡◌, ◌∙◌, arith}
use rust_tftp.Common.Bits.{as_u8, shl32, shr, zero-bit_or, bit_or-shifted}
use rust_tftp.Common.Slices.{IsByte}
use rust_tftp.Header.BlockNumber.{block_number_of}

-- Big-endian order, without overlap.
pub block_number_of_lem :
    (high middle low : ℕ)
    → IsByte high
    → IsByte middle
    → IsByte low
    → block_number_of high middle low ≡ high * 65536 + middle * 256 + low
unfolding block_number_of
block_number_of_lem high middle low h m l =
    let a : shl32 high 16 ≡ high * 65536 = omega arith in
    let b : shl32 middle 8 ≡ middle * 256 = omega arith in
    let c : high * 65536 + middle * 256 ≡ (high * 256 + middle) * 2 ^ 8 = omega arith in
    rw (a, b, zero-bit_or, bit_or-shifted 16 high (middle * 256) (omega arith))
      (rw c (bit_or-shifted 8 (high * 256 + middle) low l ∙ omega arith))

-- The three bytes that are written for `n` are read as `n` modulo 2 ^ 24.
pub block_number_of-bytes :
    (n : ℕ) → block_number_of (as_u8 (shr n 16)) (as_u8 (shr n 8)) (as_u8 n) ≡ n % 2 ^ 24
block_number_of-bytes n =
    block_number_of_lem (as_u8 (shr n 16)) (as_u8 (shr n 8)) (as_u8 n) (omega arith) (omega arith)
      (omega arith)
    ∙ omega arith
