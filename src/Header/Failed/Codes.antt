-- ===== src/Header/Failed/Codes.antt =====
-- Error codes as numbers.
use Prim.Native.Nat.{bit_or, bit_and}
use rust_tftp.Common.{ℕ, ◌+◌, ◌*◌, ◌^◌, ◌≤◌, ◌≡◌, refl, arith, le→ltb}
use rust_tftp.Common.Bits.{as_u8, shl16, shr, bit_or-shifted}
use rust_tftp.Common.Slices.{IsByte}
use rust_tftp.Header.Failed.{discriminant, error_code_from}
use rust_tftp.Header.Types.{
  ErrorCode, undefined, file_not_found, access_violation, disk_full, illegal_operation,
  unknown_transfer_id, file_already_exists, no_such_user,
}

-- The bytes 2 and 3 that `into` writes for a code, as they are written and as they are read.
pub error_code_from-bytes :
    (c : ErrorCode)
    → error_code_from
        (bit_or (shl16 (as_u8 (shr (discriminant c) 8)) 8) (as_u8 (bit_and (discriminant c) 0xff)))
      ≡ c
unfolding discriminant error_code_from
error_code_from-bytes undefined = refl
error_code_from-bytes file_not_found = refl
error_code_from-bytes access_violation = refl
error_code_from-bytes disk_full = refl
error_code_from-bytes illegal_operation = refl
error_code_from-bytes unknown_transfer_id = refl
error_code_from-bytes file_already_exists = refl
error_code_from-bytes no_such_user = refl

-- A number that is no code stands for `undefined`.
pub error_code_from_large : (n : ℕ) → 8 ≤ n → error_code_from n ≡ undefined
unfolding error_code_from
error_code_from_large n h = rw (le→ltb n 8 h)

pub error_code_word :
    (high low : ℕ) → IsByte high → IsByte low → bit_or (shl16 high 8) low ≡ high * 256 + low
error_code_word high low h l =
    let a : shl16 high 8 ≡ high * 2 ^ 8 = omega arith in
    rw (a, bit_or-shifted 8 high low l) (omega arith)
