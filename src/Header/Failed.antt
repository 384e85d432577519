-- ===== src/Header/Failed.antt =====
-- `ErrorCode` and `ErrorHeader`.
pub mod Codes
pub mod Wire
use Prim.Native.Nat.{bit_or, bit_and}
use rust_tftp.Common.{
  ℕ, zero, suc, ◌+◌, ◌-◌, ◌*◌, ◌/◌, ◌%◌, ◌^◌, Bool, not, List, [], ◌∷◌, ◌++◌, ◌⊎◌, inl, inr, length,
  drop, replicate, ltb, ◌==◌, if◌then◌else◌,
}
use rust_tftp.Common.Bits.{as_u8, shl16, shr}
use rust_tftp.Common.Outcome.{Outcome, ok, err, panic, ◌>>=◌, ◌>>◌, ensure}
use rust_tftp.Common.Slices.{Bytes, index, store, copy_into}
use rust_tftp.Common.Text.{from_utf8, contains_nul}
use rust_tftp.Errors.{TftpError, invalid_string, invalid_header_len, invalid_unicode_string}
use rust_tftp.Header.Rw.{assert_byte}
use rust_tftp.Header.Types.{
  opcode_error, ErrorCode, undefined, file_not_found, access_violation, disk_full,
  illegal_operation, unknown_transfer_id, file_already_exists, no_such_user, ErrorHeader,
}

-- `error_code as u16`, the discriminants of the enumeration.
unfoldable pub discriminant : ErrorCode → ℕ
discriminant undefined = 0
discriminant file_not_found = 1
discriminant access_violation = 2
discriminant disk_full = 3
discriminant illegal_operation = 4
discriminant unknown_transfer_id = 5
discriminant file_already_exists = 6
discriminant no_such_user = 7

-- `mem::transmute::<u16, ErrorCode>`, which the caller makes below 8 only.
unfoldable pub transmute : ℕ → ErrorCode
transmute zero = undefined
transmute (suc zero) = file_not_found
transmute (suc (suc zero)) = access_violation
transmute (suc (suc (suc zero))) = disk_full
transmute (suc (suc (suc (suc zero)))) = illegal_operation
transmute (suc (suc (suc (suc (suc zero))))) = unknown_transfer_id
transmute (suc (suc (suc (suc (suc (suc zero)))))) = file_already_exists
transmute (suc (suc (suc (suc (suc (suc (suc n))))))) = no_such_user

-- `From<u16> for ErrorCode`
unfoldable pub error_code_from : ℕ → ErrorCode
unfolding transmute
error_code_from src = if ltb src 8 then transmute src else undefined

unfoldable pub new : ErrorCode → Bytes → Outcome TftpError ErrorHeader
unfolding contains_nul
new error_code error_message =
    if contains_nul error_message
    then err invalid_string
    else ok (record { error_code = error_code; error_message = error_message })

-- `while src[4 + i] != 0`, over `src[4 + i..]`.
unfoldable pub message_loop : Bytes → Bytes → Outcome TftpError Bytes
message_loop [] message = panic
message_loop (b ∷ rest) message =
    let more = message_loop rest (message ++ b ∷ []) in if b == 0 then ok message else more

-- `match String::from_utf8(error_message)`
unfoldable pub decode_message : ErrorCode → Bytes ⊎ Bytes → Outcome TftpError ErrorHeader
decode_message error_code (inr error_message) =
    ok (record { error_code = error_code; error_message = error_message })
decode_message error_code (inl e) = err (invalid_unicode_string e)

unfoldable pub from_raw : Bool → Bytes → Outcome TftpError ErrorHeader
from_raw debug src = do
  ensure (not (ltb (length src) 5)) invalid_header_len
  assert_byte debug src 1 opcode_error
  assert_byte debug src 0 0
  high ← index src 2
  low ← index src 3
  let error_code = error_code_from (bit_or (shl16 high 8) low)
  message ← message_loop (drop 4 src) []
  decode_message error_code (from_utf8 message)

-- `Into<RawRequest> for ErrorHeader`
unfoldable pub into_raw : ErrorHeader → Outcome TftpError Bytes
unfolding discriminant
into_raw h = do
  let len = length h.error_message + 5
  raw ← store (replicate len 0) 1 opcode_error
  raw ← store raw 2 (as_u8 (shr (discriminant h.error_code) 8))
  raw ← store raw 3 (as_u8 (bit_and (discriminant h.error_code) 0xff))
  raw ← copy_into raw 4 (4 + length h.error_message) h.error_message
  store raw (len - 1) 0
