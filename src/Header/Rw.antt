-- ===== src/Header/Rw.antt =====
-- `RWHeader`: read and write requests.
pub mod Loops
pub mod Wire
pub mod Malformed
pub mod Sound
use rust_tftp.Common.{
  ℕ, ◌+◌, Bool, true, false, not, List, [], ◌∷◌, ◌++◌, Option, none, some, ◌⊎◌, inl, inr, length,
  drop, replicate, ltb, ◌==◌, if◌then◌else◌,
}
use rust_tftp.Common.Outcome.{Outcome, ok, err, panic, ◌>>=◌, ◌>>◌, ensure, debug_assert}
use rust_tftp.Common.Slices.{Bytes, index, store, copy_into}
use rust_tftp.Common.Text.{from_utf8, contains_nul}
use rust_tftp.Errors.{
  TftpError, invalid_filename, empty_filename, empty_mode, invalid_mode, invalid_header_len,
  invalid_unicode_string,
}
use rust_tftp.Header.Types.{RwMode, from_str, mode_bytes, RequestType, request_opcode, RwHeader}

-- `debug_assert!(src[i] == v)`: a release build does not even read the byte.
abbrev pub assert_byte : Bool → Bytes → ℕ → ℕ → Outcome TftpError (Unit {0})
assert_byte true src i v = do b ← index src i; debug_assert true (b == v)
assert_byte false src i v = ok tt

abbrev pub assert_nonzero : Bool → Bytes → ℕ → Outcome TftpError (Unit {0})
assert_nonzero true src i = do b ← index src i; debug_assert true (not (b == 0))
assert_nonzero false src i = ok tt

unfoldable pub new : (t : RequestType) → Bytes → RwMode → Outcome TftpError (RwHeader t)
unfolding contains_nul
new t filename mode =
    if contains_nul filename
    then err (invalid_filename filename)
    else ok (record { filename = filename; mode = mode })

-- The loop over the filename. The second argument is `src[i..]`; the result is the filename and
-- what stands behind its NUL. `i == src.len()` is the case where nothing follows.
unfoldable pub filename_loop : Bytes → Bytes → Bytes → Outcome TftpError (Bytes × Bytes)
filename_loop src [] filename = panic
filename_loop src (b ∷ []) filename =
    if b == 0 then ok (filename, []) else err (invalid_filename src)
filename_loop src (b ∷ c ∷ rest) filename =
    let more = filename_loop src (c ∷ rest) (filename ++ b ∷ []) in
    if b == 0 then ok (filename, c ∷ rest) else more

-- The loop over the mode. It reads `src[i]` before it tests `src.len() <= i`, so the end of the
-- input is an index out of range, and the test cannot hold.
unfoldable pub mode_loop : Bytes → Bytes → Outcome TftpError Bytes
mode_loop [] mode = panic
mode_loop (b ∷ rest) mode =
    let more = mode_loop rest (mode ++ b ∷ []) in if b == 0 then ok mode else more

-- `match (String::from_utf8(filename), String::from_utf8(mode))`
unfoldable pub decode_strings :
    (t : RequestType) → Bytes → Bytes ⊎ Bytes → Bytes ⊎ Bytes → Outcome TftpError (RwHeader t)
decode_strings t src (inl e) _ = err (invalid_unicode_string e)
decode_strings t src (inr filename) (inl e) = err (invalid_unicode_string e)
decode_strings t src (inr filename) (inr mode_string) = elim (from_str mode_string) [
  | some mode ↦ ok (record { filename = filename; mode = mode })
  | none ↦ err (invalid_mode src)
]

-- `RWHeader::from_raw` behind its two assertions.
unfoldable pub parse_request : (t : RequestType) → Bytes → Outcome TftpError (RwHeader t)
parse_request t src = do
  ensure (not (ltb (length src) 6)) invalid_header_len
  first ← index src 2
  ensure (not (first == 0)) empty_filename
  (filename, rest) ← filename_loop src (drop 2 src) []
  mode ← mode_loop rest []
  ensure (not (length mode == 0)) empty_mode
  decode_strings t src (from_utf8 filename) (from_utf8 mode)

unfoldable pub from_raw : Bool → (t : RequestType) → Bytes → Outcome TftpError (RwHeader t)
from_raw debug t src = do
  assert_byte debug src 0 0
  assert_byte debug src 1 (request_opcode t)
  parse_request t src

-- `Into<RawRequest> for RWHeader<T>`
unfoldable pub into_raw : Bool → (t : RequestType) → RwHeader t → Outcome TftpError Bytes
unfolding mode_bytes
into_raw debug t h = do
  let mode_slice = mode_bytes h.mode
  let len = 4 + length h.filename + length mode_slice
  raw ← store (replicate len 0) 0 0
  raw ← store raw 1 (request_opcode t)
  raw ← copy_into raw 2 (length h.filename + 2) h.filename
  let i = 2 + length h.filename
  raw ← store raw i 0
  assert_nonzero debug raw 2
  raw ← copy_into raw (i + 1) (i + 1 + length mode_slice) mode_slice
  store raw (i + 1 + length mode_slice) 0
