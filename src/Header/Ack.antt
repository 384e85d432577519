-- ===== src/Header/Ack.antt =====
-- `AckHeader`.
pub mod RoundTrip
use rust_tftp.Common.{
  ℕ, ◌+◌, ◌-◌, ◌*◌, ◌/◌, ◌%◌, ◌^◌, Bool, not, List, [], ◌∷◌, ◌++◌, length, replicate, min, ltb,
}
use rust_tftp.Common.Bits.{as_u8, shl32, shr}
use rust_tftp.Common.Outcome.{Outcome, ok, ◌>>=◌, ◌>>◌, ensure}
use rust_tftp.Common.Slices.{Bytes, index, store, slice, copy_into}
use rust_tftp.Errors.{TftpError, invalid_header_len}
use rust_tftp.Header.Rw.{assert_byte}
use rust_tftp.Header.Types.{max_data_len, opcode_data, opcode_ack, DataHeader, AckHeader}
use rust_tftp.Header.BlockNumber.{read_block_number}

unfoldable pub new : ℕ → AckHeader
new block_number = record { block_number = block_number }

unfoldable pub from_raw : Bool → Bytes → Outcome TftpError AckHeader
unfolding read_block_number
from_raw debug src = do
  assert_byte debug src 1 opcode_ack
  assert_byte debug src 0 0
  ensure (not (ltb (length src) 4)) invalid_header_len
  number ← read_block_number src
  ok (record { block_number = number })

-- `Into<RawRequest> for AckHeader`
unfoldable pub into_raw : AckHeader → Outcome TftpError Bytes
into_raw h = do
  raw ← store (replicate 4 0) 1 opcode_ack
  raw ← store raw 0 (as_u8 (shr h.block_number 16))
  raw ← store raw 2 (as_u8 (shr h.block_number 8))
  store raw 3 (as_u8 h.block_number)
