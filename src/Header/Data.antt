-- ===== src/Header/Data.antt =====
-- `DataHeader`.
pub mod Wire
pub mod RoundTrip
use rust_tftp.Common.{
  ℕ, ◌+◌, ◌-◌, ◌*◌, ◌/◌, ◌%◌, ◌^◌, Bool, not, List, [], ◌∷◌, ◌++◌, length, replicate, min, ltb,
}
use rust_tftp.Common.Bits.{as_u8, shl32, shr}
use rust_tftp.Common.Outcome.{Outcome, ok, ◌>>=◌, ◌>>◌, ensure}
use rust_tftp.Common.Slices.{Bytes, index, store, slice, copy_into}
use rust_tftp.Errors.{TftpError, invalid_header_len}
use rust_tftp.Header.Rw.{assert_byte}
use rust_tftp.Header.Types.{max_data_len, opcode_data, opcode_ack, DataHeader, AckHeader}
use rust_tftp.Header.BlockNumber.{read_block_number}

unfoldable pub new : Bytes → ℕ → Outcome TftpError DataHeader
new data_src block_number = do
  let len = min (length data_src) max_data_len
  contents ← copy_into (replicate max_data_len 0) 0 len data_src
  ok (record { contents = contents; data_len = len; block_number = block_number })

unfoldable pub new_empty : ℕ → DataHeader
new_empty block_number = record {
  contents = replicate max_data_len 0;
  data_len = 0;
  block_number = block_number;
}

unfoldable pub from_raw : Bool → Bytes → Outcome TftpError DataHeader
unfolding read_block_number
from_raw debug src = do
  assert_byte debug src 1 opcode_data
  ensure (not (ltb (length src) 4)) invalid_header_len
  number ← read_block_number src
  chunk ← slice src 4 (min (max_data_len + 4) (length src))
  contents ← copy_into (replicate max_data_len 0) 0 (min (length src - 4) max_data_len) chunk
  ok (record { contents = contents; data_len = length src - 4; block_number = number })

-- `Into<RawRequest> for DataHeader`
unfoldable pub into_raw : DataHeader → Outcome TftpError Bytes
into_raw h = do
  raw ← store (replicate (4 + h.data_len) 0) 1 opcode_data
  raw ← store raw 0 (as_u8 (shr h.block_number 16))
  raw ← store raw 2 (as_u8 (shr h.block_number 8))
  raw ← store raw 3 (as_u8 h.block_number)
  chunk ← slice h.contents 0 h.data_len
  copy_into raw 4 (h.data_len + 4) chunk
