-- ===== src/Header/BlockNumber.antt =====
-- The 24-bit block number in the header of a data packet and of an acknowledgement.
pub mod Codec
use Prim.Native.Nat.{bit_or}
use rust_tftp.Common.{
  ℕ, ◌+◌, ◌-◌, ◌*◌, ◌/◌, ◌%◌, ◌^◌, Bool, not, List, [], ◌∷◌, ◌++◌, length, replicate, min, ltb,
}
use rust_tftp.Common.Bits.{as_u8, shl32, shr}
use rust_tftp.Common.Outcome.{Outcome, ok, ◌>>=◌, ◌>>◌, ensure}
use rust_tftp.Common.Slices.{Bytes, index, store, slice, copy_into}
use rust_tftp.Errors.{TftpError, invalid_header_len}
use rust_tftp.Header.Rw.{assert_byte}
use rust_tftp.Header.Types.{max_data_len, opcode_data, opcode_ack, DataHeader, AckHeader}

-- `block_number |= (src[0] as u32) << 16` and the two lines after it.
unfoldable pub block_number_of : ℕ → ℕ → ℕ → ℕ
block_number_of high middle low = bit_or (bit_or (bit_or 0 (shl32 high 16)) (shl32 middle 8)) low

unfoldable pub read_block_number : Bytes → Outcome TftpError ℕ
unfolding block_number_of
read_block_number src = do
  high ← index src 0
  middle ← index src 2
  low ← index src 3
  ok (block_number_of high middle low)
