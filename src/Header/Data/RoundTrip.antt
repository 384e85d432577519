-- ===== src/Header/Data/RoundTrip.antt =====
-- A data packet that is encoded and decoded.
use rust_tftp.Common.{ℕ, ◌%◌, ◌^◌, ◌≤◌, Bool, ◌≡◌, length}
use rust_tftp.Common.Bits.{as_u8, shr}
use rust_tftp.Common.Outcome.{◌>>=◌}
use rust_tftp.Common.Slices.{Bytes}
use rust_tftp.Header.BlockNumber.Codec.{block_number_of-bytes}
use rust_tftp.Header.Data.{new, from_raw, into_raw}
use rust_tftp.Header.Data.Wire.{new-padded, into_raw-padded, from_raw-packet}
use rust_tftp.Header.Types.{max_data_len}

-- A payload of at most MAX_DATA_LEN bytes and any block number, encoded as a data packet and
-- decoded, give the data header of the payload with the number modulo 2^24.
pub from_raw-into_raw-new :
    (debug : Bool) (payload : Bytes) (number : ℕ)
    → length payload ≤ max_data_len
    → (new payload number >>= into_raw >>= from_raw debug) ≡ new payload (number % 2 ^ 24)
from_raw-into_raw-new debug payload number h = rw (
  new-padded payload number h,
  into_raw-padded payload number,
  from_raw-packet debug (as_u8 (shr number 16)) (as_u8 (shr number 8)) (as_u8 number) payload h,
  block_number_of-bytes number,
  new-padded payload (number % 2 ^ 24) h,
)
