-- ===== src/Header/Ack/RoundTrip.antt =====
-- What becomes of an acknowledgement that is encoded and decoded.
use rust_tftp.Common.{
  ◌%◌, ◌^◌, Bool, true, false, not, ◌&&◌, ◌==◌, if◌then◌else◌, ◌≡◌, refl, arith, [], ◌∷◌,
}
use rust_tftp.Common.Bits.{as_u8, shr}
use rust_tftp.Common.Outcome.{ok, panic, ◌>>=◌}
use rust_tftp.Common.Slices.{index, store}
use rust_tftp.Header.Ack.{from_raw, into_raw}
use rust_tftp.Header.BlockNumber.Codec.{block_number_of-bytes}
use rust_tftp.Header.Types.{opcode_ack, AckHeader}

pub into_raw_lem :
    (h : AckHeader)
    → into_raw h
      ≡ ok (
          as_u8 (shr h.block_number 16)
          ∷ opcode_ack
          ∷ as_u8 (shr h.block_number 8)
          ∷ as_u8 h.block_number
          ∷ [])
unfolding into_raw store
into_raw_lem h = refl

-- An acknowledgement of any block number, encoded and decoded: the debug build panics where bits
-- 16 to 23 of the number are not all zero, and otherwise the number modulo 2^24 is read.
pub from_raw-into_raw_ack :
    (debug : Bool) (h : AckHeader)
    → (into_raw h >>= from_raw debug) ≡ (
        if debug && not (as_u8 (shr h.block_number 16) == 0)
        then panic
        else ok (record { block_number = h.block_number % 2 ^ 24 }))
unfolding from_raw into_raw index store
from_raw-into_raw_ack true h = ground (arith, block_number_of-bytes h.block_number)
from_raw-into_raw_ack false h = ground (arith, block_number_of-bytes h.block_number)
