-- ===== src/Header/Packet/RoundTrip.antt =====
-- Every packet that can be sent whole is decoded to itself.
use rust_tftp.Common.{ℕ, ◌%◌, ◌^◌, ◌≤◌, ◌<◌, Bool, true, false, ◌≡◌, sym, arith, length}
use mathlib.Core.Path.{subst}
use rust_tftp.Common.Bits.{as_u8, shr}
use rust_tftp.Common.Outcome.{ok, ◌>>=◌}
use rust_tftp.Common.Slices.{Bytes, index}
use rust_tftp.Header.Ack
use rust_tftp.Header.Ack.RoundTrip as AckRoundTrip
use rust_tftp.Header.BlockNumber.Codec.{block_number_of-bytes}
use rust_tftp.Header.Data
use rust_tftp.Header.Data.Wire.{padded, into_raw-padded, from_raw-packet}
use rust_tftp.Header.Failed
use rust_tftp.Header.Failed.Wire.{IsMessage, into_raw-failure}
use rust_tftp.Header.Packet.{into_raw_request, decode}
use rust_tftp.Header.Rw
use rust_tftp.Header.Rw.Wire.{IsFilename, into_raw-request}
use rust_tftp.Header.Types.{
  max_data_len, write_request, read_request, AckHeader, DataHeader, Header,
}

-- The data packet of a payload that fits a block.
pub record IsBlock (h : DataHeader) : Type 0 where
  pub payload : Bytes
  pub fits : length payload ≤ max_data_len
  pub is_padded : h ≡ padded payload h.block_number
  pub in_range : h.block_number < 2 ^ 24

-- The debug build takes acknowledgements of 16 bits only.
abbrev pub IsAck : Bool → AckHeader → Type 0
IsAck true h = h.block_number < 2 ^ 16
IsAck false h = h.block_number < 2 ^ 24

abbrev pub IsSendable : Bool → Header → Type 0
IsSendable debug (Header.ack h) = IsAck debug h
IsSendable debug (Header.read h) = IsFilename h.filename
IsSendable debug (Header.write h) = IsFilename h.filename
IsSendable debug (Header.block h) = IsBlock h
IsSendable debug (Header.error h) = IsMessage h.error_message
IsSendable debug (Header.invalid bytes) = ⊥

ack_round :
    (debug : Bool) (h : AckHeader) → IsAck debug h → (Ack.into_raw h >>= Ack.from_raw debug) ≡ ok h
ack_round true h v = ground (arith, AckRoundTrip.from_raw-into_raw_ack true h)
ack_round false h v = ground (arith, AckRoundTrip.from_raw-into_raw_ack false h)

pub block_round :
    (debug : Bool) (payload : Bytes) (number : ℕ)
    → length payload ≤ max_data_len
    → number < 2 ^ 24
    → (Data.into_raw (padded payload number) >>= decode debug)
      ≡ ok (Header.block (padded payload number))
unfolding decode index
block_round debug payload number fits small =
    let e : number % 2 ^ 24 ≡ number = omega arith in
    rw (
      into_raw-padded payload number,
      from_raw-packet debug (as_u8 (shr number 16)) (as_u8 (shr number 8)) (as_u8 number) payload
          fits,
      block_number_of-bytes number,
      e,
    )

-- A header that can be sent whole is decoded from its encoding to itself, in both builds: a
-- request whose filename is not empty, has no NUL and is UTF-8; a data header with at most
-- MAX_DATA_LEN bytes of payload padded with zeros and a 24-bit number; an acknowledgement with a
-- 24-bit number, in the debug build a 16-bit one; an error whose message has no NUL and is UTF-8.
pub decode-into_raw_request :
    (debug : Bool) (h : Header)
    → IsSendable debug h
    → (into_raw_request debug h >>= decode debug) ≡ ok h
unfolding into_raw_request decode index
decode-into_raw_request debug (Header.ack h) v =
    rw (AckRoundTrip.into_raw_lem h) (rw (rw AckRoundTrip.into_raw_lem at (ack_round debug h v)))
decode-into_raw_request debug (Header.read h) v = rw (into_raw-request debug read_request h v) (
    rw (
      rw (into_raw-request debug read_request h v) at
        (Rw.Wire.from_raw-into_raw_rw debug read_request h v)))
decode-into_raw_request debug (Header.write h) v = rw (into_raw-request debug write_request h v) (
    rw (
      rw (into_raw-request debug write_request h v) at
        (Rw.Wire.from_raw-into_raw_rw debug write_request h v)))
decode-into_raw_request debug (Header.block h) v =
    subst (λ k. (Data.into_raw k >>= decode debug) ≡ ok (Header.block k)) (sym v.is_padded)
      (block_round debug v.payload h.block_number v.fits v.in_range)
decode-into_raw_request debug (Header.error h) v =
    rw (into_raw-failure h)
      (rw (rw into_raw-failure at (Failed.Wire.from_raw-into_raw_failed debug h v)))
decode-into_raw_request debug (Header.invalid bytes) v = absurd v
