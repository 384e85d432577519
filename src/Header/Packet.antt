-- ===== src/Header/Packet.antt =====
-- The enumeration `Header`: `into_raw_request`, and the dispatch on the opcode in `recv` and `peek`.
pub mod RoundTrip
pub mod Unknown
pub mod Total
use rust_tftp.Common.{ℕ, Bool, ◌==◌, if◌then◌else◌, [], length}
use rust_tftp.Common.Outcome.{Outcome, ok, panic, ◌>>=◌}
use rust_tftp.Common.Slices.{Bytes, index, copy_into}
use rust_tftp.Errors.{TftpError}
use rust_tftp.Header.Ack
use rust_tftp.Header.Data
use rust_tftp.Header.Failed
use rust_tftp.Header.Rw
use rust_tftp.Header.Types.{
  opcode_rrq, opcode_wrq, opcode_data, opcode_ack, opcode_error, write_request, read_request,
  Header,
}

-- `Header::into_raw_request`
unfoldable pub into_raw_request : Bool → Header → Outcome TftpError Bytes
into_raw_request debug (Header.ack h) = Ack.into_raw h
into_raw_request debug (Header.read h) = Rw.into_raw debug read_request h
into_raw_request debug (Header.write h) = Rw.into_raw debug write_request h
into_raw_request debug (Header.error h) = Failed.into_raw h
into_raw_request debug (Header.block h) = Data.into_raw h
into_raw_request debug (Header.invalid bytes) = panic

-- The `match buf[1]` of `recv` and `peek`, which differ in the last arm.
unfoldable pub dispatch : Bool → Outcome TftpError Header → Bytes → Outcome TftpError Header
dispatch debug otherwise buf = do
  opcode ← index buf 1
  if opcode == opcode_rrq
      then (do h ← Rw.from_raw debug read_request buf; ok (Header.read h))
      else if opcode == opcode_wrq
      then (do h ← Rw.from_raw debug write_request buf; ok (Header.write h))
      else if opcode == opcode_ack
      then (do h ← Ack.from_raw debug buf; ok (Header.ack h))
      else if opcode == opcode_error
      then (do h ← Failed.from_raw debug buf; ok (Header.error h))
      else if opcode == opcode_data
      then (do h ← Data.from_raw debug buf; ok (Header.block h))
      else otherwise

-- The last arm of `recv`: `clone_from_slice` of the packet into an empty vector.
unfoldable pub recv_invalid : Bytes → Outcome TftpError Header
recv_invalid buf = do r ← copy_into [] 0 0 buf; ok (Header.invalid r)

-- What `recv` makes of a datagram, and `peek` of its whole buffer.
unfoldable pub decode : Bool → Bytes → Outcome TftpError Header
unfolding dispatch recv_invalid
decode debug buf = dispatch debug (recv_invalid buf) buf

unfoldable pub peek_decode : Bool → Bytes → Outcome TftpError Header
unfolding dispatch
peek_decode debug buf = dispatch debug (ok (Header.invalid buf)) buf
