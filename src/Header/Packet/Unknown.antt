-- ===== src/Header/Packet/Unknown.antt =====
-- Packets whose second byte is no opcode, and packets without one.
use rust_tftp.Common.{ℕ, ◌≤◌, ◌≡◌, ◌⊎◌, Bool, arith, [], ◌∷◌}
use rust_tftp.Common.Copies.{copy_into_differs}
use rust_tftp.Common.Outcome.{Outcome, ok, panic}
use rust_tftp.Common.Slices.{Bytes, index}
use rust_tftp.Errors.{TftpError}
use rust_tftp.Header.Packet.{dispatch, recv_invalid, decode, peek_decode}
use rust_tftp.Header.Types.{Header}

abbrev pub IsUnknown : ℕ → Type 0
IsUnknown opcode = (opcode ≡ 0) ⊎ (6 ≤ opcode)

dispatch_unknown :
    (debug : Bool) (otherwise : Outcome TftpError Header) (high opcode : ℕ) (rest : Bytes)
    → IsUnknown opcode
    → dispatch debug otherwise (high ∷ opcode ∷ rest) ≡ otherwise
unfolding dispatch index
dispatch_unknown debug otherwise high opcode rest h = ground arith

recv_invalid_panics : (b : ℕ) (rest : Bytes) → recv_invalid (b ∷ rest) ≡ panic
unfolding recv_invalid
recv_invalid_panics b rest = rw (copy_into_differs [] 0 0 (b ∷ rest) (omega arith))

-- On a packet of two bytes or more whose second byte is no opcode, the decoder of recv panics, and
-- that of peek returns the packet as Invalid.
pub decode_unknown :
    (debug : Bool) (high opcode : ℕ) (rest : Bytes)
    → IsUnknown opcode
    → (decode debug (high ∷ opcode ∷ rest) ≡ panic)
      × (peek_decode debug (high ∷ opcode ∷ rest) ≡ ok (Header.invalid (high ∷ opcode ∷ rest)))
unfolding decode peek_decode
decode_unknown debug high opcode rest h = (
  rw (dispatch_unknown debug (recv_invalid (high ∷ opcode ∷ rest)) high opcode rest h)
      (recv_invalid_panics high (opcode ∷ rest)),
  dispatch_unknown debug (ok (Header.invalid (high ∷ opcode ∷ rest))) high opcode rest h,
)
