-- ===== src/Header/Rw/Malformed.antt =====
-- Requests whose strings are not terminated.
use rust_tftp.Common.{ℕ, ◌+◌, ◌≤◌, Bool, false, ◌≡◌, arith, [], ◌∷◌, ◌++◌, length, length-append}
use rust_tftp.Common.Outcome.{err, panic}
use rust_tftp.Common.Slices.{Bytes}
use rust_tftp.Common.Text.{contains_nul}
use rust_tftp.Errors.{invalid_filename}
use rust_tftp.Header.Rw.{from_raw}
use rust_tftp.Header.Rw.Loops.{
  filename_loop-nul, filename_loop_unterminated, mode_loop_unterminated,
}
use rust_tftp.Header.Rw.Wire.{from_raw-parse_request, parse_request-loops, head_ne_zero}
use rust_tftp.Header.Types.{RequestType, request_opcode}

-- On a request of six bytes or more with the right opcode and no NUL after it, RWHeader::from_raw
-- returns InvalidFilename with the packet.
pub from_raw_unterminated_name :
    (debug : Bool) (t : RequestType) (b : ℕ) (name : Bytes)
    → contains_nul (b ∷ name) ≡ false
    → 3 ≤ length name
    → from_raw debug t (0 ∷ request_opcode t ∷ b ∷ name)
      ≡ err (invalid_filename (0 ∷ request_opcode t ∷ b ∷ name))
from_raw_unterminated_name debug t b name no_nul long = rw (
  from_raw-parse_request debug t,
  parse_request-loops t 0 (request_opcode t) b name (head_ne_zero b name no_nul) long,
  filename_loop_unterminated _ [] b name no_nul,
)

-- RWHeader::from_raw panics on a request of six bytes or more with the right opcode, a filename
-- that is not empty and ends in a NUL, and no NUL after it.
pub from_raw_unterminated_mode :
    (debug : Bool) (t : RequestType) (b : ℕ) (name text : Bytes)
    → contains_nul (b ∷ name) ≡ false
    → contains_nul text ≡ false
    → 2 ≤ length name + length text
    → from_raw debug t (0 ∷ request_opcode t ∷ b ∷ (name ++ (0 ∷ text))) ≡ panic
from_raw_unterminated_mode debug t b name text no_nul text_no_nul long = rw (
  from_raw-parse_request debug t,
  parse_request-loops t 0 (request_opcode t) b (name ++ 0 ∷ text) (head_ne_zero b name no_nul)
      (omega (arith, length-append name (0 ∷ text))),
  filename_loop-nul _ (b ∷ name) text [] no_nul,
  mode_loop_unterminated text [] text_no_nul,
)
