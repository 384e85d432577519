-- ===== src/Header/Failed/Wire.antt =====
-- The bytes of an error packet, and how they are read back.
use Prim.Native.Nat.{bit_or, bit_and}
use mathlib.Core.List.{append_assoc, append-nil}
use rust_tftp.Common.{
  ℕ, zero, suc, ◌+◌, ◌-◌, Bool, true, false, ◌≡◌, refl, sym, arith, [], ◌∷◌, ◌++◌, length,
  replicate, length-append, length-replicate, replicate-add, le→ltb,
}
use rust_tftp.Common.Bits.{as_u8, shr, shl16}
use rust_tftp.Common.Copies.{store-append, copy_into-append}
use rust_tftp.Common.Outcome.{ok, panic, ◌>>=◌}
use rust_tftp.Common.Slices.{Bytes, index}
use rust_tftp.Common.Text.{contains_nul, utf8_valid}
use rust_tftp.Header.Failed.{
  discriminant, error_code_from, message_loop, decode_message, from_raw, into_raw,
}
use rust_tftp.Header.Failed.Codes.{error_code_from-bytes}
use rust_tftp.Header.Rw.Wire.{from_utf8-valid}
use rust_tftp.Header.Types.{opcode_error, ErrorCode, ErrorHeader}

-- What a message must be for its packet to be read back.
pub record IsMessage (message : Bytes) : Type 0 where
  pub no_nul : contains_nul message ≡ false
  pub utf8 : utf8_valid message ≡ true

abbrev pub failure : ErrorCode → Bytes → Bytes
failure c message =
    0
    ∷ opcode_error
    ∷ as_u8 (shr (discriminant c) 8)
    ∷ as_u8 (bit_and (discriminant c) 0xff)
    ∷ (message ++ (0 ∷ []))

message_loop-nul :
    (message rest acc : Bytes)
    → contains_nul message ≡ false
    → message_loop (message ++ 0 ∷ rest) acc ≡ ok (acc ++ message)
unfolding message_loop contains_nul
message_loop-nul [] rest acc h = rw append-nil
message_loop-nul (b ∷ message) rest acc h =
    ground (arith, message_loop-nul message rest (acc ++ b ∷ []), append_assoc acc (b ∷ []) message)

message_loop_unterminated :
    (message acc : Bytes) → contains_nul message ≡ false → message_loop message acc ≡ panic
unfolding message_loop contains_nul
message_loop_unterminated [] acc h = refl
message_loop_unterminated (b ∷ message) acc h =
    ground (arith, message_loop_unterminated message (acc ++ b ∷ []))

zeros_split : (n : ℕ) → replicate (n + 5) zero ≡ 0 ∷ 0 ∷ 0 ∷ 0 ∷ (replicate n 0 ++ (0 ∷ []))
zeros_split n =
    let e : n + 5 ≡ suc (suc (suc (suc (n + 1)))) = omega arith in rw (e, replicate-add n 1 zero)

pub into_raw-failure : (h : ErrorHeader) → into_raw h ≡ ok (failure h.error_code h.error_message)
unfolding into_raw
into_raw-failure h =
    let n : ℕ = length h.error_message in
    let high : ℕ = as_u8 (shr (discriminant h.error_code) 8) in
    let low : ℕ = as_u8 (bit_and (discriminant h.error_code) 0xff) in
    let zeros : Bytes = replicate n 0 in
    let tail : Bytes = zeros ++ 0 ∷ [] in
    rw (
      zeros_split n,
      store-append (0 ∷ []) (0 ∷ 0 ∷ tail) 0 opcode_error 1 refl,
      store-append (0 ∷ opcode_error ∷ []) (0 ∷ tail) 0 high 2 refl,
      store-append (0 ∷ opcode_error ∷ high ∷ []) tail 0 low 3 refl,
      copy_into-append (0 ∷ opcode_error ∷ high ∷ low ∷ []) zeros (0 ∷ []) h.error_message 4 (4 + n)
          refl (omega (arith, length-replicate n zero)) (sym (length-replicate n 0)),
      store-append (0 ∷ opcode_error ∷ high ∷ low ∷ h.error_message) [] 0 0 (n + 5 - 1)
          (omega arith),
    )

from_raw-message_release :
    (high low : ℕ) (message rest : Bytes)
    → IsMessage message
    → from_raw false (0 ∷ opcode_error ∷ high ∷ low ∷ (message ++ (0 ∷ rest)))
      ≡ ok (record {
        error_code = error_code_from (bit_or (shl16 high 8) low);
        error_message = message;
      })
unfolding from_raw index decode_message
from_raw-message_release high low message rest v =
    let k : ℕ = suc (suc (suc (suc (length (message ++ 0 ∷ rest))))) in
    rw (
      le→ltb k 5 (omega (arith, length-append message (0 ∷ rest))),
      message_loop-nul message rest [] v.no_nul,
      from_utf8-valid message v.utf8,
    )

-- Any message up to its NUL, whatever stands behind it.
pub from_raw-message :
    (debug : Bool) (high low : ℕ) (message rest : Bytes)
    → IsMessage message
    → from_raw debug (0 ∷ opcode_error ∷ high ∷ low ∷ (message ++ (0 ∷ rest)))
      ≡ ok (record {
        error_code = error_code_from (bit_or (shl16 high 8) low);
        error_message = message;
      })
unfolding from_raw index
from_raw-message true high low message rest v = from_raw-message_release high low message rest v
from_raw-message false high low message rest v = from_raw-message_release high low message rest v

-- An error header whose message has no NUL and is UTF-8 is encoded without a panic, and decoded
-- from its encoding to itself.
pub from_raw-into_raw_failed :
    (debug : Bool) (h : ErrorHeader)
    → IsMessage h.error_message
    → (into_raw h >>= from_raw debug) ≡ ok h
from_raw-into_raw_failed debug h v = rw (
  into_raw-failure h,
  from_raw-message debug _ _ h.error_message [] v,
  error_code_from-bytes h.error_code,
)

from_raw_unterminated_release :
    (high low b : ℕ) (message : Bytes)
    → contains_nul (b ∷ message) ≡ false
    → from_raw false (0 ∷ opcode_error ∷ high ∷ low ∷ b ∷ message) ≡ panic
unfolding from_raw index
from_raw_unterminated_release high low b message h =
    let k : ℕ = suc (suc (suc (suc (suc (length message))))) in
    rw (le→ltb k 5 (omega arith), message_loop_unterminated (b ∷ message) [] h)

-- ErrorHeader::from_raw panics on an error packet with a message of one byte or more and no NUL.
pub from_raw_unterminated :
    (debug : Bool) (high low b : ℕ) (message : Bytes)
    → contains_nul (b ∷ message) ≡ false
    → from_raw debug (0 ∷ opcode_error ∷ high ∷ low ∷ b ∷ message) ≡ panic
unfolding from_raw index
from_raw_unterminated true = from_raw_unterminated_release
from_raw_unterminated false = from_raw_unterminated_release
