-- ===== src/Header/Packet/Total.antt =====
-- The decoder returns or panics on every packet.
use rust_tftp.Common.{Bool, true, false, [], ◌∷◌, ◌⊎◌, inl, inr, ℕ, ◌==◌, Option-cases}
use rust_tftp.Common.Outcome.Ends.{
  Ends, Ends-ok, Ends-err, Ends-panic, Ends-if, Ends-bind, Ends-index, Ends-debug_assert,
  ends_rules,
}
use rust_tftp.Common.Slices.{Bytes}
use rust_tftp.Header.Ack
use rust_tftp.Header.BlockNumber.{read_block_number}
use rust_tftp.Header.Data
use rust_tftp.Header.Failed
use rust_tftp.Header.Failed.{message_loop, decode_message}
use rust_tftp.Header.Packet.{decode}
use rust_tftp.Header.Rw
use rust_tftp.Header.Rw.{assert_byte, filename_loop, mode_loop, decode_strings, parse_request}
use rust_tftp.Header.Types.{from_str, RequestType, ErrorCode}

assert_byte-Ends : (debug : Bool) (src : Bytes) (i v : ℕ) → Ends (assert_byte debug src i v)
assert_byte-Ends true src i v = Ends-bind _ (Ends-index src i) λ b. Ends-debug_assert true (b == v)
assert_byte-Ends false src i v = Ends-ok tt

filename_loop-Ends : (src rest filename : Bytes) → Ends (filename_loop src rest filename)
unfolding filename_loop
filename_loop-Ends src [] filename = Ends-panic
filename_loop-Ends src (b ∷ []) filename = Ends-if (b == 0) (Ends-ok _) (Ends-err _)
filename_loop-Ends src (b ∷ c ∷ rest) filename =
    Ends-if (b == 0) (Ends-ok _) (filename_loop-Ends src (c ∷ rest) _)

mode_loop-Ends : (rest mode : Bytes) → Ends (mode_loop rest mode)
unfolding mode_loop
mode_loop-Ends [] mode = Ends-panic
mode_loop-Ends (b ∷ rest) mode = Ends-if (b == 0) (Ends-ok _) (mode_loop-Ends rest _)

message_loop-Ends : (rest message : Bytes) → Ends (message_loop rest message)
unfolding message_loop
message_loop-Ends [] message = Ends-panic
message_loop-Ends (b ∷ rest) message = Ends-if (b == 0) (Ends-ok _) (message_loop-Ends rest _)

decode_strings-Ends :
    (t : RequestType) (src : Bytes) (a b : Bytes ⊎ Bytes) → Ends (decode_strings t src a b)
unfolding decode_strings
decode_strings-Ends t src (inl e) b = Ends-err _
decode_strings-Ends t src (inr filename) (inl e) = Ends-err _
decode_strings-Ends t src (inr filename) (inr mode_string) =
    elim (Option-cases (from_str mode_string)) [
      | inl e ↦ rw (decode_strings, e) (Ends-err _)
      | inr (mode, e) ↦ rw (decode_strings, e) (Ends-ok _)
    ]

decode_message-Ends : (c : ErrorCode) (r : Bytes ⊎ Bytes) → Ends (decode_message c r)
unfolding decode_message
decode_message-Ends c (inl e) = Ends-err _
decode_message-Ends c (inr m) = Ends-ok _

parse_request-Ends : (t : RequestType) (src : Bytes) → Ends (parse_request t src)
unfolding parse_request
parse_request-Ends t src =
    search (ends_rules, filename_loop-Ends, mode_loop-Ends, decode_strings-Ends) depth 20

rw_from_raw-Ends : (debug : Bool) (t : RequestType) (src : Bytes) → Ends (Rw.from_raw debug t src)
unfolding Rw.from_raw
rw_from_raw-Ends debug t src = search (ends_rules, assert_byte-Ends, parse_request-Ends) depth 8

read_block_number-Ends : (src : Bytes) → Ends (read_block_number src)
unfolding read_block_number
read_block_number-Ends src = search ends_rules depth 8

ack_from_raw-Ends : (debug : Bool) (src : Bytes) → Ends (Ack.from_raw debug src)
unfolding Ack.from_raw
ack_from_raw-Ends debug src = search (ends_rules, assert_byte-Ends, read_block_number-Ends) depth 12

data_from_raw-Ends : (debug : Bool) (src : Bytes) → Ends (Data.from_raw debug src)
unfolding Data.from_raw
data_from_raw-Ends debug src =
    search (ends_rules, assert_byte-Ends, read_block_number-Ends) depth 12

failed_from_raw-Ends : (debug : Bool) (src : Bytes) → Ends (Failed.from_raw debug src)
unfolding Failed.from_raw
failed_from_raw-Ends debug src =
    search (ends_rules, assert_byte-Ends, message_loop-Ends, decode_message-Ends) depth 20

pub decode-Ends : (debug : Bool) (buf : Bytes) → Ends (decode debug buf)
unfolding decode
decode-Ends debug buf =
    search
      (ends_rules, rw_from_raw-Ends, ack_from_raw-Ends, data_from_raw-Ends, failed_from_raw-Ends)
      depth 20
