-- ===== src/Tests/Headers.antt =====
-- Concrete packets.
use rust_tftp.Common.{ℕ, ◌≤◌, ◌≡◌, refl, arith, true, false, [], ◌∷◌, length, inr}
use rust_tftp.Common.Outcome.{ok, err, panic, ◌>>=◌}
use rust_tftp.Common.Slices.{Bytes, index}
use rust_tftp.Common.Text.{codes, contains_nul, utf8_valid, from_utf8}
use rust_tftp.Errors.{invalid_filename}
use rust_tftp.Header.Types.{
  RwHeader, read_request, write_request, octet, Header, opcode_error, max_data_len, opcode_rrq,
  from_str,
}
use rust_tftp.Header.Packet.{into_raw_request, decode, peek_decode}
use rust_tftp.Header.Rw
use rust_tftp.Header.Data
use rust_tftp.Header.Ack
use rust_tftp.Header.Failed
use rust_tftp.Header.Rw.Wire.{IsFilename}
use rust_tftp.Header.Rw.Malformed.{from_raw_unterminated_name, from_raw_unterminated_mode}
use rust_tftp.Header.Rw.Sound.{Reads, from_raw-Reads}
use rust_tftp.Header.Packet.RoundTrip.{decode-into_raw_request}
use rust_tftp.Header.Packet.Unknown.{decode_unknown}
use rust_tftp.Header.Data.RoundTrip.{from_raw-into_raw-new}
use rust_tftp.Header.Ack.RoundTrip.{from_raw-into_raw_ack}
use rust_tftp.Header.Failed.Wire.{from_raw_unterminated}

abbrev pub name : Bytes
name = codes "a.txt"

pub name-IsFilename : IsFilename name
unfolding contains_nul utf8_valid
name-IsFilename = record { ne_nil = ground arith; no_nul = refl; utf8 = refl }

abbrev pub read_header : RwHeader read_request
read_header = record { filename = name; mode = octet }

decode-into_raw_request_example :
    (into_raw_request true (Header.read read_header) >>= decode true) ≡ ok (Header.read read_header)
decode-into_raw_request_example =
    decode-into_raw_request true (Header.read read_header) name-IsFilename

from_raw-into_raw_ack_example :
    (Ack.into_raw (record { block_number = 70_000 }) >>= Ack.from_raw true) ≡ panic
from_raw-into_raw_ack_example = from_raw-into_raw_ack true (record { block_number = 70_000 })

three_fit : length {A = ℕ} (1 ∷ 2 ∷ 3 ∷ []) ≤ max_data_len
unfolding max_data_len
three_fit = omega arith

from_raw-into_raw-new_example :
    (Data.new (1 ∷ 2 ∷ 3 ∷ []) 5 >>= Data.into_raw >>= Data.from_raw true)
    ≡ Data.new (1 ∷ 2 ∷ 3 ∷ []) 5
from_raw-into_raw-new_example = from_raw-into_raw-new true (1 ∷ 2 ∷ 3 ∷ []) 5 three_fit

no_nul : contains_nul (97 ∷ 98 ∷ 99 ∷ 100 ∷ []) ≡ false
unfolding contains_nul
no_nul = refl

from_raw_unterminated_example :
    Failed.from_raw true (0 ∷ opcode_error ∷ 0 ∷ 1 ∷ 97 ∷ 98 ∷ 99 ∷ 100 ∷ []) ≡ panic
from_raw_unterminated_example = from_raw_unterminated true 0 1 97 (98 ∷ 99 ∷ 100 ∷ []) no_nul

from_raw_unterminated_name_example :
    Rw.from_raw true write_request (0 ∷ 2 ∷ 97 ∷ 98 ∷ 99 ∷ 100 ∷ [])
    ≡ err (invalid_filename (0 ∷ 2 ∷ 97 ∷ 98 ∷ 99 ∷ 100 ∷ []))
from_raw_unterminated_name_example =
    from_raw_unterminated_name true write_request 97 (98 ∷ 99 ∷ 100 ∷ []) no_nul (omega arith)

from_raw_unterminated_mode_example :
    Rw.from_raw true write_request (0 ∷ 2 ∷ 97 ∷ 98 ∷ 99 ∷ 100 ∷ 0 ∷ 97 ∷ 98 ∷ 99 ∷ 100 ∷ [])
    ≡ panic
from_raw_unterminated_mode_example =
    from_raw_unterminated_mode true write_request 97 (98 ∷ 99 ∷ 100 ∷ []) (97 ∷ 98 ∷ 99 ∷ 100 ∷ [])
      no_nul no_nul (omega arith)

decode_unknown_example :
    (decode true (0 ∷ 9 ∷ 1 ∷ []) ≡ panic)
    × (peek_decode true (0 ∷ 9 ∷ 1 ∷ []) ≡ ok (Header.invalid (0 ∷ 9 ∷ 1 ∷ [])))
decode_unknown_example = decode_unknown true 0 9 (1 ∷ []) (inr (omega arith))

abbrev received : Bytes
received = 0 ∷ opcode_rrq ∷ 97 ∷ 0 ∷ 111 ∷ 99 ∷ 116 ∷ 101 ∷ 116 ∷ 0 ∷ 7 ∷ []

abbrev understood : RwHeader read_request
understood = record { filename = 97 ∷ []; mode = octet }

read_received : Rw.from_raw true read_request received ≡ ok understood
unfolding Rw.from_raw Rw.parse_request Rw.filename_loop Rw.mode_loop Rw.decode_strings from_str
    from_utf8 utf8_valid index
read_received = refl

from_raw-Reads_example : Reads read_request received understood
from_raw-Reads_example = from_raw-Reads true read_request received understood read_received
