-- ===== src/Header/Data/Wire.antt =====
-- The bytes of a data packet, and what a buffer of `max_data_len` bytes holds.
use rust_tftp.Common.{
  ℕ, zero, suc, ◌+◌, ◌-◌, ◌<◌, ◌≤◌, min, Bool, true, false, ◌≡◌, refl, sym, arith, [], ◌∷◌, ◌++◌,
  length, replicate, length-replicate, le→ltb,
}
use rust_tftp.Common.Bits.{as_u8, shr}
use rust_tftp.Common.Copies.{
  copy_into-replicate, slice-append, store-append, copy_into_differs, copy_into_end, slice_end,
}
use rust_tftp.Common.Outcome.{ok, panic}
use rust_tftp.Common.Slices.{Bytes, index}
use rust_tftp.Header.BlockNumber.{block_number_of}
use rust_tftp.Header.Data.{new, from_raw, into_raw}
use rust_tftp.Header.Types.{opcode_data, max_data_len, DataHeader}

-- The payload, filled up with zeros.
unfoldable pub pad : Bytes → Bytes
pad payload = payload ++ replicate (max_data_len - length payload) 0

abbrev pub padded : Bytes → ℕ → DataHeader
padded payload number = record {
  contents = pad payload;
  data_len = length payload;
  block_number = number;
}

abbrev pub packet : ℕ → ℕ → ℕ → Bytes → Bytes
packet high middle low payload = high ∷ opcode_data ∷ middle ∷ low ∷ payload

pub new-padded :
    (payload : Bytes) (number : ℕ)
    → length payload ≤ max_data_len
    → new payload number ≡ ok (padded payload number)
unfolding new pad
new-padded payload number h =
    let e : min (length payload) max_data_len ≡ length payload = omega arith in
    rw (e, copy_into-replicate max_data_len (length payload) 0 payload h refl)

-- A longer payload is no block: the lengths of the copy differ.
pub new_too_long :
    (payload : Bytes) (number : ℕ) → max_data_len < length payload → new payload number ≡ panic
unfolding new
new_too_long payload number h =
    let e : min (length payload) max_data_len ≡ max_data_len = omega arith in
    rw (e, copy_into_differs (replicate max_data_len 0) 0 max_data_len payload (omega arith))

pub into_raw-padded :
    (payload : Bytes) (number : ℕ)
    → into_raw (padded payload number)
      ≡ ok (packet (as_u8 (shr number 16)) (as_u8 (shr number 8)) (as_u8 number) payload)
unfolding into_raw pad
into_raw-padded payload number =
    let n : ℕ = length payload in
    let zeros : Bytes = replicate n 0 in
    let high : ℕ = as_u8 (shr number 16) in
    let middle : ℕ = as_u8 (shr number 8) in
    let low : ℕ = as_u8 number in
    let e : 4 + length payload ≡ suc (suc (suc (suc (length payload)))) = omega arith in
    rw e (
      rw
        (
          store-append (0 ∷ []) (0 ∷ 0 ∷ zeros) 0 opcode_data 1 refl,
          store-append [] (opcode_data ∷ 0 ∷ 0 ∷ zeros) 0 high 0 refl,
          store-append (high ∷ opcode_data ∷ []) (0 ∷ zeros) 0 middle 2 refl,
          store-append (high ∷ opcode_data ∷ middle ∷ []) zeros 0 low 3 refl,
          slice-append [] payload (replicate (max_data_len - n) 0) 0 n refl (omega arith),
        )
        (copy_into_end (high ∷ opcode_data ∷ middle ∷ low ∷ []) zeros payload 4 (n + 4) refl
          (omega (arith, length-replicate n zero)) (sym (length-replicate n 0))))

from_raw-packet_release :
    (high middle low : ℕ) (payload : Bytes)
    → length payload ≤ max_data_len
    → from_raw false (packet high middle low payload)
      ≡ ok (padded payload (block_number_of high middle low))
unfolding from_raw index pad
from_raw-packet_release high middle low payload h =
    let n : ℕ = length payload in
    let k : ℕ = suc (suc (suc (suc n))) in
    let e : k - 4 ≡ n = omega arith in
    let m : min (max_data_len + 4) k ≡ k = omega arith in
    let m' : min n max_data_len ≡ n = omega arith in
    rw (
      le→ltb k 4 (omega arith),
      e,
      m,
      m',
      slice_end (high ∷ opcode_data ∷ middle ∷ low ∷ []) payload 4 k refl (omega arith),
      copy_into-replicate max_data_len n zero payload h refl,
    )

-- A packet is read back as its payload, padded, and its block number.
pub from_raw-packet :
    (debug : Bool) (high middle low : ℕ) (payload : Bytes)
    → length payload ≤ max_data_len
    → from_raw debug (packet high middle low payload)
      ≡ ok (padded payload (block_number_of high middle low))
unfolding from_raw index
from_raw-packet true = from_raw-packet_release
from_raw-packet false = from_raw-packet_release
