-- ===== src/Sender/Blocks/Reassembly.antt =====
-- The blocks of a sender, decoded in order and put together.
use rust_tftp.BitSets.{BitSets}
use rust_tftp.Common.{
  ℕ, zero, suc, ◌+◌, ◌-◌, ◌*◌, ◌≤◌, ◌≡◌, refl, ap, ◌∙◌, arith, Bool, Option, some, none, [], ◌++◌,
  length, take, drop, drop_all, drop-drop, take-append, take-append-drop, replicate, lt→ltb,
}
use rust_tftp.Common.Bits.{as_u8, shr}
use rust_tftp.Common.Outcome.{Outcome, ok, ◌>>=◌}
use rust_tftp.Common.Slices.{Bytes}
use rust_tftp.Common.State.{infallible}
use rust_tftp.Errors.{TftpError}
use rust_tftp.Header.Data
use rust_tftp.Header.Data.Wire.{packet, pad, from_raw-packet}
use rust_tftp.Header.Types.{max_data_len, DataHeader}
use rust_tftp.Net.{SocketAddr}
use rust_tftp.Sender.Blocks.{SendFile, get_block_n}
use rust_tftp.Sender.Blocks.Count.{count_blocks_bounds}
use rust_tftp.Sender.Blocks.Cut.{chunk, length-chunk, IsSource, get_block_n-chunk}
use rust_tftp.Transfer.SendData.{SendData, unsent}

-- The specification: what a reader makes of one packet, and of the blocks `i`, `i + 1`, … in order.
abbrev pub used : DataHeader → Bytes
used h = take h.data_len h.contents

pub payload_of : Bool → Option SendData → Outcome TftpError Bytes
payload_of debug none = ok []
payload_of debug (some d) = do h ← Data.from_raw debug d.raw_header; ok (used h)

pub reassemble : {bits : BitSets} → Bool → SendFile bits → ℕ → ℕ → Outcome TftpError Bytes
reassemble debug s zero i = ok []
reassemble debug s (suc rounds) i = do
  block ← infallible (get_block_n s i)
  payload ← payload_of debug block
  rest ← reassemble debug s rounds (i + 1)
  ok (payload ++ rest)

payload_of-chunk :
    (debug : Bool) (file : Bytes) (i : ℕ) (host : SocketAddr) (high middle low : ℕ)
    → payload_of debug (some (unsent (packet high middle low (chunk i file)) i host))
      ≡ ok (chunk i file)
unfolding payload_of pad
payload_of-chunk debug file i host high middle low = rw (
  from_raw-packet debug high middle low (chunk i file) (length-chunk i file),
  take-append (length (chunk i file)) (chunk i file)
      (replicate (max_data_len - length (chunk i file)) 0) refl,
)

chunk-append-drop :
    (i : ℕ) (file : Bytes)
    → chunk i file ++ drop ((i + 1) * max_data_len) file ≡ drop (i * max_data_len) file
chunk-append-drop i file =
    let e : (i + 1) * max_data_len ≡ i * max_data_len + max_data_len = omega arith in
    rw (e, ← drop-drop max_data_len (i * max_data_len) file)
      (take-append-drop max_data_len (drop (i * max_data_len) file))

module _ {bits : BitSets} (debug : Bool) (s : SendFile bits) (v : IsSource s) where
  reassemble-drop :
      (rounds i : ℕ)
      → i + rounds ≡ s.num_blocks
      → reassemble debug s rounds i ≡ ok (drop (i * max_data_len) s.file_map)
  unfolding reassemble
  reassemble-drop zero i e =
      let end : i ≡ s.num_blocks = omega arith in
      let all : length s.file_map ≤ i * max_data_len = omega (
        arith,
        count_blocks_bounds s.file_len,
        v.is_len,
        ap (λ (k : ℕ). k * max_data_len) (end ∙ v.is_count),
      ) in
      rw (drop_all (i * max_data_len) s.file_map all)
  reassemble-drop (suc rounds) i e = rw (
    get_block_n-chunk s i v,
    lt→ltb i s.num_blocks (omega arith),
    payload_of-chunk debug s.file_map i s.host_addr (as_u8 (shr i 16)) (as_u8 (shr i 8)) (as_u8 i),
    reassemble-drop rounds (i + 1) (omega arith),
    chunk-append-drop i s.file_map,
  )

  -- For a sender whose file_len and num_blocks are those of its file, the blocks of get_block_n
  -- from the first to the last, each decoded as a data packet and cut to its data_len, put
  -- together give the file back, and no step panics.
  pub reassemble_all : reassemble debug s s.num_blocks 0 ≡ ok s.file_map
  reassemble_all = rw (reassemble-drop s.num_blocks 0 (omega arith), front)
    where
      front : 0 * max_data_len ≡ 0
      front = omega arith
