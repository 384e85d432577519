-- ===== src/Sender/Blocks.antt =====
-- The state of `SendFile`, and how the file is cut into blocks.
pub mod Count
pub mod Cut
pub mod Reassembly
use Prim.Native.Nat.{bit_and}
use rust_tftp.BitSets.{BitSets}
use rust_tftp.Common.{
  ℕ, ◌+◌, ◌-◌, ◌*◌, ◌/◌, Bool, Option, none, some, List, [], ◌∷◌, length, replicate, leb, ◌==◌,
  if◌then◌else◌,
}
use rust_tftp.Common.Outcome.{Outcome, ok, ◌>>=◌}
use rust_tftp.Common.Slices.{Bytes, slice, copy_into}
use rust_tftp.Errors.{IoError}
use rust_tftp.Header.Types.{max_data_len}
use rust_tftp.Net.{SocketAddr}
use rust_tftp.Transfer.SendData
use rust_tftp.Transfer.SendData.{SendData}

abbrev pub max_window_size : ℕ
max_window_size = 256

-- `BlockData`, with the order by the time sent.
pub record BlockData : Type 0 where
  pub time_sent : ℕ
  pub block_number : ℕ

-- The `num_blocks` of `SendFile::new`: the whole blocks, and one more if there is extra.
unfoldable pub count_blocks : ℕ → ℕ
count_blocks file_len =
    file_len / max_data_len + (if bit_and file_len (max_data_len - 1) == 0 then 0 else 1)

-- The file is its content, as mapped; the socket is in the world. `window_range` is the pair of
-- its lower and its upper bound. `send_times` is an association list.
pub record SendFile (bits : BitSets) : Type 0 where
  pub file_map : Bytes
  pub file_len : ℕ
  pub host_addr : SocketAddr
  pub blocks_pending_acks : bits.BitSet
  pub num_blocks : ℕ
  pub window_size : ℕ
  pub window_range : ℕ × ℕ
  pub err_counter : ℕ
  pub send_times : List (ℕ × ℕ)
  pub average_rtt : ℕ
  pub timeouts : ℕ

-- The two ways in which `get_block_n` fills `data`, and the part of `data` that is sent.
unfoldable pub tail_block : Bytes → ℕ → ℕ → Outcome IoError Bytes
tail_block file_map file_len block_number = do
  let tail_len = file_len - block_number * max_data_len
  tail ← slice file_map (block_number * max_data_len) file_len
  buffer ← copy_into (replicate max_data_len 0) 0 tail_len tail
  slice buffer 0 (file_len - block_number * max_data_len)

unfoldable pub whole_block : Bytes → ℕ → Outcome IoError Bytes
whole_block file_map block_number = do
  block ← slice file_map (block_number * max_data_len) (block_number * max_data_len + max_data_len)
  copy_into (replicate max_data_len 0) 0 max_data_len block

unfoldable pub block_data : Bytes → ℕ → ℕ → ℕ → Outcome IoError Bytes
block_data file_map file_len num_blocks block_number =
    if block_number == num_blocks - 1
    then tail_block file_map file_len block_number
    else whole_block file_map block_number

module _ {bits : BitSets} where
  -- `SendFile::get_block_n`
  unfoldable pub get_block_n : SendFile bits → ℕ → Outcome IoError (Option SendData)
  get_block_n s block_number = if leb s.num_blocks block_number then ok none else (do
    payload ← block_data s.file_map s.file_len s.num_blocks block_number
    SendData.new payload block_number s.host_addr)
