-- ===== src/Sender/Blocks/Cut.antt =====
-- Every block of the file is sent whole, with its number.
use rust_tftp.BitSets.{BitSets}
use rust_tftp.Common.{
  ℕ, zero, ◌+◌, ◌-◌, ◌*◌, ◌≤◌, ◌<◌, ◌≡◌, refl, sym, ap, ◌∙◌, arith, some, none, [], length, take,
  drop, replicate, length-drop, length-take, take_all, Bool-cases, inl, inr, ltb, ltb→lt,
  ltb-false→le, ◌==◌, ==→eq, le→leb, lt→leb, if◌then◌else◌,
}
use mathlib.Core.List.{append-nil}
use rust_tftp.Common.Bits.{as_u8, shr}
use rust_tftp.Common.Copies.{copy_into-replicate, slice-append, slice-take-drop}
use rust_tftp.Common.Outcome.{ok}
use rust_tftp.Common.Slices.{Bytes}
use rust_tftp.Header.Data.Wire.{packet, new-padded, into_raw-padded}
use rust_tftp.Header.Types.{max_data_len}
use rust_tftp.Net.{SocketAddr}
use rust_tftp.Sender.Blocks.{
  count_blocks, SendFile, tail_block, whole_block, block_data, get_block_n,
}
use rust_tftp.Sender.Blocks.Count.{block_fits, tail_fits}
use rust_tftp.Transfer.SendData
use rust_tftp.Transfer.SendData.{unsent}

-- The bytes of block `i` of a file.
abbrev pub chunk : ℕ → Bytes → Bytes
chunk i file = take max_data_len (drop (i * max_data_len) file)

pub length-chunk : (i : ℕ) (file : Bytes) → length (chunk i file) ≤ max_data_len
length-chunk i file = omega (arith, length-take max_data_len (drop (i * max_data_len) file))

tail_block-chunk :
    (file : Bytes) (i : ℕ)
    → i + 1 ≡ count_blocks (length file)
    → tail_block file (length file) i ≡ ok (chunk i file)
unfolding tail_block
tail_block-chunk file i last =
    let lo : ℕ = i * max_data_len in
    let n : ℕ = length file - lo in
    let tail : Bytes = drop lo file in
    let fits = tail_fits (length file) i last in
    let is_n : length tail ≡ n = length-drop lo file in
    rw (
      slice-take-drop file lo (length file) (omega arith) (omega arith),
      take_all n tail (omega arith),
      copy_into-replicate max_data_len n zero tail (omega arith) (sym is_n),
      slice-append [] tail (replicate (max_data_len - length tail) 0) 0 n refl (omega arith),
      take_all max_data_len tail (omega arith),
    )

whole_block-chunk :
    (file : Bytes) (i : ℕ)
    → i + 1 < count_blocks (length file)
    → whole_block file i ≡ ok (chunk i file)
unfolding whole_block
whole_block-chunk file i inner =
    let lo : ℕ = i * max_data_len in
    let fits = block_fits (length file) i inner in
    let e : lo + max_data_len - lo ≡ max_data_len = omega arith in
    let whole : length (chunk i file) ≡ max_data_len =
      omega (arith, length-take max_data_len (drop lo file), length-drop lo file) in
    let none_left : max_data_len - length (chunk i file) ≡ 0 = omega arith in
    rw (slice-take-drop file lo (lo + max_data_len) (omega arith) fits, e)
      (copy_into-replicate max_data_len max_data_len zero (chunk i file) (omega arith) (sym whole)
        ∙ rw none_left (rw append-nil))

pub block_data-chunk :
    (file : Bytes) (i : ℕ)
    → i < count_blocks (length file)
    → block_data file (length file) (count_blocks (length file)) i ≡ ok (chunk i file)
unfolding block_data
block_data-chunk file i h = elim (Bool-cases (i == count_blocks (length file) - 1)) [
  | inl last ↦ rw last (tail_block-chunk file i (omega (arith, ==→eq _ _ last)))
  | inr inner ↦ rw inner (whole_block-chunk file i (ground arith))
]

block_data-source :
    (file : Bytes) (len count i : ℕ)
    → len ≡ length file
    → count ≡ count_blocks len
    → i < count
    → block_data file len count i ≡ ok (chunk i file)
block_data-source file len count i l c h =
    let h' : i < count_blocks (length file) = omega (arith, ap count_blocks l) in
    rw (c, l) (block_data-chunk file i h')

new-chunk :
    (file : Bytes) (i : ℕ) (host : SocketAddr)
    → SendData.new (chunk i file) i host
      ≡ ok (
          some
            (unsent (packet (as_u8 (shr i 16)) (as_u8 (shr i 8)) (as_u8 i) (chunk i file)) i host))
unfolding SendData.new
new-chunk file i host =
    rw (new-padded (chunk i file) i (length-chunk i file), into_raw-padded (chunk i file) i)

module _ {bits : BitSets} where
  -- The fields of a sender agree with the file that it sends.
  pub record IsSource (s : SendFile bits) : Type 0 where
    pub is_len : s.file_len ≡ length s.file_map
    pub is_count : s.num_blocks ≡ count_blocks s.file_len

  -- For a sender whose file_len and num_blocks are those of its file, get_block_n of a block below
  -- num_blocks is an unsent data packet with the three low bytes of the block number and the
  -- MAX_DATA_LEN bytes of the file from there, or what is left of them; of any other block it is
  -- None.
  pub get_block_n-chunk :
      (s : SendFile bits) (i : ℕ)
      → IsSource s
      → get_block_n s i ≡ (
          if ltb i s.num_blocks
          then ok (
              some (
                unsent
                  (packet (as_u8 (shr i 16)) (as_u8 (shr i 8)) (as_u8 i) (chunk i s.file_map))
                  i
                  s.host_addr))
          else ok none)
  unfolding get_block_n
  get_block_n-chunk s i v = elim (Bool-cases (ltb i s.num_blocks)) [
    | inl inside ↦ rw (
      inside,
      lt→leb s.num_blocks i (ltb→lt i s.num_blocks inside),
      block_data-source s.file_map s.file_len s.num_blocks i v.is_len v.is_count
          (ltb→lt i s.num_blocks inside),
      new-chunk s.file_map i s.host_addr,
    )
    | inr outside ↦ rw (outside, le→leb s.num_blocks i (ltb-false→le i s.num_blocks outside))
  ]
