-- ===== src/Sender/Blocks/Count.antt =====
-- The number of blocks is the length in blocks, rounded up.
use rust_tftp.Common.{ℕ, ◌+◌, ◌*◌, ◌/◌, ◌%◌, ◌≤◌, ◌<◌, ◌≡◌, arith, ◌==◌, if◌then◌else◌}
use rust_tftp.Common.Bits.{bit_and_mask}
use rust_tftp.Header.Types.{max_data_len}
use rust_tftp.Sender.Blocks.{count_blocks}

count_blocks_lem :
    (n : ℕ) → count_blocks n ≡ n / max_data_len + (if n % max_data_len == 0 then 0 else 1)
unfolding count_blocks max_data_len
count_blocks_lem n = rw (bit_and_mask 12 n)

-- The number of blocks of a file of n bytes is n divided by MAX_DATA_LEN, rounded up: that many
-- blocks hold the file, and one block fewer does not.
pub count_blocks_bounds :
    (n : ℕ)
    → (n ≤ count_blocks n * max_data_len) × (count_blocks n * max_data_len < n + max_data_len)
unfolding max_data_len
count_blocks_bounds n = ground (arith, count_blocks_lem n)

pub block_fits : (n i : ℕ) → i + 1 < count_blocks n → i * max_data_len + max_data_len ≤ n
unfolding max_data_len
block_fits n i h = omega (arith, count_blocks_bounds n)

pub tail_fits :
    (n i : ℕ)
    → i + 1 ≡ count_blocks n
    → (i * max_data_len < n) × (n ≤ i * max_data_len + max_data_len)
unfolding max_data_len
tail_fits n i h = omega (arith, count_blocks_bounds n)

pub block_starts : (n i : ℕ) → i < count_blocks n → i * max_data_len < n
unfolding max_data_len
block_starts n i h = omega (arith, count_blocks_bounds n)

pub tail_holds : (n i : ℕ) → i + 1 ≡ count_blocks n → n ≤ (i + 1) * max_data_len
unfolding max_data_len
tail_holds n i h = omega (arith, count_blocks_bounds n)
