-- ===== src/Receiver/Drive/Blocks.antt =====
-- The blocks of a file as a receiver meets them.
use rust_tftp.Common.{
  ℕ, zero, suc, ◌+◌, ◌-◌, ◌*◌, ◌%◌, ◌≤◌, ◌<◌, ◌≡◌, refl, sym, ap, ◌∙◌, arith, Bool, true, false,
  not, ◌&&◌, List, [], ◌∷◌, ◌++◌, length, take, drop, length-take, length-drop, take-add, leb, ltb,
  ◌==◌, if◌then◌else◌, min,
}
use rust_tftp.Common.Slices.{Bytes}
use rust_tftp.Header.Data.Wire.{padded}
use rust_tftp.Header.Types.{max_data_len, Header}
use rust_tftp.Receiver.Data.Storing.{last_seen}
use rust_tftp.Sender.Blocks.{count_blocks}
use rust_tftp.Sender.Blocks.Count.{count_blocks_bounds, block_fits, tail_fits, block_starts}
use rust_tftp.Sender.Blocks.Cut.{chunk}

-- The blocks `i`, `i + 1`, … of a file as data headers.
unfoldable pub blocks_of : Bytes → ℕ → ℕ → List Header
blocks_of file zero i = []
blocks_of file (suc rounds) i =
    Header.block (padded (chunk i file) i) ∷ blocks_of file rounds (i + 1)

pub length-chunk-min :
    (i : ℕ) (file : Bytes)
    → length (chunk i file) ≡ min max_data_len (length file - i * max_data_len)
length-chunk-min i file =
    length-take max_data_len (drop (i * max_data_len) file)
    ∙ ap (λ (k : ℕ). min max_data_len k) (length-drop (i * max_data_len) file)

-- One more block.
pub front-chunk :
    (i : ℕ) (file : Bytes)
    → take (i * max_data_len) file ++ chunk i file ≡ take ((i + 1) * max_data_len) file
front-chunk i file =
    let e : (i + 1) * max_data_len ≡ i * max_data_len + max_data_len = omega arith in
    rw e (sym (take-add (i * max_data_len) max_data_len file))

pub chunk-ne : (i : ℕ) (file : Bytes) → i < count_blocks (length file) → 0 < length (chunk i file)
unfolding max_data_len
chunk-ne i file h = omega (arith, length-chunk-min i file, block_starts (length file) i h)

pub chunk_full :
    (i : ℕ) (file : Bytes)
    → i + 1 < count_blocks (length file)
    → length (chunk i file) ≡ max_data_len
chunk_full i file h = omega (arith, length-chunk-min i file, block_fits (length file) i h)

pub inserted_first :
    (i j rounds : ℕ) (x y z : Bool)
    → x ≡ (if leb (i + 1) j && ltb j (i + 1 + suc rounds) then true else y)
    → y ≡ (if i == j then true else z)
    → x ≡ (if leb i j && ltb j (i + suc (suc rounds)) then true else z)
inserted_first i j rounds x y z e f = ground arith

pub inserted_one :
    (i j : ℕ) (x z : Bool)
    → x ≡ (if i == j then true else z)
    → x ≡ (if leb i j && ltb j (i + suc zero) then true else z)
inserted_one i j x z e = ground arith

pub last_seen_number :
    (n i k : ℕ)
    → k ≡ min max_data_len (n - i * max_data_len)
    → i * max_data_len < n
    → n ≤ i * max_data_len + max_data_len
    → last_seen k false ≡ not (n % max_data_len == 0)
unfolding max_data_len
last_seen_number n i k e starts ends = ground arith

pub last_seen_lem :
    (file : Bytes) (i : ℕ)
    → i + 1 ≡ count_blocks (length file)
    → last_seen (length (chunk i file)) false ≡ not (length file % max_data_len == 0)
last_seen_lem file i last =
    let (starts, ends) = tail_fits (length file) i last in
    last_seen_number (length file) i (length (chunk i file)) (length-chunk-min i file) starts ends

-- One block at least.
pub count_blocks-ne : (n : ℕ) → 0 < n → (rounds : ℕ) × (count_blocks n ≡ suc rounds)
unfolding max_data_len
count_blocks-ne n ne = (count_blocks n - 1, omega (arith, count_blocks_bounds n))

pub below :
    (j rounds : ℕ) (x y : Bool)
    → x ≡ (if leb 0 j && ltb j (0 + suc rounds) then true else y)
    → y ≡ false
    → x ≡ ltb j (suc rounds)
below j rounds x y e f = ground arith

pub take_zero : (n : ℕ) (a b : Bytes) → n ≡ 0 → take n a ≡ take n b
take_zero n a b e = rw e refl
