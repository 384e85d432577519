-- ===== src/Sender/Drive/Start.antt =====
-- What `SendFile::new` and `SendFile::new_server` build.
use mathlib.Core.Path.{subst}
use rust_tftp.BitSets.{BitSets}
use rust_tftp.Common.{
  ℕ, ◌*◌, ◌^◌, ◌≤◌, ◌≡◌, refl, ◌∙◌, arith, ◌&&◌, inl, inr, length, leb, ltb, if◌then◌else◌,
  Bool-cases, ltb-false→le,
}
use rust_tftp.Common.Outcome.{ok}
use rust_tftp.Common.Slices.{Bytes}
use rust_tftp.Common.State.{◌>>=◌}
use rust_tftp.Header.Types.{max_data_len}
use rust_tftp.Net.{SocketAddr, World}
use rust_tftp.Sender.Blocks.{SendFile, count_blocks}
use rust_tftp.Sender.Blocks.Count.{count_blocks_bounds}
use rust_tftp.Sender.Blocks.Cut.{IsSource}
use rust_tftp.Sender.Drive.{created, build, set_stop_and_wait}
use rust_tftp.Sender.Window.Tracking.{IsTracking}

-- A sender at the start of the transfer of `file`.
pub record IsFresh {bits : BitSets} (file : Bytes) (s : SendFile bits) : Type 0 where
  pub is_file : s.file_map ≡ file
  pub is_source : IsSource s
  pub is_tracking : IsTracking s
  pub is_at_start : s.window_range.0 ≡ 0
  pub is_numbered : s.num_blocks ≤ 2 ^ 24
  pub is_window : (1 ≤ s.window_size) × (s.window_size ≤ 2)

from_zero : (j n : ℕ) → ltb j n ≡ (leb 0 j && ltb j n)
from_zero j n = ground arith

window_bounds : (n : ℕ) → (1 ≤ (if leb n 1 then 1 else 2)) × ((if leb n 1 then 1 else 2) ≤ 2)
window_bounds n = ground arith

module _ {bits : BitSets} (file : Bytes) (host_addr : SocketAddr) where
  created-IsFresh :
      (size : ℕ)
      → length file ≤ 2 ^ 24 * max_data_len
      → (1 ≤ size) × (size ≤ 2)
      → IsFresh file (created bits file host_addr size)
  unfolding created max_data_len
  created-IsFresh size small window = record {
    is_file = refl;
    is_source = record { is_len = refl; is_count = refl };
    is_tracking = record {
      in_file = omega arith;
      is_pending = λ j. bits.contains-full (count_blocks (length file)) j ∙ from_zero j _;
    };
    is_at_start = refl;
    is_numbered = omega (arith, count_blocks_bounds (length file));
    is_window = window;
  }

  -- A sender that new or new_server builds on a mapped file, before it talks to the host, sends
  -- that file: its file_len and num_blocks are those of the file, its window starts at block 0,
  -- its pending set is all its blocks, their numbers are below 2^24, and its window size is 1 or
  -- 2.
  pub build-IsFresh :
      (window_size : ℕ) (w : World) (s : SendFile bits)
      → (build bits host_addr (inr file) window_size w).0 ≡ ok s
      → IsFresh file s
  unfolding build ◌>>=◌ set_stop_and_wait
  build-IsFresh window_size w s e = elim (Bool-cases (ltb (2 ^ 24 * max_data_len) (length file))) [
    | inl large ↦ ground (arith, rw (large) at e)
    | inr small ↦
        let is_s : created bits file host_addr (if leb window_size 1 then 1 else 2) ≡ s =
          ground (arith, rw (small) at e) in
        subst (IsFresh file) is_s
          (created-IsFresh _ (ltb-false→le _ _ small) (window_bounds window_size))
  ]
