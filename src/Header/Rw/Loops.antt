-- ===== src/Header/Rw/Loops.antt =====
-- The two loops of `RWHeader::from_raw`, on texts with and without their NUL.
use rust_tftp.Common.{ℕ, false, [], ◌∷◌, ◌++◌, ◌≡◌, refl, arith}
use mathlib.Core.List.{append_assoc, append-nil}
use rust_tftp.Common.Outcome.{ok, err, panic}
use rust_tftp.Common.Slices.{Bytes}
use rust_tftp.Common.Text.{contains_nul}
use rust_tftp.Errors.{invalid_filename}
use rust_tftp.Header.Rw.{filename_loop, mode_loop}

-- Up to the NUL, wherever it stands.
pub filename_loop-nul :
    (src name rest acc : Bytes)
    → contains_nul name ≡ false
    → filename_loop src (name ++ 0 ∷ rest) acc ≡ ok (acc ++ name, rest)
unfolding filename_loop contains_nul
filename_loop-nul src [] [] acc h = rw append-nil
filename_loop-nul src [] (r ∷ rest) acc h = rw append-nil
filename_loop-nul src (b ∷ []) rest acc h =
    ground (arith, filename_loop-nul src [] rest (acc ++ b ∷ []), append-nil (acc ++ b ∷ []))
filename_loop-nul src (b ∷ c ∷ name) rest acc h = ground (
  arith,
  filename_loop-nul src (c ∷ name) rest (acc ++ b ∷ []),
  append_assoc acc (b ∷ []) (c ∷ name),
)

-- With no NUL up to the end of the packet.
pub filename_loop_unterminated :
    (src acc : Bytes) (b : ℕ) (name : Bytes)
    → contains_nul (b ∷ name) ≡ false
    → filename_loop src (b ∷ name) acc ≡ err (invalid_filename src)
unfolding filename_loop contains_nul
filename_loop_unterminated src acc b [] h = ground arith
filename_loop_unterminated src acc b (c ∷ name) h =
    ground (arith, filename_loop_unterminated src (acc ++ b ∷ []) c name)

pub mode_loop-nul :
    (mode rest acc : Bytes)
    → contains_nul mode ≡ false
    → mode_loop (mode ++ 0 ∷ rest) acc ≡ ok (acc ++ mode)
unfolding mode_loop contains_nul
mode_loop-nul [] rest acc h = rw append-nil
mode_loop-nul (b ∷ mode) rest acc h =
    ground (arith, mode_loop-nul mode rest (acc ++ b ∷ []), append_assoc acc (b ∷ []) mode)

pub mode_loop_unterminated :
    (mode acc : Bytes) → contains_nul mode ≡ false → mode_loop mode acc ≡ panic
unfolding mode_loop contains_nul
mode_loop_unterminated [] acc h = refl
mode_loop_unterminated (b ∷ mode) acc h =
    ground (arith, mode_loop_unterminated mode (acc ++ b ∷ []))
