-- ===== src/Common/Slices.antt =====
-- Indexing and slice copies, which panic out of range.
use Prim.Native.Nat.{ℕ, ◌-◌, ◌<◌}
use mathlib.Core.Bool.{◌&&◌}
use mathlib.Core.List.{List, ◌++◌}
use mathlib.Core.Option.{none, some}
use rust_tftp.Common.Lists.{length, get_elem?, set, take, drop}
use rust_tftp.Common.Tests.{ltb, leb, ◌==◌, if◌then◌else◌}
use rust_tftp.Common.Outcome.{Outcome, ok, panic}

abbrev pub Bytes : Type 0
Bytes = List ℕ

-- a value of a `u8`
abbrev pub IsByte : ℕ → Type 0
IsByte b = b < 256

module _ {ℓ κ} {E : Type ℓ} {A : Type κ} where
  -- `xs[i]`
  unfoldable pub index : List A → ℕ → Outcome E A
  index xs i = elim (get_elem? xs i) [ none ↦ panic | some x ↦ ok x ]

  -- `xs[i] = v`
  unfoldable pub store : List A → ℕ → A → Outcome E (List A)
  store xs i v = if ltb i (length xs) then ok (set xs i v) else panic

  -- `&xs[lo..hi]`
  unfoldable pub slice : List A → ℕ → ℕ → Outcome E (List A)
  slice xs lo hi =
      if leb lo hi && leb hi (length xs) then ok (take (hi - lo) (drop lo xs)) else panic

  -- `xs[lo..hi].copy_from_slice(src)`; `clone_from_slice` does the same on bytes
  unfoldable pub copy_into : List A → ℕ → ℕ → List A → Outcome E (List A)
  copy_into xs lo hi src =
      if leb lo hi && leb hi (length xs) && length src == hi - lo
      then ok (take lo xs ++ (src ++ drop hi xs))
      else panic
