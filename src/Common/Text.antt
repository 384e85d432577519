-- ===== src/Common/Text.antt =====
-- Rust's `String`: its UTF-8 bytes. `from_utf8` and `to_lowercase` are those of the standard library.
use Prim.Native.Char.{code}
use Prim.Native.String.{String}
use Prim.Native.Nat.{ℕ, zero, suc, ◌+◌}
use mathlib.Core.Bool.{Bool, true, false, ◌&&◌}
use mathlib.Core.List.{[], ◌∷◌, map}
use mathlib.Core.Logic.{◌⊎◌, inl, inr}
use mathlib.Core.Option.{Option, none, some}
use rust_tftp.Common.Tests.{leb, ltb, ◌==◌, if◌then◌else◌}
use rust_tftp.Common.Slices.{Bytes}

-- The bytes of an ASCII literal.
abbrev pub codes : String → Bytes
codes String.[] = []
codes (String.◌∷◌ c s) = code c ∷ codes s

abbrev within : ℕ → ℕ → ℕ → Bool
within lo hi b = leb lo b && leb b hi

-- What a first byte asks for: how many bytes follow, and the range of the next one.
unfoldable pub lead : ℕ → Option (ℕ × ℕ × ℕ)
lead b =
    if ltb b 0x80
    then some (0, 0x80, 0xbf)
    else if within 0xc2 0xdf b
    then some (1, 0x80, 0xbf)
    else if b == 0xe0
    then some (2, 0xa0, 0xbf)
    else if b == 0xed
    then some (2, 0x80, 0x9f)
    else if within 0xe1 0xef b
    then some (2, 0x80, 0xbf)
    else if b == 0xf0
    then some (3, 0x90, 0xbf)
    else if within 0xf1 0xf3 b
    then some (3, 0x80, 0xbf)
    else if b == 0xf4
    then some (3, 0x80, 0x8f)
    else none

-- `n` continuation bytes are due, the next of them from `lo` to `hi`.
unfoldable pub valid_from : ℕ → ℕ → ℕ → Bytes → Bool
unfolding lead
valid_from zero lo hi [] = true
valid_from (suc n) lo hi [] = false
valid_from zero lo hi (b ∷ bs) = elim (lead b) [
  | none ↦ false
  | some (n, lo', hi') ↦ valid_from n lo' hi' bs
]
valid_from (suc n) lo hi (b ∷ bs) =
    let rest = valid_from n 0x80 0xbf bs in if within lo hi b then rest else false

unfoldable pub utf8_valid : Bytes → Bool
unfolding valid_from
utf8_valid = valid_from 0 0x80 0xbf

-- `String::from_utf8`: on the left its error, which keeps the bytes, on the right the string.
unfoldable pub from_utf8 : Bytes → Bytes ⊎ Bytes
from_utf8 bs = if utf8_valid bs then inr bs else inl bs

-- `contains('\0')`
unfoldable pub contains_nul : Bytes → Bool
contains_nul [] = false
contains_nul (b ∷ bs) = let rest = contains_nul bs in if b == 0 then true else rest

-- `to_lowercase`, on ASCII. The callers compare the result with ASCII words without a `k`, and
-- no other character has a lower case that is an ASCII word, but the Kelvin sign (`k`).
unfoldable pub to_lowercase : Bytes → Bytes
to_lowercase = map (λ c. if within b'A' b'Z' c then c + 32 else c)

-- `==` of two strings.
unfoldable pub str_eq : Bytes → Bytes → Bool
str_eq [] [] = true
str_eq (x ∷ xs) (y ∷ ys) = x == y && str_eq xs ys
str_eq _ _ = false
