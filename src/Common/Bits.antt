-- ===== src/Common/Bits.antt =====
-- The casts and shifts of Rust's unsigned integers on the native numbers, and `|` and `&` digit by
-- digit.
use Prim.Native.Nat.{
  ℕ, zero, suc, ◌+◌, ◌*◌, ◌/◌, ◌%◌, ◌^◌, ◌≤◌, ◌<◌, max, min, bit_or, bit_and, digits,
  bit_or-bitwise, bit_and-bitwise, ◌-◌,
}
use native.Mathlib.Nat.{pow-suc, div-add-mod, mul-add-mod_self_left, mod-eq_of_lt, mod-lt}
use mathlib.Core.Path.{◌≡◌, refl, ap, ◌∙◌}
use native.Mathlib.Omega.{arith}

-- `x as u8`
abbrev pub as_u8 : ℕ → ℕ
as_u8 x = x % 256

-- `x << k` in a u32 and in a u16
abbrev pub shl32 : ℕ → ℕ → ℕ
shl32 x k = x * 2 ^ k % 2 ^ 32

abbrev pub shl16 : ℕ → ℕ → ℕ
shl16 x k = x * 2 ^ k % 2 ^ 16

-- `x >> k`
abbrev pub shr : ℕ → ℕ → ℕ
shr x k = x / 2 ^ k

-- An operation `f` on the binary digits of two numbers: `op` on each pair, and `rest` of the second
-- number where the first has no digit left.
module _ (rest : ℕ → ℕ) (op : ℕ → ℕ → ℕ) where
  enough_rounds :
      (limit rounds x y : ℕ)
      → rounds ≤ limit
      → x ≤ rounds
      → digits rest op rounds x y ≡ digits rest op x x y
  enough_rounds limit zero zero y _ _ = refl
  enough_rounds limit (suc rounds) zero y _ _ = refl
  enough_rounds limit zero (suc x) y _ small = absurd (omega arith)
  enough_rounds zero (suc rounds) (suc x) y large _ = absurd (omega arith)
  enough_rounds (suc limit) (suc rounds) (suc x) y large small =
      let half : suc x / 2 ≤ x = omega arith in
      omega (
        arith,
        enough_rounds limit rounds (suc x / 2) (y / 2) (omega arith) (omega arith),
        enough_rounds limit x (suc x / 2) (y / 2) (omega arith) half,
      )

  module _ (f : ℕ → ℕ → ℕ) (bitwise : (x y : ℕ) → f x y ≡ digits rest op x x y) where
    -- The digit of least weight apart.
    lowest_apart : (x y : ℕ) → 0 < x → f x y ≡ f (x / 2) (y / 2) * 2 + op (x % 2) (y % 2)
    lowest_apart zero y positive = absurd (omega arith)
    lowest_apart (suc x) y positive =
        let half : suc x / 2 ≤ x = omega arith in
        omega (
          arith,
          bitwise (suc x) y,
          bitwise (suc x / 2) (y / 2),
          enough_rounds x x (suc x / 2) (y / 2) (omega arith) half,
        )

pub zero-bit_or : (b : ℕ) → bit_or 0 b ≡ b
zero-bit_or = bit_or-bitwise 0

zero-bit_and : (b : ℕ) → bit_and 0 b ≡ 0
zero-bit_and = bit_and-bitwise 0

or_lowest : (x y : ℕ) → bit_or x y ≡ bit_or (x / 2) (y / 2) * 2 + max (x % 2) (y % 2)
or_lowest zero y = omega (arith, zero-bit_or y, zero-bit_or (y / 2))
or_lowest (suc x) y = lowest_apart (λ y. y) max bit_or bit_or-bitwise (suc x) y (omega arith)

and_lowest : (x y : ℕ) → bit_and x y ≡ bit_and (x / 2) (y / 2) * 2 + min (x % 2) (y % 2)
and_lowest zero y = omega (arith, zero-bit_and y, zero-bit_and (y / 2))
and_lowest (suc x) y = lowest_apart (λ y. 0) min bit_and bit_and-bitwise (suc x) y (omega arith)

-- With 0 on the right, by halving, which `limit` bounds.
bit_or-zero : (x : ℕ) → (limit : ℕ) → x ≤ limit → bit_or x 0 ≡ x
bit_or-zero zero _ _ = refl
bit_or-zero (suc x) zero large = absurd (omega arith)
bit_or-zero (suc x) (suc limit) small =
    or_lowest (suc x) 0 ∙ omega (arith, bit_or-zero (suc x / 2) limit (omega arith))

bit_and-zero : (x : ℕ) → (limit : ℕ) → x ≤ limit → bit_and x 0 ≡ 0
bit_and-zero zero _ _ = refl
bit_and-zero (suc x) zero large = absurd (omega arith)
bit_and-zero (suc x) (suc limit) small =
    and_lowest (suc x) 0 ∙ omega (arith, bit_and-zero (suc x / 2) limit (omega arith))

shifted_suc : (k hi : ℕ) → hi * 2 ^ suc k ≡ hi * 2 ^ k * 2
shifted_suc k hi = omega (arith, ap (λ (t : ℕ). hi * t) (pow-suc 2 k))

bit_or_half : (k hi lo : ℕ) → bit_or (hi * 2 ^ suc k / 2) (lo / 2) ≡ bit_or (hi * 2 ^ k) (lo / 2)
bit_or_half k hi lo =
    let e : hi * 2 ^ suc k / 2 ≡ hi * 2 ^ k = omega (arith, shifted_suc k hi) in rw e

-- Bits that do not overlap are added.
pub bit_or-shifted : (k hi lo : ℕ) → lo < 2 ^ k → bit_or (hi * 2 ^ k) lo ≡ hi * 2 ^ k + lo
bit_or-shifted zero hi lo h =
    let e : lo ≡ 0 = omega arith in
    let e' : hi * 2 ^ 0 ≡ hi = omega arith in
    rw (e, e') (bit_or-zero hi hi (omega arith) ∙ omega arith)
bit_or-shifted (suc k) hi lo h = omega (
  arith,
  shifted_suc k hi,
  or_lowest (hi * 2 ^ suc k) lo,
  bit_or_half k hi lo,
  bit_or-shifted k hi (lo / 2) (omega (arith, pow-suc 2 k)),
)

pow-pos : (k : ℕ) → 0 < 2 ^ k
pow-pos zero = omega arith
pow-pos (suc k) = omega (arith, pow-suc 2 k, pow-pos k)

-- One more digit: `n` modulo `2 * p` by the half of `n` modulo `p`.
mod_double : (p n : ℕ) → 0 < p → n % (p * 2) ≡ n / 2 % p * 2 + n % 2
mod_double p n h =
    let q : ℕ = n / 2 / p in
    let r : ℕ = n / 2 % p * 2 + n % 2 in
    let e : n ≡ p * 2 * q + r = omega (arith, div-add-mod (n / 2) p) in
    ap (λ (t : ℕ). t % (p * 2)) e
    ∙ mul-add-mod_self_left (p * 2) q r
    ∙ mod-eq_of_lt (omega (arith, mod-lt (n / 2) h))

-- A mask of `k` ones.
pub bit_and_mask : (k n : ℕ) → bit_and n (2 ^ k - 1) ≡ n % 2 ^ k
bit_and_mask zero n = omega (arith, bit_and-zero n n (omega arith))
bit_and_mask (suc k) n =
    let p : ℕ = 2 ^ k in
    let pos : 0 < p = pow-pos k in
    let e : 2 ^ suc k ≡ p * 2 = pow-suc 2 k in
    let odd : (p * 2 - 1) % 2 ≡ 1 = omega arith in
    let half : (p * 2 - 1) / 2 ≡ p - 1 = omega arith in
    rw e (
      and_lowest n (p * 2 - 1)
      ∙ rw (half, odd, bit_and_mask k (n / 2), mod_double p n pos) (omega arith))
