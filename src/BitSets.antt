-- ===== src/BitSets.antt =====
-- The crate `bit_set`, which send.rs and receive.rs use: its operations, with what they are
-- documented to do.
use rust_tftp.Common.{ℕ, ◌<◌, Bool, true, false, ◌≡◌, ◌↔◌, ltb, ◌==◌, if◌then◌else◌}

pub record BitSets : Type 1 where
  pub BitSet : Type 0
  -- `BitSet::new()`
  pub empty : BitSet
  -- `BitSet::from_bit_vec(BitVec::from_elem(n, true))`
  pub full : ℕ → BitSet
  pub insert : BitSet → ℕ → BitSet
  pub remove : BitSet → ℕ → BitSet
  pub contains : BitSet → ℕ → Bool
  pub is_empty : BitSet → Bool
  pub contains-empty : (i : ℕ) → contains empty i ≡ false
  pub contains-full : (n i : ℕ) → contains (full n) i ≡ ltb i n
  pub contains-insert :
      (s : BitSet) (i j : ℕ) → contains (insert s i) j ≡ (if i == j then true else contains s j)
  pub contains-remove :
      (s : BitSet) (i j : ℕ) → contains (remove s i) j ≡ (if i == j then false else contains s j)
  pub is_empty_iff : (s : BitSet) → (is_empty s ≡ true) ↔ ((i : ℕ) → contains s i ≡ false)
  -- A set is finite: its elements are below `limit`.
  pub limit : BitSet → ℕ
  pub contains-limit : (s : BitSet) (i : ℕ) → contains s i ≡ true → i < limit s
