-- ===== src/Tests/ListBits.antt =====
-- A bit set as the list of its numbers, an instance of the interface `BitSets`.
use rust_tftp.BitSets.{BitSets}
use rust_tftp.Common.{
  ℕ, ◌+◌, ◌<◌, zero, suc, Bool, true, false, List, [], ◌∷◌, ltb, ◌==◌, if◌then◌else◌, ◌≡◌, refl,
  arith, ◌↔◌,
}

unfoldable pub member : List ℕ → ℕ → Bool
member [] j = false
member (i ∷ s) j = if i == j then true else member s j

unfoldable pub without : List ℕ → ℕ → List ℕ
without [] i = []
without (k ∷ s) i = let rest = without s i in if k == i then rest else k ∷ rest

unfoldable pub below : ℕ → List ℕ
below zero = []
below (suc n) = n ∷ below n

unfoldable pub is_nil : List ℕ → Bool
is_nil [] = true
is_nil (i ∷ s) = false

pub member-below : (n i : ℕ) → member (below n) i ≡ ltb i n
unfolding member below
member-below zero i = ground arith
member-below (suc n) i = ground (arith, member-below n i)

pub member-without :
    (s : List ℕ) (i j : ℕ) → member (without s i) j ≡ (if i == j then false else member s j)
unfolding member without
member-without [] i j = ground arith
member-without (k ∷ s) i j = ground (arith, member-without s i j)

pub is_nil_iff : (s : List ℕ) → (is_nil s ≡ true) ↔ ((i : ℕ) → member s i ≡ false)
unfolding is_nil member
is_nil_iff [] = (λ e i. refl, λ e. refl)
is_nil_iff (k ∷ s) = (λ e. ground arith, λ e. ground (arith, e k))

pub member_nil : (i : ℕ) → member [] i ≡ false
unfolding member
member_nil i = refl

pub member_cons : (s : List ℕ) (i j : ℕ) → member (i ∷ s) j ≡ (if i == j then true else member s j)
unfolding member
member_cons s i j = refl

unfoldable pub above : List ℕ → ℕ
above [] = 0
above (i ∷ s) = i + 1 + above s

pub member-above : (s : List ℕ) (i : ℕ) → member s i ≡ true → i < above s
unfolding member above
member-above [] i e = cc
member-above (k ∷ s) i e = ground (arith, member-above s i)

abbrev pub list_bits : BitSets
list_bits = record {
  BitSet = List ℕ;
  empty = [];
  full = below;
  insert = λ s i. i ∷ s;
  remove = without;
  contains = member;
  is_empty = is_nil;
  contains-empty = member_nil;
  contains-full = member-below;
  contains-insert = member_cons;
  contains-remove = member-without;
  is_empty_iff = is_nil_iff;
  limit = above;
  contains-limit = member-above;
}
