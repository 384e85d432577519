-- ===== src/Common/Copies.antt =====
-- Where a copy or a write falls on a part of a list that is built by `++`.
use rust_tftp.Common.Lists.{
  length, set, take, drop, length-append, take-append, drop-append, get_elem?, replicate,
  replicate-add, length-replicate,
}
use rust_tftp.Common.Tests.{le→leb, eq→==, lt→ltb}
use rust_tftp.Common.Outcome.{ok, panic}
use rust_tftp.Common.Slices.{index, store, slice, copy_into}
use Prim.Native.Nat.{ℕ, ◌+◌, ◌-◌, ◌≤◌}
use mathlib.Core.Path.{◌≡◌, refl, sym, ap, ◌∙◌}
use mathlib.Core.Logic.{◌≢◌}
use mathlib.Core.Option.{some}
use mathlib.Core.List.{List, [], ◌∷◌, ◌++◌, append_assoc, append-nil}
use native.Mathlib.Omega.{arith}

module _ {ℓ} {A : Type ℓ} where
  set-append : (xs ys : List A) (y v : A) → set (xs ++ y ∷ ys) (length xs) v ≡ xs ++ v ∷ ys
  set-append [] ys y v = refl
  set-append (x ∷ xs) ys y v = ap (◌∷◌ x) (set-append xs ys y v)

  length-append3 :
      (xs ys zs : List A) → length (xs ++ (ys ++ zs)) ≡ length xs + length ys + length zs
  length-append3 xs ys zs = omega (arith, length-append xs (ys ++ zs), length-append ys zs)

  drop-append3 :
      (xs ys zs : List A) (n : ℕ) → n ≡ length xs + length ys → drop n (xs ++ (ys ++ zs)) ≡ zs
  drop-append3 xs ys zs n e =
      rw (← append_assoc xs ys zs)
        (drop-append n (xs ++ ys) zs (omega (arith, length-append xs ys)))

  get_elem?-append_head : (xs ys : List A) (y : A) → get_elem? (xs ++ y ∷ ys) (length xs) ≡ some y
  get_elem?-append_head [] ys y = refl
  get_elem?-append_head (x ∷ xs) ys y = get_elem?-append_head xs ys y

module _ {ℓ κ} {E : Type ℓ} {A : Type κ} where
  -- The element behind `xs`.
  pub index-append :
      (xs ys : List A) (y : A) (i : ℕ) → i ≡ length xs → index {E = E} (xs ++ y ∷ ys) i ≡ ok y
  unfolding index
  index-append xs ys y i e = rw e (rw (get_elem?-append_head xs ys y, index))

  -- A write to the element behind `xs`.
  pub store-append :
      (xs ys : List A) (y v : A) (i : ℕ)
      → i ≡ length xs
      → store {E = E} (xs ++ y ∷ ys) i v ≡ ok (xs ++ v ∷ ys)
  unfolding store
  store-append xs ys y v i e = rw e (
      rw (
        lt→ltb (length xs) (length (xs ++ y ∷ ys)) (omega (arith, length-append xs (y ∷ ys))),
        set-append xs ys y v,
      ))

  -- A copy over the part `ys`.
  pub copy_into-append :
      (xs ys zs src : List A) (lo hi : ℕ)
      → lo ≡ length xs
      → hi ≡ length xs + length ys
      → length src ≡ length ys
      → copy_into {E = E} (xs ++ (ys ++ zs)) lo hi src ≡ ok (xs ++ (src ++ zs))
  unfolding copy_into
  copy_into-append xs ys zs src lo hi el eh es = rw (
    le→leb lo hi (omega arith),
    le→leb hi (length (xs ++ (ys ++ zs))) (omega (arith, length-append3 xs ys zs)),
    eq→== (length src) (hi - lo) (omega arith),
    take-append lo xs (ys ++ zs) el,
    drop-append3 xs ys zs hi eh,
  )

  -- A copy over the end.
  pub copy_into_end :
      (xs ys src : List A) (lo hi : ℕ)
      → lo ≡ length xs
      → hi ≡ length xs + length ys
      → length src ≡ length ys
      → copy_into {E = E} (xs ++ ys) lo hi src ≡ ok (xs ++ src)
  copy_into_end xs ys src lo hi el eh es =
      simp append-nil at (copy_into-append xs ys [] src lo hi el eh es)

  -- The slice that is the part `ys`.
  pub slice-append :
      (xs ys zs : List A) (lo hi : ℕ)
      → lo ≡ length xs
      → hi ≡ length xs + length ys
      → slice {E = E} (xs ++ (ys ++ zs)) lo hi ≡ ok ys
  unfolding slice
  slice-append xs ys zs lo hi el eh = rw (
    le→leb lo hi (omega arith),
    le→leb hi (length (xs ++ (ys ++ zs))) (omega (arith, length-append3 xs ys zs)),
    drop-append lo xs (ys ++ zs) el,
    take-append (hi - lo) ys zs (omega arith),
  )

  -- A copy to the front of a buffer of one value.
  pub copy_into-replicate :
      (n hi : ℕ) (a : A) (src : List A)
      → length src ≤ n
      → hi ≡ length src
      → copy_into {E = E} (replicate n a) 0 hi src ≡ ok (src ++ replicate (n - length src) a)
  copy_into-replicate n hi a src h e =
      let split : n ≡ length src + (n - length src) = omega arith in
      ap (λ (k : ℕ). copy_into {E = E} (replicate k a) 0 hi src) split
      ∙ ap (λ (xs : List A). copy_into {E = E} xs 0 hi src)
          (replicate-add (length src) (n - length src) a)
      ∙ copy_into-append [] (replicate (length src) a) (replicate (n - length src) a) src 0 hi refl
          (omega (arith, length-replicate (length src) a)) (sym (length-replicate (length src) a))

  -- A source longer or shorter than the range.
  pub copy_into_differs :
      (xs : List A) (lo hi : ℕ) (src : List A)
      → length src ≢ hi - lo
      → copy_into {E = E} xs lo hi src ≡ panic
  unfolding copy_into
  copy_into_differs xs lo hi src h = ground arith

  -- The slice from the end of `xs` on.
  pub slice_end :
      (xs ys : List A) (lo hi : ℕ)
      → lo ≡ length xs
      → hi ≡ length xs + length ys
      → slice {E = E} (xs ++ ys) lo hi ≡ ok ys
  slice_end xs ys lo hi el eh = simp append-nil at (slice-append xs ys [] lo hi el eh)

  -- The same two, behind one more element and one more part.
  pub copy_into_after :
      (xs ys zs src : List A) (x : A) (lo hi : ℕ)
      → lo ≡ length xs + 1
      → hi ≡ length xs + 1 + length ys
      → length src ≡ length ys
      → copy_into {E = E} (xs ++ x ∷ (ys ++ zs)) lo hi src ≡ ok (xs ++ x ∷ (src ++ zs))
  copy_into_after xs ys zs src x lo hi el eh es = simp append_assoc at (
      copy_into-append (xs ++ x ∷ []) ys zs src lo hi (omega (arith, length-append xs (x ∷ [])))
        (omega (arith, length-append xs (x ∷ []))) es)

  pub store_after :
      (xs ys zs : List A) (x y v : A) (i : ℕ)
      → i ≡ length xs + 1 + length ys
      → store {E = E} (xs ++ x ∷ (ys ++ y ∷ zs)) i v ≡ ok (xs ++ x ∷ (ys ++ v ∷ zs))
  store_after xs ys zs x y v i e =
      simp append_assoc at
        (store-append (xs ++ x ∷ ys) zs y v i (omega (arith, length-append xs (x ∷ ys))))

  -- A slice within its bounds.
  pub slice-take-drop :
      (xs : List A) (lo hi : ℕ)
      → lo ≤ hi
      → hi ≤ length xs
      → slice {E = E} xs lo hi ≡ ok (take (hi - lo) (drop lo xs))
  unfolding slice
  slice-take-drop xs lo hi h k = rw (le→leb lo hi h, le→leb hi (length xs) k)
