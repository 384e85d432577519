-- ===== src/Common/Splices.antt =====
-- Parts of a list, and a list with a part replaced.
use rust_tftp.Common.Lists.{
  length, take, drop, length-append, length-take, length-drop, take-append, take_all, drop_all,
  drop-append, drop-drop,
}
use Prim.Native.Nat.{ℕ, zero, suc, ◌+◌, ◌-◌, ◌≤◌}
use mathlib.Core.Path.{◌≡◌, refl, sym, ap, ◌∙◌}
use mathlib.Core.List.{List, [], ◌∷◌, ◌++◌, append-nil}
use native.Mathlib.Omega.{arith}

module _ {ℓ} {A : Type ℓ} where
  -- `n` elements from `a` on.
  abbrev pub part : ℕ → ℕ → List A → List A
  part a n xs = take n (drop a xs)

  -- `src` in place of the elements from `lo` on.
  abbrev pub splice : List A → ℕ → List A → List A
  splice xs lo src = take lo xs ++ (src ++ drop (lo + length src) xs)

  take-append_front : (n : ℕ) (xs ys : List A) → n ≤ length xs → take n (xs ++ ys) ≡ take n xs
  take-append_front zero xs ys h = refl
  take-append_front (suc n) [] ys h = absurd (omega arith)
  take-append_front (suc n) (x ∷ xs) ys h = ap (◌∷◌ x) (take-append_front n xs ys (omega arith))

  -- A part of the front.
  pub part-append :
      (a n : ℕ) (xs ys : List A) → a + n ≤ length xs → part a n (xs ++ ys) ≡ part a n xs
  part-append zero n xs ys h = take-append_front n xs ys (omega arith)
  part-append (suc a) n [] ys h = absurd (omega arith)
  part-append (suc a) n (x ∷ xs) ys h = part-append a n xs ys (omega arith)

  part-take : (a n k : ℕ) (xs : List A) → a + n ≤ k → part a n (take k xs) ≡ part a n xs
  part-take zero zero k xs h = refl
  part-take zero (suc n) zero xs h = absurd (omega arith)
  part-take zero (suc n) (suc k) [] h = refl
  part-take zero (suc n) (suc k) (x ∷ xs) h = ap (◌∷◌ x) (part-take zero n k xs (omega arith))
  part-take (suc a) n zero xs h = absurd (omega arith)
  part-take (suc a) n (suc k) [] h = refl
  part-take (suc a) n (suc k) (x ∷ xs) h = part-take a n k xs (omega arith)

  drop-append_past :
      (a : ℕ) (xs ys : List A) → length xs ≤ a → drop a (xs ++ ys) ≡ drop (a - length xs) ys
  drop-append_past a [] ys h = let e : a - 0 ≡ a = omega arith in rw e refl
  drop-append_past zero (x ∷ xs) ys h = absurd (omega arith)
  drop-append_past (suc a) (x ∷ xs) ys h =
      let e : suc a - suc (length xs) ≡ a - length xs = omega arith in
      rw e (drop-append_past a xs ys (omega arith))

  module _ (xs src : List A) (lo : ℕ) (inside : lo ≤ length xs) where
    length-front : length (take lo xs) ≡ lo
    length-front = omega (arith, length-take lo xs)

    pub part-splice_before : (a n : ℕ) → a + n ≤ lo → part a n (splice xs lo src) ≡ part a n xs
    part-splice_before a n h =
        part-append a n (take lo xs) (src ++ drop (lo + length src) xs)
          (omega (arith, length-front))
        ∙ part-take a n lo xs h

    pub part-splice_past :
        (a n : ℕ) → lo + length src ≤ a → part a n (splice xs lo src) ≡ part a n xs
    part-splice_past a n h =
        let e : lo + length src + (a - length (take lo xs) - length src) ≡ a =
          omega (arith, length-front) in
        ap (take n) (
          drop-append_past a (take lo xs) (src ++ drop (lo + length src) xs)
            (omega (arith, length-front))
          ∙ drop-append_past (a - length (take lo xs)) src (drop (lo + length src) xs)
              (omega (arith, length-front))
          ∙ drop-drop (a - length (take lo xs) - length src) (lo + length src) xs
          ∙ ap (λ (k : ℕ). drop k xs) e)

    -- The new part, whole.
    pub part-splice : part lo (length src) (splice xs lo src) ≡ src
    part-splice =
        ap (take (length src))
          (drop-append lo (take lo xs) (src ++ drop (lo + length src) xs) (sym length-front))
        ∙ take-append (length src) src (drop (lo + length src) xs) refl

    -- The new part at the end.
    pub part-splice_last :
        (n : ℕ) → length src ≤ n → length xs ≤ lo + length src → part lo n (splice xs lo src) ≡ src
    part-splice_last n h ends =
        ap (take n)
          (drop-append lo (take lo xs) (src ++ drop (lo + length src) xs) (sym length-front))
        ∙ ap (λ (ys : List A). take n (src ++ ys)) (drop_all (lo + length src) xs ends)
        ∙ ap (take n) (append-nil src)
        ∙ take_all n src h

    pub length-splice : lo + length src ≤ length xs → length (splice xs lo src) ≡ length xs
    length-splice h = omega (
      arith,
      length-append (take lo xs) (src ++ drop (lo + length src) xs),
      length-append src (drop (lo + length src) xs),
      length-front,
      length-drop (lo + length src) xs,
    )
