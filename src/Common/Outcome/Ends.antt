-- ===== src/Common/Outcome/Ends.antt =====
-- Outcomes of calls that return or panic.
use mathlib.Core.Path.{refl}
use mathlib.Core.Logic.{◌≢◌}
use mathlib.Core.Bool.{Bool, true, false}
use mathlib.Core.List.{List}
use mathlib.Core.Option.{Option, none, some}
use Prim.Native.Nat.{ℕ}
use rust_tftp.Common.Outcome.{Outcome, ok, err, panic, hang, ◌>>=◌, ensure, debug_assert}
use rust_tftp.Common.Slices.{index, store, slice, copy_into}
use rust_tftp.Common.Tests.{if◌then◌else◌}

pub record Ends {E A : Type 0} (o : Outcome E A) : Type 0 where
  pub at : o ≢ hang

module _ {E A : Type 0} where
  pub Ends-ok : (a : A) → Ends {E = E} (ok a)
  Ends-ok a = record { at = λ e. cc }

  pub Ends-err : (e : E) → Ends {A = A} (err e)
  Ends-err e = record { at = λ h. cc }

  pub Ends-panic : Ends {E = E} {A = A} panic
  Ends-panic = record { at = λ e. cc }

  pub Ends-if : (b : Bool) {m n : Outcome E A} → Ends m → Ends n → Ends (if b then m else n)
  Ends-if true k l = k
  Ends-if false k l = l

  pub Ends-bind :
      {B : Type 0} (m : Outcome E A) {f : A → Outcome E B}
      → Ends m
      → ((a : A) → Ends (f a))
      → Ends (m >>= f)
  Ends-bind (ok a) k l = l a
  Ends-bind (err e) k l = record { at = λ h. cc }
  Ends-bind panic k l = record { at = λ h. cc }
  Ends-bind hang k l = absurd (k.at refl)

  Ends-option : (o : Option A) → Ends {E = E} (elim o [ none ↦ panic | some a ↦ ok a ])
  Ends-option none = Ends-panic
  Ends-option (some a) = Ends-ok a

module _ {E : Type 0} where
  pub Ends-index : {A : Type 0} (xs : List A) (i : ℕ) → Ends {E = E} (index xs i)
  unfolding index
  Ends-index xs i = Ends-option _

  pub Ends-store : {A : Type 0} (xs : List A) (i : ℕ) (a : A) → Ends {E = E} (store xs i a)
  unfolding store
  Ends-store xs i a = Ends-if _ (Ends-ok _) Ends-panic

  pub Ends-slice : {A : Type 0} (xs : List A) (lo hi : ℕ) → Ends {E = E} (slice xs lo hi)
  unfolding slice
  Ends-slice xs lo hi = Ends-if _ (Ends-ok _) Ends-panic

  pub Ends-copy_into :
      {A : Type 0} (xs : List A) (lo hi : ℕ) (src : List A) → Ends {E = E} (copy_into xs lo hi src)
  unfolding copy_into
  Ends-copy_into xs lo hi src = Ends-if _ (Ends-ok _) Ends-panic

  pub Ends-ensure : (b : Bool) (e : E) → Ends (ensure b e)
  Ends-ensure true e = Ends-ok tt
  Ends-ensure false e = Ends-err e

  pub Ends-debug_assert : (b c : Bool) → Ends {E = E} (debug_assert b c)
  Ends-debug_assert true true = Ends-ok tt
  Ends-debug_assert true false = Ends-panic
  Ends-debug_assert false c = Ends-ok tt

pub ruleset ends_rules = (
  Ends-ok, Ends-err, Ends-panic, Ends-if, Ends-bind, Ends-index, Ends-store, Ends-slice,
  Ends-copy_into, Ends-ensure, Ends-debug_assert,
)
