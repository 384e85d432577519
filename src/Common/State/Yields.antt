-- ===== src/Common/State/Yields.antt =====
-- A predicate of the values that a computation can return, from a state of which a predicate holds
-- that its parts keep.
use mathlib.Core.Path.{◌≡◌, subst}
use mathlib.Core.Bool.{Bool, true, false}
use rust_tftp.Common.Outcome.{Outcome, ok, err, panic, hang}
use rust_tftp.Common.State.{Run, next, ◌>>=◌, pure, fail}
use rust_tftp.Common.State.Any.{Any, Keeps-Any}
use rust_tftp.Common.State.Keeps.{Keeps}
use rust_tftp.Common.Tests.{if◌then◌else◌}

unfoldable pub Returned : {E A : Type 0} → (A → Type 0) → Outcome E A → Type 0
Returned Q (ok a) = Q a
Returned Q (err e) = Unit {0}
Returned Q panic = Unit {0}
Returned Q hang = Unit {0}

pub Returned-ok :
    {E A : Type 0} (Q : A → Type 0) (o : Outcome E A) (a : A) → Returned Q o → o ≡ ok a → Q a
unfolding Returned
Returned-ok Q o a q e = subst (Returned Q) e q

pub record Yields {S E A : Type 0} (P : S → Type 0) (Q : A → Type 0) (m : Run S E A) : Type 0 where
  pub at : (s : S) → P s → Returned Q (m s).0

module _ {S E A : Type 0} {P : S → Type 0} {Q : A → Type 0} where
  pub Yields-pure : (a : A) → Q a → Yields {E = E} P Q (pure a)
  unfolding pure Returned
  Yields-pure a q = record { at = λ s p. q }

  pub Yields-fail : (e : E) → Yields {A = A} P Q (fail e)
  unfolding fail Returned
  Yields-fail e = record { at = λ s p. tt }

  pub Yields-if :
      (b : Bool) {m n : Run S E A} → Yields P Q m → Yields P Q n → Yields P Q (if b then m else n)
  Yields-if true k l = k
  Yields-if false k l = l

  next-Yields :
      {B : Type 0} (r : Outcome E B × S) (f : B → Run S E A)
      → P r.1
      → ((b : B) → Yields P Q (f b))
      → Returned Q (next r f).0
  unfolding Returned
  next-Yields (ok b, s) f p k = (k b).at s p
  next-Yields (err e, s) f p k = tt
  next-Yields (panic, s) f p k = tt
  next-Yields (hang, s) f p k = tt

  pub Yields-bind :
      {B : Type 0} {m : Run S E B} {f : B → Run S E A}
      → Keeps P m
      → ((b : B) → Yields P Q (f b))
      → Yields P Q (m >>= f)
  unfolding ◌>>=◌
  Yields-bind {m} {f} km kf = record { at = λ s p. next-Yields (m s) f (km.at s p) kf }

module _ {S E A : Type 0} {Q : A → Type 0} where
  pub Yields-after :
      {B : Type 0} (m : Run S E B) {f : B → Run S E A}
      → ((b : B) → Yields Any Q (f b))
      → Yields Any Q (m >>= f)
  Yields-after m k = Yields-bind (Keeps-Any m) k

pub ruleset yields_rules = (Yields-pure, Yields-fail, Yields-if, Yields-after)
