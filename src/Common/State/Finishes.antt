-- ===== src/Common/State/Finishes.antt =====
-- Computations that return or panic, from a state of which a predicate holds.
use mathlib.Core.Path.{refl}
use mathlib.Core.Bool.{Bool, true, false}
use rust_tftp.Common.Outcome.{Outcome, ok, err, panic, hang}
use rust_tftp.Common.Outcome.Ends.{Ends, Ends-ok, Ends-err, Ends-panic}
use rust_tftp.Common.State.{Run, next, ◌>>=◌, pure, fail, lift, attempt, ignore, caught, ignored}
use rust_tftp.Common.State.Any.{Any}
use rust_tftp.Common.State.Keeps.{Keeps}
use rust_tftp.Common.Tests.{if◌then◌else◌}

pub record Finishes {S E A : Type 0} (P : S → Type 0) (m : Run S E A) : Type 0 where
  pub at : (s : S) → P s → Ends (m s).0

module _ {S E A : Type 0} {P : S → Type 0} where
  pub Finishes-pure : (a : A) → Finishes {E = E} P (pure a)
  unfolding pure
  Finishes-pure a = record { at = λ s p. Ends-ok a }

  pub Finishes-fail : (e : E) → Finishes {A = A} P (fail e)
  unfolding fail
  Finishes-fail e = record { at = λ s p. Ends-err e }

  pub Finishes-lift : (o : Outcome E A) → Ends o → Finishes P (lift o)
  unfolding lift
  Finishes-lift o k = record { at = λ s p. k }

  pub Finishes-if :
      (b : Bool) {m n : Run S E A} → Finishes P m → Finishes P n → Finishes P (if b then m else n)
  Finishes-if true k l = k
  Finishes-if false k l = l

module _ {S E A : Type 0} where
  next-Finishes :
      {B : Type 0} (r : Outcome E A × S) {f : A → Run S E B}
      → Ends r.0
      → ((a : A) → Finishes Any (f a))
      → Ends (next r f).0
  next-Finishes (ok a, s) k l = (l a).at s tt
  next-Finishes (err e, s) k l = Ends-err e
  next-Finishes (panic, s) k l = Ends-panic
  next-Finishes (hang, s) k l = absurd (k.at refl)

  caught-Finishes : (F : Type 0) (r : Outcome E A × S) → Ends r.0 → Ends (caught {F = F} r).0
  caught-Finishes F (ok a, s) k = Ends-ok _
  caught-Finishes F (err e, s) k = Ends-ok _
  caught-Finishes F (panic, s) k = Ends-panic
  caught-Finishes F (hang, s) k = absurd (k.at refl)

  ignored-Finishes : (F : Type 0) (r : Outcome E A × S) → Ends r.0 → Ends (ignored {F = F} r).0
  ignored-Finishes F (ok a, s) k = Ends-ok _
  ignored-Finishes F (err e, s) k = Ends-ok _
  ignored-Finishes F (panic, s) k = Ends-panic
  ignored-Finishes F (hang, s) k = absurd (k.at refl)

-- Where the predicate is kept, it holds behind the first computation too.
next-then :
    {S E A B : Type 0} {P : S → Type 0} (r : Outcome E A × S) {f : A → Run S E B}
    → Ends r.0
    → P r.1
    → ((a : A) → Finishes P (f a))
    → Ends (next r f).0
next-then (ok a, s) k p l = (l a).at s p
next-then (err e, s) k p l = Ends-err e
next-then (panic, s) k p l = Ends-panic
next-then (hang, s) k p l = absurd (k.at refl)

module _ {S E A : Type 0} {P : S → Type 0} where
  pub Finishes-then :
      {B : Type 0} {m : Run S E A} {f : A → Run S E B}
      → Finishes Any m
      → Keeps P m
      → ((a : A) → Finishes P (f a))
      → Finishes P (m >>= f)
  unfolding ◌>>=◌
  Finishes-then {m} k keeps l = record { at = λ s p. next-then (m s) (k.at s tt) (keeps.at s p) l }

  pub Finishes-from : {m : Run S E A} → Finishes Any m → Finishes P m
  Finishes-from k = record { at = λ s p. k.at s tt }

  -- What stands behind it finishes from any state.
  pub Finishes-bind :
      {B : Type 0} {m : Run S E A} {f : A → Run S E B}
      → Finishes P m
      → ((a : A) → Finishes Any (f a))
      → Finishes P (m >>= f)
  unfolding ◌>>=◌
  Finishes-bind {m} k l = record { at = λ s p. next-Finishes (m s) (k.at s p) l }

  pub Finishes-attempt :
      {F : Type 0} {m : Run S E A} → Finishes P m → Finishes P (attempt {F = F} m)
  unfolding attempt
  Finishes-attempt {F} {m} k = record { at = λ s p. caught-Finishes F (m s) (k.at s p) }

  pub Finishes-ignore : {F : Type 0} {m : Run S E A} → Finishes P m → Finishes P (ignore {F = F} m)
  unfolding ignore
  Finishes-ignore {F} {m} k = record { at = λ s p. ignored-Finishes F (m s) (k.at s p) }

pub ruleset finishes_rules = (
  Finishes-pure, Finishes-fail, Finishes-lift, Finishes-if, Finishes-bind, Finishes-attempt,
  Finishes-ignore,
)
