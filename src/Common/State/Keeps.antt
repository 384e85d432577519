-- ===== src/Common/State/Keeps.antt =====
-- A predicate of the state that a computation keeps, however it ends: a rule for each way to
-- build a computation.
use mathlib.Core.Bool.{Bool, true, false}
use rust_tftp.Common.Outcome.{Outcome, ok, err, panic, hang}
use rust_tftp.Common.State.{
  Run, next, ◌>>=◌, pure, fail, lift, attempt, ignore, caught, ignored, map_err,
}
use rust_tftp.Common.Tests.{if◌then◌else◌}

pub record Keeps {S E A : Type 0} (P : S → Type 0) (m : Run S E A) : Type 0 where
  pub at : (s : S) → P s → P (m s).1

module _ {S E A : Type 0} {P : S → Type 0} where
  pub Keeps-pure : (a : A) → Keeps {E = E} P (pure a)
  unfolding pure
  Keeps-pure a = record { at = λ s p. p }

  pub Keeps-fail : (e : E) → Keeps {A = A} P (fail e)
  unfolding fail
  Keeps-fail e = record { at = λ s p. p }

  pub Keeps-lift : (o : Outcome E A) → Keeps P (lift o)
  unfolding lift
  Keeps-lift o = record { at = λ s p. p }

  pub Keeps-if : (b : Bool) {m n : Run S E A} → Keeps P m → Keeps P n → Keeps P (if b then m else n)
  Keeps-if true k l = k
  Keeps-if false k l = l

module _ {S E : Type 0} (P : S → Type 0) where
  next-keeps :
      {A B : Type 0} (r : Outcome E A × S) {f : A → Run S E B}
      → P r.1
      → ((a : A) → Keeps P (f a))
      → P (next r f).1
  next-keeps (ok a, s) p k = (k a).at s p
  next-keeps (err e, s) p k = p
  next-keeps (panic, s) p k = p
  next-keeps (hang, s) p k = p

  caught-keeps : (F : Type 0) {A : Type 0} (r : Outcome E A × S) → P r.1 → P (caught {F = F} r).1
  caught-keeps F (ok a, s) p = p
  caught-keeps F (err e, s) p = p
  caught-keeps F (panic, s) p = p
  caught-keeps F (hang, s) p = p

  ignored-keeps : (F : Type 0) {A : Type 0} (r : Outcome E A × S) → P r.1 → P (ignored {F = F} r).1
  ignored-keeps F (ok a, s) p = p
  ignored-keeps F (err e, s) p = p
  ignored-keeps F (panic, s) p = p
  ignored-keeps F (hang, s) p = p

  pub map_err-keeps : {F A : Type 0} (f : E → F) (r : Outcome E A × S) → P r.1 → P (map_err f r).1
  map_err-keeps f (ok a, s) p = p
  map_err-keeps f (err e, s) p = p
  map_err-keeps f (panic, s) p = p
  map_err-keeps f (hang, s) p = p

module _ {S E A : Type 0} {P : S → Type 0} where
  pub Keeps-bind :
      {B : Type 0} {m : Run S E A} {f : A → Run S E B}
      → Keeps P m
      → ((a : A) → Keeps P (f a))
      → Keeps P (m >>= f)
  unfolding ◌>>=◌
  Keeps-bind {m} km kf = record { at = λ s p. next-keeps P (m s) (km.at s p) kf }

  pub Keeps-attempt : {F : Type 0} {m : Run S E A} → Keeps P m → Keeps P (attempt {F = F} m)
  unfolding attempt
  Keeps-attempt {F} {m} k = record { at = λ s p. caught-keeps P F (m s) (k.at s p) }

  pub Keeps-ignore : {F : Type 0} {m : Run S E A} → Keeps P m → Keeps P (ignore {F = F} m)
  unfolding ignore
  Keeps-ignore {F} {m} k = record { at = λ s p. ignored-keeps P F (m s) (k.at s p) }

pub ruleset keeps_rules =
    (Keeps-pure, Keeps-fail, Keeps-lift, Keeps-if, Keeps-bind, Keeps-attempt, Keeps-ignore)
