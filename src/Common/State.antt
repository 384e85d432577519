-- ===== src/Common/State.antt =====
-- Computations on a state, which end in an `Outcome` and keep the state they reached.
pub mod Keeps
pub mod Finishes
pub mod Any
pub mod Yields
use mathlib.Core.Logic.{◌⊎◌, inl, inr}
use mathlib.Core.Bool.{Bool}
use rust_tftp.Common.Outcome.{Outcome, ok, err, panic, hang}

abbrev pub Run : Type 0 → Type 0 → Type 0 → Type 0
Run S E A = S → Outcome E A × S

abbrev pub next : {S E A B : Type 0} → Outcome E A × S → (A → Run S E B) → Outcome E B × S
next (ok a, s) f = f a s
next (err e, s) f = (err e, s)
next (panic, s) f = (panic, s)
next (hang, s) f = (hang, s)

unfoldable pub pure : {S E A : Type 0} → A → Run S E A
pure a s = (ok a, s)

unfoldable pub fail : {S E A : Type 0} → E → Run S E A
fail e s = (err e, s)

-- A computation that does not touch the state.
unfoldable pub lift : {S E A : Type 0} → Outcome E A → Run S E A
lift o s = (o, s)

unfoldable pub modify : {S E : Type 0} → (S → S) → Run S E (Unit {0})
modify f s = (ok tt, f s)

-- `match` on the result of a call: an error is a value.
abbrev pub caught : {S E F A : Type 0} → Outcome E A × S → Outcome F (E ⊎ A) × S
caught (ok a, s) = (ok (inr a), s)
caught (err e, s) = (ok (inl e), s)
caught (panic, s) = (panic, s)
caught (hang, s) = (hang, s)

unfoldable pub attempt : {S E F A : Type 0} → Run S E A → Run S F (E ⊎ A)
attempt m s = caught (m s)

-- `let _ = …`
abbrev pub ignored : {S E F A : Type 0} → Outcome E A × S → Outcome F (Unit {0}) × S
ignored (ok a, s) = (ok tt, s)
ignored (err e, s) = (ok tt, s)
ignored (panic, s) = (panic, s)
ignored (hang, s) = (hang, s)

unfoldable pub ignore : {S E F A : Type 0} → Run S E A → Run S F (Unit {0})
ignore m s = ignored (m s)

infixl 5 ◌>>=◌ ◌>>◌
-- Opening this opens the computations above too.
unfoldable pub ◌>>=◌ : {S E A B : Type 0} → Run S E A → (A → Run S E B) → Run S E B
unfolding pure fail lift modify attempt ignore
◌>>=◌ m f s = next (m s) f

abbrev pub ◌>>◌ : {S E B : Type 0} → Run S E (Unit {0}) → Run S E B → Run S E B
m >> k = m >>= λ _. k

-- An error of another type, as by `Err(e) => Err(f(e))`.
abbrev pub map_err : {S E F A : Type 0} → (E → F) → Outcome E A × S → Outcome F A × S
map_err f (ok a, s) = (ok a, s)
map_err f (err e, s) = (err (f e), s)
map_err f (panic, s) = (panic, s)
map_err f (hang, s) = (hang, s)

-- An outcome that is no error, where another type of errors is wanted.
abbrev pub infallible : {E F A : Type 0} → Outcome E A → Outcome F A
infallible (ok a) = ok a
infallible (err e) = panic
infallible panic = panic
infallible hang = hang
