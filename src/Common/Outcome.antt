-- ===== src/Common/Outcome.antt =====
-- What a Rust call comes to: a value, an error, a panic, or no return at all.
pub mod Ends
use mathlib.Core.Path.{◌≡◌, refl}
use mathlib.Core.Bool.{Bool, true, false}

pub data Outcome {ℓ κ} (E : Type ℓ) (A : Type κ) : Type (ℓ ⊔ κ) where
  ok : A → Outcome E A
  err : E → Outcome E A
  panic : Outcome E A
  hang : Outcome E A

infixl 5 ◌>>=◌ ◌>>◌
abbrev pub ◌>>=◌ {ℓ κ μ} :
    {E : Type ℓ} {A : Type κ} {B : Type μ} → Outcome E A → (A → Outcome E B) → Outcome E B
ok a >>= f = f a
err e >>= f = err e
panic >>= f = panic
hang >>= f = hang

abbrev pub ◌>>◌ {ℓ κ μ} :
    {E : Type ℓ} {A : Type κ} {B : Type μ} → Outcome E A → Outcome E B → Outcome E B
m >> k = m >>= λ _. k

-- `debug_assert!`: a test that only a debug build makes.
abbrev pub debug_assert {ℓ} : {E : Type ℓ} → Bool → Bool → Outcome E (Unit {0})
debug_assert true false = panic
debug_assert true true = ok tt
debug_assert false b = ok tt

-- `if !test { return Err(e) }`
abbrev pub ensure {ℓ} : {E : Type ℓ} → Bool → E → Outcome E (Unit {0})
ensure true e = ok tt
ensure false e = err e

pub >>=-eq-ok {ℓ κ μ} :
    {E : Type ℓ} {A : Type κ} {B : Type μ} (first : Outcome E A) (follow : A → Outcome E B)
    {result : B}
    → first >>= follow ≡ ok result
    → (value : A) × (first ≡ ok value) × (follow value ≡ ok result)
>>=-eq-ok (ok value) follow same = (value, refl, same)
>>=-eq-ok (err e) follow same = cc
>>=-eq-ok panic follow same = cc
>>=-eq-ok hang follow same = cc

pub ensure-eq-ok {ℓ κ} :
    {E : Type ℓ} {B : Type κ} (test : Bool) (e : E) (k : Outcome E B) {b : B}
    → ensure test e >> k ≡ ok b
    → (test ≡ true) × (k ≡ ok b)
ensure-eq-ok true e k h = (refl, h)
ensure-eq-ok false e k h = cc
