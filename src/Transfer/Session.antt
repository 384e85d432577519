-- ===== src/Transfer/Session.antt =====
-- An object and the world, the shared lock of the socket, and `Async` of the crate `futures`.
pub mod Ending
pub mod Keeping
pub mod Objects
use rust_tftp.Common.{ℕ, Bool, true, false, if◌then◌else◌, ◌≡◌, ap}
use rust_tftp.Common.Outcome.{Outcome, ok}
use rust_tftp.Common.State.{Run}
use rust_tftp.Net.{World}

pub data Async (A : Type 0) : Type 0 where
  ready : A → Async A
  not_ready : Async A

-- `MAX_ATTEMPTS` of client.rs
abbrev pub max_attempts : ℕ
max_attempts = 8

-- A method of an object of type `S`.
abbrev pub Method : Type 0 → Type 0 → Type 0 → Type 0
Method S = Run (S × World)

abbrev pub beside :
    {S A : Type 0} {E : Type 0} → S → Outcome E A × World → Outcome E A × (S × World)
beside s (o, w) = (o, (s, w))

-- An operation of the world alone.
unfoldable pub world : {S E A : Type 0} → Run World E A → Method S E A
world m (s, w) = beside s (m w)

-- `self`
unfoldable pub self : {S E : Type 0} → Method S E S
self (s, w) = (ok s, (s, w))

unfoldable pub update : {S E : Type 0} → (S → S) → Method S E (Unit {0})
update f (s, w) = (ok tt, (f s, w))

abbrev pub unlock : {S E A : Type 0} → Outcome E A × (S × World) → Outcome E A × (S × World)
unlock (o, (s, w)) = (o, (s, record w { locked = false }))

-- `if let Ok(ref mut socket) = self.socket.try_lock() { body } else { otherwise }`: the lock is
-- held for the whole of `body`, the calls of other methods in it included. No other thread takes or
-- releases it meanwhile: one that holds it when the call begins holds it when the call ends.
unfoldable pub with_lock : {S E A : Type 0} → Method S E A → Method S E A → Method S E A
with_lock body otherwise (s, w) =
    if w.locked then otherwise (s, w) else unlock (body (s, record w { locked = true }))

pub with_lock_held :
    {S E A : Type 0} (body otherwise : Method S E A) (s : S) (w : World)
    → w.locked ≡ true
    → with_lock body otherwise (s, w) ≡ otherwise (s, w)
unfolding with_lock
with_lock_held {E} {A} body otherwise s w held =
    ap (λ (b : Bool). if b then otherwise (s, w) else unlock (body (s, record w { locked = true })))
      held

pub with_lock_free :
    {S E A : Type 0} (body otherwise : Method S E A) (s : S) (w : World)
    → w.locked ≡ false
    → with_lock body otherwise (s, w) ≡ unlock (body (s, record w { locked = true }))
unfolding with_lock
with_lock_free {E} {A} body otherwise s w free =
    ap (λ (b : Bool). if b then otherwise (s, w) else unlock (body (s, record w { locked = true })))
      free

-- Runs a method of another object, and returns that object too.
abbrev pub returned :
    {S T E A : Type 0} → S → Outcome E A × (T × World) → (Outcome E A × T) × (S × World)
returned s (o, (t, w)) = ((o, t), (s, w))
