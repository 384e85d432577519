-- ===== src/Transfer/Session/Keeping.antt =====
-- Rules for the methods of an object, about a predicate of the world beside it.
use rust_tftp.Common.{Bool, ◌≡◌, refl, sym, ◌∙◌, true, false, ◌⊎◌, inl, inr, List, Bool-cases}
use rust_tftp.Common.Slices.{Bytes}
use rust_tftp.Common.State.{Run, pure}
use rust_tftp.Common.State.Keeps.{Keeps}
use rust_tftp.Net.{SocketAddr, World}
use rust_tftp.Net.Reading.{Still}
use rust_tftp.Transfer.Session.{
  Method, world, self, update, with_lock, with_lock_held, with_lock_free,
}

-- The world beside the object satisfies `Q`.
pub record InWorld {S : Type 0} (Q : World → Type 0) (t : S × World) : Type 0 where
  pub held : Q t.1

pub Keeps-world :
    {S E A : Type 0} {Q : World → Type 0} {m : Run World E A}
    → Keeps Q m
    → Keeps (InWorld {S = S} Q) (world m)
unfolding world
Keeps-world k = record { at = λ t q. record { held = k.at t.1 q.held } }

pub Keeps-self : {S E : Type 0} {Q : World → Type 0} → Keeps {E = E} (InWorld {S = S} Q) self
unfolding self
Keeps-self = record { at = λ t q. q }

pub Keeps-update :
    {S E : Type 0} {Q : World → Type 0} (f : S → S) → Keeps {E = E} (InWorld {S = S} Q) (update f)
unfolding update
Keeps-update f = record { at = λ t q. record { held = q.held } }

module _ {S E A : Type 0} (body : Method S E A) (a : A) where
  with_lock-cases :
      (t : S × World)
      → ((out : List (Bytes × SocketAddr)) → Keeps (InWorld (Still true out)) body)
      → (t.1.locked ≡ true) ⊎ (t.1.locked ≡ false)
      → ((with_lock body (pure a) t).1.1.outbox ≡ t.1.outbox)
        × ((with_lock body (pure a) t).1.1.locked ≡ t.1.locked)
  unfolding pure
  with_lock-cases (s, w) k (inl held) = rw (with_lock_held body (pure a) s w held) (refl, refl)
  with_lock-cases (s, w) k (inr free) = rw (with_lock_free body (pure a) s w free) (
    ((k w.outbox).at (s, record w { locked = true })
        (record { held = record { is_locked = refl; is_sent = refl } })).held.is_sent,
    sym free,
  )

  -- A body that sends nothing while the lock is held: a method that takes the lock for it, or
  -- returns at once where it cannot, sends nothing and leaves the lock as it was.
  pub with_lock-outbox :
      (t : S × World)
      → ((out : List (Bytes × SocketAddr)) → Keeps (InWorld (Still true out)) body)
      → ((with_lock body (pure a) t).1.1.outbox ≡ t.1.outbox)
        × ((with_lock body (pure a) t).1.1.locked ≡ t.1.locked)
  with_lock-outbox t k = with_lock-cases t k (Bool-cases t.1.locked)

pub Keeps-with_lock :
    {S E A : Type 0} {b : Bool} {out : List (Bytes × SocketAddr)} {body : Method S E A} (a : A)
    → ((out : List (Bytes × SocketAddr)) → Keeps (InWorld (Still true out)) body)
    → Keeps (InWorld (Still b out)) (with_lock body (pure a))
Keeps-with_lock a k = record {
  at = λ t q. record {
    held = record {
      is_locked = (with_lock-outbox _ a t k).1 ∙ q.held.is_locked;
      is_sent = (with_lock-outbox _ a t k).0 ∙ q.held.is_sent;
    };
  };
}
