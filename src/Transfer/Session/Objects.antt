-- ===== src/Transfer/Session/Objects.antt =====
-- Rules for the methods of an object, about a predicate of the object.
use rust_tftp.Common.{true, false, ◌⊎◌, inl, inr, ◌≡◌, Bool-cases}
use rust_tftp.Common.State.{Run}
use rust_tftp.Common.State.Keeps.{Keeps}
use rust_tftp.Net.{World}
use rust_tftp.Transfer.Session.{
  Method, world, self, update, with_lock, with_lock_held, with_lock_free,
}

-- The object satisfies `P`.
pub record InObject {S : Type 0} (P : S → Type 0) (t : S × World) : Type 0 where
  pub holds : P t.0

module _ {S E : Type 0} {P : S → Type 0} where
  pub InObject-world : {A : Type 0} (m : Run World E A) → Keeps (InObject P) (world m)
  unfolding world
  InObject-world m = record { at = λ t q. record { holds = q.holds } }

  pub InObject-self : Keeps {E = E} (InObject P) self
  unfolding self
  InObject-self = record { at = λ t q. q }

  pub InObject-update :
      (f : S → S) → ((s : S) → P s → P (f s)) → Keeps {E = E} (InObject P) (update f)
  unfolding update
  InObject-update f k = record { at = λ t q. record { holds = k t.0 q.holds } }

  with_lock-Keeps :
      {A : Type 0} (body otherwise : Method S E A) (t : S × World)
      → Keeps (InObject P) body
      → Keeps (InObject P) otherwise
      → InObject P t
      → (t.1.locked ≡ true) ⊎ (t.1.locked ≡ false)
      → InObject P (with_lock body otherwise t).1
  with_lock-Keeps body otherwise (s, w) k l q (inl held) =
      rw (with_lock_held body otherwise s w held) (l.at (s, w) q)
  with_lock-Keeps body otherwise (s, w) k l q (inr free) =
      rw (with_lock_free body otherwise s w free) (record {
        holds = (k.at (s, record w { locked = true }) (record { holds = q.holds })).holds;
      })

  pub InObject-with_lock :
      {A : Type 0} {body otherwise : Method S E A}
      → Keeps (InObject P) body
      → Keeps (InObject P) otherwise
      → Keeps (InObject P) (with_lock body otherwise)
  InObject-with_lock {body} {otherwise} k l = record {
    at = λ t q. with_lock-Keeps body otherwise t k l q (Bool-cases t.1.locked);
  }

pub ruleset object_rules = (InObject-world, InObject-self, InObject-update, InObject-with_lock)
