-- ===== src/Receiver/Packets/Room.antt =====
-- How many datagrams are before a receiver.
use rust_tftp.Common.{ℕ, ◌<◌, length, Bool, ltb, true, false, ◌⊎◌, inl, inr, ◌≡◌, Bool-cases}
use rust_tftp.Common.Slices.{Bytes}
use rust_tftp.Common.State.Finishes.{Finishes}
use rust_tftp.Common.State.Keeps.{
  Keeps, Keeps-bind, Keeps-lift, Keeps-if, Keeps-fail, Keeps-pure, keeps_rules,
}
use rust_tftp.Common.Outcome.Ends.{Ends}
use rust_tftp.Header.Types.{Header}
use rust_tftp.Net.{SocketAddr, World, Sent, wrote, refused, send_to, answer_send, send, now}
use rust_tftp.Transfer.Session.{Method, with_lock, with_lock_held, with_lock_free}
use rust_tftp.Transfer.Session.Keeping.{InWorld, Keeps-world, Keeps-self, Keeps-update}

-- Fewer events are queued than there are rounds.
pub record Room (rounds : ℕ) (w : World) : Type 0 where
  pub room : length w.inbox < rounds

module _ {rounds : ℕ} where
  pub now-Room : {E : Type 0} → Keeps {E = E} (Room rounds) now
  unfolding now
  now-Room = record { at = λ w q. record { room = q.room } }

  answer_send-Room :
      (a : Sent) (raw : Bytes) (to : SocketAddr) (w : World)
      → Room rounds w
      → Room rounds (answer_send a raw to w).1
  unfolding answer_send
  answer_send-Room (wrote n) raw to w q = record { room = q.room }
  answer_send-Room (refused e) raw to w q = q

  send_to-Room : (raw : Bytes) (to : SocketAddr) → Keeps (Room rounds) (send_to raw to)
  unfolding send_to
  send_to-Room raw to = record {
    at = λ w q. answer_send-Room (w.send_results 0) raw to _ (record { room = q.room });
  }

  pub send-Room :
      (debug : Bool) (h : Header) (to : SocketAddr) → Keeps (Room rounds) (send debug h to)
  unfolding send
  send-Room debug h to = Keeps-bind (Keeps-lift _) λ raw.
      Keeps-bind (send_to-Room raw to)
        λ n. Keeps-if (ltb n (length raw)) (Keeps-fail _) (Keeps-pure tt)

module _ {S E A : Type 0} {rounds : ℕ} {body otherwise : Method S E A} where
  with_lock-keeps :
      (t : S × World)
      → Keeps (InWorld (Room rounds)) body
      → Keeps (InWorld (Room rounds)) otherwise
      → InWorld (Room rounds) t
      → (t.1.locked ≡ true) ⊎ (t.1.locked ≡ false)
      → InWorld (Room rounds) (with_lock body otherwise t).1
  with_lock-keeps (s, w) k l q (inl held) =
      rw (with_lock_held body otherwise s w held) (l.at (s, w) q)
  with_lock-keeps (s, w) k l q (inr free) =
      let after =
        k.at (s, record w { locked = true }) (record { held = record { room = q.held.room } }) in
      rw (with_lock_free body otherwise s w free)
        (record { held = record { room = after.held.room } })

  pub with_lock-Room :
      Keeps (InWorld (Room rounds)) body
      → Keeps (InWorld (Room rounds)) otherwise
      → Keeps (InWorld (Room rounds)) (with_lock body otherwise)
  with_lock-Room k l = record { at = λ t q. with_lock-keeps t k l q (Bool-cases t.1.locked) }

  with_lock-Ends :
      (t : S × World)
      → Finishes (InWorld (Room rounds)) body
      → Finishes (InWorld (Room rounds)) otherwise
      → InWorld (Room rounds) t
      → (t.1.locked ≡ true) ⊎ (t.1.locked ≡ false)
      → Ends (with_lock body otherwise t).0
  with_lock-Ends (s, w) k l q (inl held) =
      rw (with_lock_held body otherwise s w held) (l.at (s, w) q)
  with_lock-Ends (s, w) k l q (inr free) =
      rw (with_lock_free body otherwise s w free)
        (k.at (s, record w { locked = true }) (record { held = record { room = q.held.room } }))

  pub with_lock-Finishes :
      Finishes (InWorld (Room rounds)) body
      → Finishes (InWorld (Room rounds)) otherwise
      → Finishes (InWorld (Room rounds)) (with_lock body otherwise)
  with_lock-Finishes k l = record { at = λ t q. with_lock-Ends t k l q (Bool-cases t.1.locked) }

pub ruleset room_rules =
    (keeps_rules, Keeps-world, Keeps-self, Keeps-update, now-Room, send-Room, with_lock-Room)
