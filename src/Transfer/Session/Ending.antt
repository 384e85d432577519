-- ===== src/Transfer/Session/Ending.antt =====
-- Methods that return or panic.
use rust_tftp.Common.{ℕ, Bool, true, false, ◌⊎◌, inl, inr, ◌≡◌, refl, Bool-cases, ltb, length}
use rust_tftp.Common.Outcome.{Outcome, ok, err, panic, hang}
use rust_tftp.Common.Outcome.Ends.{Ends, Ends-ok, Ends-err, Ends-panic, ends_rules}
use rust_tftp.Common.State.{Run, infallible}
use rust_tftp.Common.State.Any.{Any}
use rust_tftp.Common.State.Finishes.{
  Finishes, Finishes-bind, Finishes-lift, Finishes-if, Finishes-fail, Finishes-pure,
}
use rust_tftp.Common.Slices.{Bytes}
use rust_tftp.Header.Ack
use rust_tftp.Header.Data
use rust_tftp.Header.Failed
use rust_tftp.Header.Packet.{into_raw_request}
use rust_tftp.Header.Rw
use rust_tftp.Header.Types.{Header, RequestType, RwHeader}
use rust_tftp.Net.{SocketAddr, World, Sent, wrote, refused, send_to, answer_send, send, now}
use rust_tftp.Transfer.Session.{
  Method, world, self, update, with_lock, with_lock_held, with_lock_free,
}

infallible-Ends : {E F A : Type 0} (o : Outcome E A) → Ends o → Ends {E = F} (infallible o)
infallible-Ends (ok a) k = Ends-ok a
infallible-Ends (err e) k = Ends-panic
infallible-Ends panic k = Ends-panic
infallible-Ends hang k = absurd (k.at refl)

assert_nonzero-Ends : (debug : Bool) (src : Bytes) (i : ℕ) → Ends (Rw.assert_nonzero debug src i)
assert_nonzero-Ends true src i = search ends_rules
assert_nonzero-Ends false src i = search ends_rules

into_raw_rw-Ends : (debug : Bool) (t : RequestType) (h : RwHeader t) → Ends (Rw.into_raw debug t h)
unfolding Rw.into_raw
into_raw_rw-Ends debug t h = search (ends_rules, assert_nonzero-Ends) depth 20

into_raw_request-Ends : (debug : Bool) (h : Header) → Ends (into_raw_request debug h)
unfolding into_raw_request Ack.into_raw Data.into_raw Failed.into_raw
into_raw_request-Ends debug (Header.ack h) = search ends_rules depth 20
into_raw_request-Ends debug (Header.read h) = into_raw_rw-Ends debug _ h
into_raw_request-Ends debug (Header.write h) = into_raw_rw-Ends debug _ h
into_raw_request-Ends debug (Header.error h) = search ends_rules depth 20
into_raw_request-Ends debug (Header.block h) = search ends_rules depth 20
into_raw_request-Ends debug (Header.invalid b) = Ends-panic

answer_send-Ends :
    (a : Sent) (raw : Bytes) (to : SocketAddr) (w : World) → Ends (answer_send a raw to w).0
unfolding answer_send
answer_send-Ends (wrote n) raw to w = Ends-ok n
answer_send-Ends (refused e) raw to w = Ends-err e

send_to-Finishes : (raw : Bytes) (to : SocketAddr) → Finishes Any (send_to raw to)
unfolding send_to
send_to-Finishes raw to = record { at = λ w q. answer_send-Ends (w.send_results 0) raw to _ }

pub send-Finishes : (debug : Bool) (h : Header) (to : SocketAddr) → Finishes Any (send debug h to)
unfolding send
send-Finishes debug h to =
    Finishes-bind (Finishes-lift _ (infallible-Ends _ (into_raw_request-Ends debug h))) λ raw.
      Finishes-bind (send_to-Finishes raw to)
        λ n. Finishes-if (ltb n (length raw)) (Finishes-fail _) (Finishes-pure tt)

pub now-Finishes : {E : Type 0} → Finishes {E = E} Any now
unfolding now
now-Finishes = record { at = λ w q. Ends-ok _ }

module _ {S E A : Type 0} where
  pub world-Finishes : {m : Run World E A} → Finishes Any m → Finishes {S = S × World} Any (world m)
  unfolding world
  world-Finishes k = record { at = λ t q. k.at t.1 tt }

  with_lock-cases :
      (body otherwise : Method S E A) (t : S × World)
      → Finishes Any body
      → Finishes Any otherwise
      → (t.1.locked ≡ true) ⊎ (t.1.locked ≡ false)
      → Ends (with_lock body otherwise t).0
  with_lock-cases body otherwise (s, w) k l (inl held) =
      rw (with_lock_held body otherwise s w held) (l.at (s, w) tt)
  with_lock-cases body otherwise (s, w) k l (inr free) =
      rw (with_lock_free body otherwise s w free) (k.at (s, record w { locked = true }) tt)

  pub with_lock-Finishes :
      {body otherwise : Method S E A}
      → Finishes Any body
      → Finishes Any otherwise
      → Finishes Any (with_lock body otherwise)
  with_lock-Finishes {body} {otherwise} k l = record {
    at = λ t q. with_lock-cases body otherwise t k l (Bool-cases t.1.locked);
  }

module _ {S E : Type 0} where
  pub self-Finishes : Finishes {S = S × World} {E = E} Any self
  unfolding self
  self-Finishes = record { at = λ t q. Ends-ok _ }

  pub update-Finishes : (f : S → S) → Finishes {S = S × World} {E = E} Any (update f)
  unfolding update
  update-Finishes f = record { at = λ t q. Ends-ok _ }

pub ruleset ending_rules = (
  world-Finishes, with_lock-Finishes, self-Finishes, update-Finishes, send-Finishes, now-Finishes,
)
