-- ===== src/Net/Ending.antt =====
-- Reading the socket under a timeout.
use Prim.Native.Nat.{bit_and}
use rust_tftp.Common.{
  ℕ, ◌<◌, ◌≡◌, refl, ap, arith, Bool, Option, some, inl, inr, List, [], ◌∷◌, length, min, ltb,
  Bool-cases,
}
use rust_tftp.Common.Outcome.{Outcome, ok, err}
use rust_tftp.Common.Outcome.Ends.{Ends, Ends-ok, Ends-err, Ends-slice}
use rust_tftp.Common.Slices.{Bytes, slice}
use rust_tftp.Common.State.{Run, ◌>>=◌, lift, ignore}
use rust_tftp.Common.State.Any.{Any}
use rust_tftp.Common.State.Finishes.{
  Finishes, Finishes-if, Finishes-fail, Finishes-pure, Finishes-bind, Finishes-lift,
}
use rust_tftp.Common.State.Keeps.{Keeps, Keeps-if, Keeps-fail, Keeps-pure, Keeps-bind, Keeps-lift}
use rust_tftp.Errors.{TftpError}
use rust_tftp.Header.Packet.{decode}
use rust_tftp.Header.Packet.Total.{decode-Ends}
use rust_tftp.Header.Types.{buff_allocation_size, Header}
use rust_tftp.Net.{
  SocketAddr, World, Event, datagram, failure, draw, same_host, silence, peek_at, peek_from,
  lift_io, drop_test, maybe_drop, accept, recv, filled,
}
use rust_tftp.Net.Delivery.{peek_from-datagram, recv_from-datagram, recv_refused}

-- The queue and the timeout of the socket.
pub record Waits (events : List Event) (timeout : Option ℕ) (w : World) : Type 0 where
  pub is_inbox : w.inbox ≡ events
  pub is_timeout : w.read_timeout ≡ timeout

module _ {events : List Event} {timeout : Option ℕ} where
  draw-Waits : {E : Type 0} → Keeps {E = E} (Waits events timeout) draw
  unfolding draw
  draw-Waits = record { at = λ w q. record { is_inbox = q.is_inbox; is_timeout = q.is_timeout } }

  drop_test-Waits : (r : ℕ) (h : Header) → Keeps (Waits events timeout) (drop_test h r)
  unfolding drop_test
  drop_test-Waits r h = record {
    at = λ w q.
        (Keeps-if {P = Waits events timeout} (ltb (bit_and r 127) w.drop_threshold) (Keeps-fail _)
            (Keeps-pure h)).at
          w q;
  }

  maybe_drop-Waits : (h : Header) → Keeps (Waits events timeout) (maybe_drop h)
  unfolding maybe_drop
  maybe_drop-Waits h = Keeps-bind draw-Waits λ r. drop_test-Waits r h

draw-Finishes : {E : Type 0} → Finishes {E = E} Any draw
unfolding draw
draw-Finishes = record { at = λ w q. Ends-ok _ }

drop_test-Finishes : (r : ℕ) (h : Header) → Finishes Any (drop_test h r)
unfolding drop_test
drop_test-Finishes r h = record {
  at = λ w q.
      (Finishes-if {P = Any} (ltb (bit_and r 127) w.drop_threshold) (Finishes-fail _)
          (Finishes-pure h)).at
        w tt;
}

maybe_drop-Finishes : (h : Header) → Finishes Any (maybe_drop h)
unfolding maybe_drop
maybe_drop-Finishes h = Finishes-bind draw-Finishes λ r. drop_test-Finishes r h

-- A read that returns or panics, and takes one event at least where it returns a header.
pub record Reads (w : World) (r : Outcome TftpError Header × World) : Type 0 where
  pub ends : Ends r.0
  pub shorter :
      (h : Header)
      → r.0 ≡ ok h
      → (length r.1.inbox < length w.inbox) × (r.1.read_timeout ≡ w.read_timeout)

-- `accept` behind the read.
abbrev decoded : Bool → Bytes → ℕ → Run World TftpError Header
decoded debug buf n = lift (slice buf 0 n) >>= λ packet. lift (decode debug packet) >>= maybe_drop

decoded-Finishes : (debug : Bool) (buf : Bytes) (n : ℕ) → Finishes Any (decoded debug buf n)
decoded-Finishes debug buf n =
    Finishes-bind (Finishes-lift _ (Ends-slice buf 0 n))
      λ packet. Finishes-bind (Finishes-lift _ (decode-Ends debug packet)) maybe_drop-Finishes

decoded-Waits :
    {events : List Event} {timeout : Option ℕ} (debug : Bool) (buf : Bytes) (n : ℕ)
    → Keeps (Waits events timeout) (decoded debug buf n)
decoded-Waits debug buf n =
    Keeps-bind (Keeps-lift _) λ packet. Keeps-bind (Keeps-lift _) maybe_drop-Waits

module _ (debug : Bool) (from : SocketAddr) (t : ℕ) (w : World)
    (timed : w.read_timeout ≡ some t) where
  recv-failed :
      (e : TftpError) (v : World) → recv debug from w ≡ (err e, v) → Reads w (recv debug from w)
  recv-failed e v r = rw r (record { ends = Ends-err e; shorter = λ h same. cc })

  accept-Reads :
      (d : Bytes) (src : SocketAddr) (events : List Event)
      → w.inbox ≡ datagram d src ∷ events
      → Reads w
          (accept debug (filled buff_allocation_size d) (min buff_allocation_size (length d)) w)
  unfolding accept ignore ◌>>=◌
  accept-Reads d src events queue =
      let buf = filled buff_allocation_size d in
      let n = min buff_allocation_size (length d) in
      let later = record w { inbox = events } in
      let kept =
        (decoded-Waits {events = events} {timeout = w.read_timeout} debug buf n).at later
          (record { is_inbox = refl; is_timeout = refl }) in
      rw (recv_from-datagram d src events w buff_allocation_size queue) (record {
        ends = (decoded-Finishes debug buf n).at later tt;
        shorter =
            λ h same. (omega (arith, ap length kept.is_inbox, ap length queue), kept.is_timeout);
      })

  recv_at-Reads : (events : List Event) → w.inbox ≡ events → Reads w (recv debug from w)
  unfolding recv lift_io ◌>>=◌ peek_from peek_at silence
  recv_at-Reads [] queue = rw (queue, timed) (record { ends = Ends-err _; shorter = λ h same. cc })
  recv_at-Reads (failure e ∷ events) queue =
      rw queue (record { ends = Ends-err _; shorter = λ h same. cc })
  recv_at-Reads (datagram d src ∷ events) queue = elim (Bool-cases (same_host from src)) [
    | inr other ↦ recv-failed _ _ (recv_refused debug from src d events w queue other)
    | inl same ↦
        rw (peek_from-datagram d src events w buff_allocation_size queue, same)
          (accept-Reads d src events queue)
  ]

  pub recv-Reads : Reads w (recv debug from w)
  recv-Reads = recv_at-Reads w.inbox refl
