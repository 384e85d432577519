-- ===== src/Net/Reading.antt =====
-- Reading the socket sends nothing and leaves the lock alone.
use Prim.Native.Nat.{bit_and}
use rust_tftp.Common.{ℕ, zero, suc, ◌≡◌, Bool, Option, none, some, List, [], ◌∷◌, ltb}
use rust_tftp.Common.Slices.{Bytes}
use rust_tftp.Common.State.{Run}
use rust_tftp.Common.State.Keeps.{
  Keeps, Keeps-if, Keeps-pure, Keeps-fail, keeps_rules, map_err-keeps,
}
use rust_tftp.Errors.{IoError, io_error}
use rust_tftp.Header.Types.{Header}
use rust_tftp.Net.{
  SocketAddr, World, Event, datagram, failure, now, draw, set_read_timeout, recv, recv_from,
  recv_at, accept, maybe_drop, drop_test, peek_from, peek_at, lift_io,
}

pub record Still (b : Bool) (out : List (Bytes × SocketAddr)) (w : World) : Type 0 where
  pub is_locked : w.locked ≡ b
  pub is_sent : w.outbox ≡ out

module _ {b : Bool} {out : List (Bytes × SocketAddr)} where
  peek_at-Still : (len : ℕ) (events : List Event) → Keeps (Still b out) (peek_at len events)
  unfolding peek_at
  peek_at-Still len [] = record { at = λ w q. q }
  peek_at-Still len (failure e ∷ events) = record {
    at = λ w q. record { is_locked = q.is_locked; is_sent = q.is_sent };
  }
  peek_at-Still len (datagram d src ∷ events) = record { at = λ w q. q }

  recv_at-Still : (len : ℕ) (events : List Event) → Keeps (Still b out) (recv_at len events)
  unfolding recv_at
  recv_at-Still len [] = record { at = λ w q. q }
  recv_at-Still len (failure e ∷ events) = record {
    at = λ w q. record { is_locked = q.is_locked; is_sent = q.is_sent };
  }
  recv_at-Still len (datagram d src ∷ events) = record {
    at = λ w q. record { is_locked = q.is_locked; is_sent = q.is_sent };
  }

  peek_from-Still : (len : ℕ) → Keeps (Still b out) (peek_from len)
  unfolding peek_from
  peek_from-Still len = record { at = λ w. (peek_at-Still len w.inbox).at w }

  recv_from-Still : (len : ℕ) → Keeps (Still b out) (recv_from len)
  unfolding recv_from
  recv_from-Still len = record { at = λ w. (recv_at-Still len w.inbox).at w }

  lift_io-Still :
      {A : Type 0} {m : Run World IoError A}
      → Keeps (Still b out) m
      → Keeps (Still b out) (lift_io m)
  unfolding lift_io
  lift_io-Still {m} k = record { at = λ w q. map_err-keeps (Still b out) io_error (m w) (k.at w q) }

  draw-Still : {E : Type 0} → Keeps {E = E} (Still b out) draw
  unfolding draw
  draw-Still = record { at = λ w q. record { is_locked = q.is_locked; is_sent = q.is_sent } }

  pub now-Still : {E : Type 0} → Keeps {E = E} (Still b out) now
  unfolding now
  now-Still = record { at = λ w q. record { is_locked = q.is_locked; is_sent = q.is_sent } }

  drop_test-Still : (r : ℕ) (h : Header) → Keeps (Still b out) (drop_test h r)
  unfolding drop_test
  drop_test-Still r h = record {
    at = λ w q.
        (Keeps-if {P = Still b out} (ltb (bit_and r 127) w.drop_threshold) (Keeps-fail _)
            (Keeps-pure h)).at
          w q;
  }

  ruleset read_rules =
      (keeps_rules, peek_from-Still, recv_from-Still, lift_io-Still, draw-Still, drop_test-Still)

  maybe_drop-Still : (h : Header) → Keeps (Still b out) (maybe_drop h)
  unfolding maybe_drop
  maybe_drop-Still h = search read_rules

  accept-Still : (debug : Bool) (buf : Bytes) (n : ℕ) → Keeps (Still b out) (accept debug buf n)
  unfolding accept
  accept-Still debug buf n = search (read_rules, maybe_drop-Still) depth 8

  pub recv-Still : (debug : Bool) (from : SocketAddr) → Keeps (Still b out) (recv debug from)
  unfolding recv
  recv-Still debug from = search (read_rules, accept-Still) depth 8

  pub set_read_timeout-Still : (t : Option ℕ) → Keeps (Still b out) (set_read_timeout t)
  unfolding set_read_timeout
  set_read_timeout-Still none = record {
    at = λ w q. record { is_locked = q.is_locked; is_sent = q.is_sent };
  }
  set_read_timeout-Still (some zero) = record { at = λ w q. q }
  set_read_timeout-Still (some (suc t)) = record {
    at = λ w q. record { is_locked = q.is_locked; is_sent = q.is_sent };
  }
