-- ===== src/Net/Delivery.antt =====
-- `Header::recv` and `Header::peek` on one datagram, and a packet from `send` to `recv`.
use Prim.Native.Nat.{bit_and}
use rust_tftp.Common.{
  ℕ, suc, ◌-◌, ◌≤◌, min, Bool, true, false, List, [], ◌∷◌, ◌++◌, ◌≡◌, refl, ap, ◌∙◌, arith, length,
  replicate, ltb, if◌then◌else◌, take_all, le→ltb, ◌==◌, ◌&&◌, ==→eq, ◌≢◌, Bool-cases, inl, inr,
}
use rust_tftp.Common.Copies.{slice-append}
use rust_tftp.Common.Outcome.{ok, err}
use rust_tftp.Common.Slices.{Bytes, slice}
use rust_tftp.Common.State.{◌>>=◌}
use rust_tftp.Common.Text.{codes}
use rust_tftp.Errors.{TftpError, io_error, wrong_host}
use rust_tftp.Header.Packet.{into_raw_request, decode}
use rust_tftp.Header.Packet.RoundTrip.{IsSendable, decode-into_raw_request}
use rust_tftp.Header.Types.{buff_allocation_size, Header}
use rust_tftp.Net.{
  IpAddr, v4, v6, SocketAddr, same_ip, same_host, send_to, Event, datagram, wrote, World, filled,
  peek_at, peek_from, recv_at, recv_from, maybe_drop, drop_test, draw, lift_io, answer_send,
  other_error, recv, send, accept,
}

module _ (d : Bytes) (src : SocketAddr) (events : List Event) (w : World) where
  pub peek_from-datagram :
      (len : ℕ)
      → w.inbox ≡ datagram d src ∷ events
      → peek_from len w ≡ (ok (filled len d, min len (length d), src), w)
  unfolding peek_from
  peek_from-datagram len queued = ap (λ (q : List Event). peek_at len q w) queued

  pub recv_from-datagram :
      (len : ℕ)
      → w.inbox ≡ datagram d src ∷ events
      → recv_from len w ≡ (ok (filled len d, min len (length d), src), record w { inbox = events })
  unfolding recv_from
  recv_from-datagram len queued = ap (λ (q : List Event). recv_at len q w) queued

pub recv_refused :
    (debug : Bool) (from src : SocketAddr) (d : Bytes) (events : List Event) (w : World)
    → w.inbox ≡ datagram d src ∷ events
    → same_host from src ≡ false
    → recv debug from w ≡ (err wrong_host, w)
unfolding recv lift_io ◌>>=◌
recv_refused debug from src d events w queued other =
    rw (peek_from-datagram d src events w buff_allocation_size queued, other)

same_ip→eq : (a b : IpAddr) → same_ip a b ≡ true → a ≡ b
same_ip→eq (v4 m) (v4 n) e = ap v4 (==→eq m n e)
same_ip→eq (v6 m) (v6 n) e = ap v6 (==→eq m n e)
same_ip→eq (v4 m) (v6 n) e = cc
same_ip→eq (v6 m) (v4 n) e = cc

-- same_host holds of one address and port only.
same_host→eq : (a b : SocketAddr) → same_host a b ≡ true → a ≡ b
same_host→eq a b e =
    let (same, ports) = both (same_ip a.ip b.ip) (a.port == b.port) e in
    equal (same_ip→eq a.ip b.ip same) (==→eq a.port b.port ports)
  where
    both : (x y : Bool) → (x && y) ≡ true → (x ≡ true) × (y ≡ true)
    both true true e = (refl, refl)
    both true false e = cc
    both false y e = cc

    equal : a.ip ≡ b.ip → a.port ≡ b.port → a ≡ b
    equal same ports =
        ap (λ (i : IpAddr). record { ip = i; port = a.port }) same
        ∙ ap (λ (n : ℕ). record { ip = b.ip; port = n }) ports

-- Where the next datagram is from another IP address or another port, recv returns WrongHost and
-- changes nothing: the datagram is still the next one.
pub recv_wrong_host :
    (debug : Bool) (from src : SocketAddr) (d : Bytes) (events : List Event) (w : World)
    → w.inbox ≡ datagram d src ∷ events
    → from ≢ src
    → recv debug from w ≡ (err wrong_host, w)
recv_wrong_host debug from src d events w queued other = elim (Bool-cases (same_host from src)) [
  | inl same ↦ absurd (other (same_host→eq from src same))
  | inr differs ↦ recv_refused debug from src d events w queued differs
]

slice-filled :
    (n : ℕ) (d : Bytes)
    → length d ≤ n
    → slice {E = TftpError} (filled n d) 0 (min n (length d)) ≡ ok d
slice-filled n d fits =
    let e : min n (length d) ≡ length d = omega arith in
    rw (
      e,
      take_all n d fits,
      slice-append [] d (replicate (n - length d) 0) 0 (length d) refl (omega arith),
    )

-- The world after one datagram and one random number were taken.
abbrev pub taken : List Event → World → World
taken events w = record w { inbox = events; draws = λ n. w.draws (suc n) }

abbrev pub dropped : World → Bool
dropped w = ltb (bit_and (w.draws 0) 127) w.drop_threshold

-- Where the next datagram is from the expected host, fits the receive buffer and is decoded, recv
-- takes it from the queue and draws a random number, which decides between the decoded header and
-- the error of an artificial drop.
pub recv-decode :
    (debug : Bool) (from src : SocketAddr) (d : Bytes) (events : List Event) (w : World)
    (h : Header)
    → w.inbox ≡ datagram d src ∷ events
    → same_host from src ≡ true
    → length d ≤ buff_allocation_size
    → decode debug d ≡ ok h
    → recv debug from w ≡ (
      (if dropped w then err (io_error (other_error (codes "Artificial Drop"))) else ok h),
      taken events w,
    )
unfolding recv accept maybe_drop drop_test draw lift_io ◌>>=◌
recv-decode debug from src d events w h queued same fits decoded =
    rw
      (
        peek_from-datagram d src events w buff_allocation_size queued,
        same,
        recv_from-datagram d src events w buff_allocation_size queued,
        slice-filled buff_allocation_size d fits,
        decoded,
      )
      (ground arith)

pub same_host_self : (a : SocketAddr) → same_host a a ≡ true
same_host_self a = same (a.ip)
  where
    same : (i : IpAddr) → (same_ip i i && a.port == a.port) ≡ true
    same (v4 n) = ground arith
    same (v6 n) = ground arith

-- A header that can be sent whole, whose encoding the system sends whole and fits the receive
-- buffer, is sent as that encoding; where the encoding is the next datagram from the expected host
-- and no packets are dropped on purpose, recv takes it and returns the header.
pub recv-send :
    (debug : Bool) (h : Header) (raw : Bytes) (to from : SocketAddr) (n : ℕ) (events : List Event)
    (w v : World)
    → IsSendable debug h
    → into_raw_request debug h ≡ ok raw
    → w.send_results 0 ≡ wrote n
    → length raw ≤ n
    → v.inbox ≡ datagram raw from ∷ events
    → length raw ≤ buff_allocation_size
    → v.drop_threshold ≡ 0
    → (send debug h to w ≡ (
      ok tt,
      record w { outbox = w.outbox ++ (raw, to) ∷ []; send_results = λ k. w.send_results (suc k) },
    ))
      × (recv debug from v ≡ (ok h, taken events v))
unfolding send send_to answer_send ◌>>=◌
recv-send debug h raw to from n events w v sendable encoded answer whole queued fits keep = (
  rw (encoded, answer, le→ltb n (length raw) whole),
  recv-decode debug from from raw events v h queued (same_host_self from) fits
        (rw encoded at (decode-into_raw_request debug h sendable))
      ∙ rw (kept) refl,
)
  where
    kept : dropped v ≡ false
    kept = le→ltb (bit_and (v.draws 0) 127) v.drop_threshold (omega arith)
