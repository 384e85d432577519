-- ===== src/Net.antt =====
-- The world of a transfer: the socket with its lock, the clock, the generator of random numbers and
-- the two global variables; and the socket operations of header.rs.
pub mod Delivery
pub mod Ending
pub mod Reading
use Prim.Native.Nat.{bit_and}
use rust_tftp.Common.{
  ℕ, zero, suc, ◌+◌, ◌-◌, min, Bool, true, false, not, ◌&&◌, List, [], ◌∷◌, ◌++◌, Option, none,
  some, length, take, replicate, ltb, ◌==◌, if◌then◌else◌,
}
use rust_tftp.Common.Outcome.{Outcome, ok, err, hang}
use rust_tftp.Common.Slices.{Bytes, slice}
use rust_tftp.Common.State.{Run, ◌>>=◌, ◌>>◌, pure, fail, lift, map_err, ignore, infallible}
use rust_tftp.Common.Text.{codes}
use rust_tftp.Errors.{IoError, timed_out, invalid_input, other, TftpError, io_error, wrong_host}
use rust_tftp.Header.Packet.{into_raw_request, decode, peek_decode}
use rust_tftp.Header.Types.{buff_allocation_size, Header}

pub data IpAddr : Type 0 where
  v4 v6 : ℕ → IpAddr

pub record SocketAddr : Type 0 where
  pub ip : IpAddr
  pub port : ℕ

abbrev pub same_ip : IpAddr → IpAddr → Bool
same_ip (v4 a) (v4 b) = a == b
same_ip (v6 a) (v6 b) = a == b
same_ip (v4 a) (v6 b) = false
same_ip (v6 a) (v4 b) = false

-- the negation of `from.ip() != src_addr.ip() || from.port() != src_addr.port()`
abbrev pub same_host : SocketAddr → SocketAddr → Bool
same_host from src = same_ip from.ip src.ip && from.port == src.port

-- What a read of the socket meets next: a datagram, or an error such as a timeout.
pub data Event : Type 0 where
  datagram : Bytes → SocketAddr → Event
  failure : IoError → Event

-- What the system answers to a send.
pub data Sent : Type 0 where
  wrote : ℕ → Sent
  refused : IoError → Sent

-- Times and durations are in nanoseconds. `clock`, `draws` and `send_results` are the values that
-- the calls to come return, in order.
pub record World : Type 0 where
  pub inbox : List Event
  pub outbox : List (Bytes × SocketAddr)
  pub send_results : ℕ → Sent
  pub locked : Bool
  pub read_timeout : Option ℕ
  pub clock : ℕ → ℕ
  pub draws : ℕ → ℕ
  pub stop_and_wait : Bool
  pub drop_threshold : ℕ

-- `Instant::now()`
unfoldable pub now : {E : Type 0} → Run World E ℕ
now w = (ok (w.clock 0), record w { clock = λ n. w.clock (suc n) })

-- `thread_rng().next_u64()`
unfoldable pub draw : {E : Type 0} → Run World E ℕ
draw w = (ok (w.draws 0), record w { draws = λ n. w.draws (suc n) })

-- A buffer of `len` zeros after a datagram was read into it.
abbrev pub filled : ℕ → Bytes → Bytes
filled len d = take len d ++ replicate (len - length d) 0

-- With nothing to come, a read times out, or waits for ever where there is no timeout.
unfoldable pub silence : {A : Type 0} → Option ℕ → Outcome IoError A
silence none = hang
silence (some t) = err (record { kind = timed_out; message = [] })

-- `UdpSocket::peek_from` leaves a datagram in the queue.
unfoldable pub peek_at : ℕ → List Event → Run World IoError (Bytes × ℕ × SocketAddr)
unfolding silence
peek_at len [] w = (silence w.read_timeout, w)
peek_at len (failure e ∷ events) w = (err e, record w { inbox = events })
peek_at len (datagram d src ∷ events) w = (ok (filled len d, min len (length d), src), w)

unfoldable pub peek_from : ℕ → Run World IoError (Bytes × ℕ × SocketAddr)
unfolding peek_at
peek_from len w = peek_at len w.inbox w

-- `UdpSocket::recv_from` takes it out.
unfoldable pub recv_at : ℕ → List Event → Run World IoError (Bytes × ℕ × SocketAddr)
unfolding silence
recv_at len [] w = (silence w.read_timeout, w)
recv_at len (failure e ∷ events) w = (err e, record w { inbox = events })
recv_at len (datagram d src ∷ events) w =
    (ok (filled len d, min len (length d), src), record w { inbox = events })

unfoldable pub recv_from : ℕ → Run World IoError (Bytes × ℕ × SocketAddr)
unfolding recv_at
recv_from len w = recv_at len w.inbox w

-- `UdpSocket::send_to`
unfoldable pub answer_send : Sent → Bytes → SocketAddr → Run World IoError ℕ
answer_send (wrote n) raw to w = (ok n, record w { outbox = w.outbox ++ (raw, to) ∷ [] })
answer_send (refused e) raw to w = (err e, w)

unfoldable pub send_to : Bytes → SocketAddr → Run World IoError ℕ
unfolding answer_send
send_to raw to w =
    answer_send (w.send_results 0) raw to (record w { send_results = λ n. w.send_results (suc n) })

-- `UdpSocket::set_read_timeout` refuses a timeout of zero.
unfoldable pub set_read_timeout : Option ℕ → Run World IoError (Unit {0})
set_read_timeout none w = (ok tt, record w { read_timeout = none })
set_read_timeout (some zero) w = (err (record { kind = invalid_input; message = [] }), w)
set_read_timeout (some (suc t)) w = (ok tt, record w { read_timeout = some (suc t) })

abbrev pub other_error : Bytes → IoError
other_error message = record { kind = other; message = message }

unfoldable pub lift_io : {A : Type 0} → Run World IoError A → Run World TftpError A
lift_io m w = map_err io_error (m w)

-- The end of `recv`: `res` is returned unless the packet is dropped on purpose.
unfoldable pub drop_test : Header → ℕ → Run World TftpError Header
unfolding fail pure
drop_test res r w =
    (if ltb (bit_and r 127) w.drop_threshold
        then fail (io_error (other_error (codes "Artificial Drop")))
        else pure res)
      w

unfoldable pub maybe_drop : Header → Run World TftpError Header
maybe_drop res = do r ← draw; drop_test res r

-- `Header::recv` on a packet of the right host. `recv_from` reads the peeked datagram again.
unfoldable pub accept : Bool → Bytes → ℕ → Run World TftpError Header
accept debug buf bytes_read = do
  ignore (recv_from buff_allocation_size)
  packet ← lift (slice buf 0 bytes_read)
  res ← lift (decode debug packet)
  maybe_drop res

-- `Header::recv`
unfoldable pub recv : Bool → SocketAddr → Run World TftpError Header
recv debug from = do
  (buf, bytes_read, src) ← lift_io (peek_from buff_allocation_size)
  if same_host from src then accept debug buf bytes_read else fail wrong_host

-- `Header::peek` decodes the whole buffer, zeros included.
unfoldable pub peek : Bool → Run World TftpError (Header × SocketAddr)
peek debug = do
  (buf, bytes_read, src) ← lift_io (peek_from buff_allocation_size)
  header ← lift (peek_decode debug buf)
  pure (header, src)

-- `Header::send`; `into_raw_request` has no error.
unfoldable pub send : Bool → Header → SocketAddr → Run World IoError (Unit {0})
send debug header to = do
  raw ← lift (infallible (into_raw_request debug header))
  bytes_written ← send_to raw to
  if ltb bytes_written (length raw)
      then fail (other_error (codes "Failed to send all data in one UDP packet."))
      else pure tt
