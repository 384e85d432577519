-- ===== src/Client/Idle.antt =====
-- The server behind a datagram that is no request.
use rust_tftp.BitSets.{BitSets}
use rust_tftp.Client.Files.{Disk}
use rust_tftp.Client.Requests.{TftpClient}
use rust_tftp.Client.Serving.{serve_request, peek_header, serve_once, serve}
use rust_tftp.Common.{ℕ, zero, suc, Bool, true, false, inr, List, ◌∷◌, ◌≡◌, refl, sym, ap}
use rust_tftp.Common.Outcome.{ok, hang}
use rust_tftp.Common.Slices.{Bytes}
use rust_tftp.Common.State.{◌>>=◌, pure, lift, attempt}
use rust_tftp.Header.Packet.{peek_decode}
use rust_tftp.Header.Types.{buff_allocation_size, Header}
use rust_tftp.Net.{SocketAddr, World, Event, datagram, filled, peek, lift_io}
use rust_tftp.Net.Delivery.{peek_from-datagram}
use rust_tftp.Transfer.Session.{world, with_lock_free}

abbrev pub is_request : Header → Bool
is_request (Header.read h) = true
is_request (Header.write h) = true
is_request _ = false

serve_request_other :
    (bits : BitSets) (debug : Bool) (rounds : ℕ) (c : TftpClient) (header : Header)
    (src : SocketAddr)
    → is_request header ≡ false
    → serve_request bits debug rounds c (inr (header, src)) ≡ pure tt
unfolding serve_request
serve_request_other bits debug rounds c (Header.read h) src e = cc
serve_request_other bits debug rounds c (Header.write h) src e = cc
serve_request_other bits debug rounds c (Header.ack h) src e = refl
serve_request_other bits debug rounds c (Header.block h) src e = refl
serve_request_other bits debug rounds c (Header.error h) src e = refl
serve_request_other bits debug rounds c (Header.invalid h) src e = refl

module _ (bits : BitSets) (debug : Bool) (rounds : ℕ) (c : TftpClient) (header : Header)
    (src : SocketAddr) (raw : Bytes) (events : List Event) (d : Disk) (w : World) where
  peek_header_other :
      w.locked ≡ false
      → w.inbox ≡ datagram raw src ∷ events
      → peek_decode debug (filled buff_allocation_size raw) ≡ ok header
      → peek_header bits debug rounds (d, w) ≡ (ok (inr (header, src)), (d, w))
  unfolding peek_header attempt world peek lift_io ◌>>=◌ lift pure
  peek_header_other free queue decoded =
      rw
        (
          with_lock_free _ _ d w free,
          peek_from-datagram raw src events (record w { locked = true }) buff_allocation_size queue,
          decoded,
        )
        (ap (λ (b : Bool). (ok (inr (header, src)), (d, record w { locked = b }))) (sym free))

  -- Where the next datagram is peeked as a header that is no request, and the lock is free, the
  -- server is still going after any number of rounds, with the files and the world as they were:
  -- the datagram is never taken.
  pub serve_idle :
      (fuel : ℕ)
      → w.locked ≡ false
      → w.inbox ≡ datagram raw src ∷ events
      → peek_decode debug (filled buff_allocation_size raw) ≡ ok header
      → is_request header ≡ false
      → serve bits debug rounds fuel c (d, w) ≡ (hang, (d, w))
  unfolding serve serve_once ◌>>=◌ lift pure
  serve_idle zero free queue decoded other = refl
  serve_idle (suc fuel) free queue decoded other =
      rw
        (
          peek_header_other free queue decoded,
          serve_request_other bits debug rounds c header src other,
        )
        (serve_idle fuel free queue decoded other)
