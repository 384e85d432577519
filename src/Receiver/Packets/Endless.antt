-- ===== src/Receiver/Packets/Endless.antt =====
-- `ReceiveFile::receive_header` while datagrams keep coming.
use rust_tftp.BitSets.{BitSets}
use rust_tftp.Common.{
  ℕ, zero, suc, ◌≤◌, ◌≡◌, refl, ◌∙◌, arith, Bool, false, List, ◌∷◌, length, le→ltb, some, inr, true,
}
use Prim.Native.Nat.{bit_and}
use rust_tftp.Common.Outcome.{ok, hang}
use rust_tftp.Common.Slices.{Bytes}
use rust_tftp.Common.State.{◌>>=◌, attempt, lift}
use rust_tftp.Header.Packet.{decode}
use rust_tftp.Header.Types.{buff_allocation_size, Header}
use rust_tftp.Net.{SocketAddr, World, Event, datagram, recv, now, set_read_timeout}
use rust_tftp.Net.Delivery.{taken, recv-decode, same_host_self}
use rust_tftp.Receiver.Packets.{
  drained, drain, update_average, drain_socket, after_recv, receive_header,
}
use rust_tftp.Receiver.Storage.{ReceiveFile}
use rust_tftp.Transfer.Session.{world, self, update, with_lock_free}

-- The next events are so many datagrams of the host that fit the receive buffer and are decoded.
pub data Flood (debug : Bool) (from : SocketAddr) : ℕ → List Event → Type 0 where
  over : (events : List Event) → Flood debug from zero events
  packet :
      {rounds : ℕ} {events : List Event} (d : Bytes) (h : Header)
      → length d ≤ buff_allocation_size
      → decode debug d ≡ ok h
      → Flood debug from rounds events
      → Flood debug from (suc rounds) (datagram d from ∷ events)

module _ (debug : Bool) (from : SocketAddr) where
  recv_next :
      (d : Bytes) (h : Header) (events : List Event) (w : World)
      → w.inbox ≡ datagram d from ∷ events
      → w.drop_threshold ≡ 0
      → length d ≤ buff_allocation_size
      → decode debug d ≡ ok h
      → recv debug from w ≡ (ok h, taken events w)
  recv_next d h events w queued keep fits decoded =
      recv-decode debug from from d events w h queued (same_host_self from) fits decoded
      ∙ rw (le→ltb (bit_and (w.draws 0) 127) w.drop_threshold (omega arith)) refl

  -- The loop has read as many datagrams as it has rounds, and is still going.
  drain-Flood :
      (rounds : ℕ) (events : List Event) (w : World)
      → Flood debug from rounds events
      → w.inbox ≡ events
      → w.drop_threshold ≡ 0
      → (v : World) × (drain debug rounds from w ≡ (hang, v))
  unfolding drain drained ◌>>=◌ attempt lift
  drain-Flood zero events w (over _) queued keep = (w, refl)
  drain-Flood (suc rounds) _ w (packet {events = events} d h fits decoded flood) queued keep =
      let (v, more) = drain-Flood rounds events (taken events w) flood refl keep in
      rw (recv_next d h events w queued keep fits decoded, more) (v, refl)

module _ {bits : BitSets} (debug : Bool) where
  -- The rest of `receive_header` behind the first header.
  after_recv-Flood :
      (rounds : ℕ) (h : Header) (events : List Event) (s : ReceiveFile bits) (w : World)
      → Flood debug s.host_addr rounds events
      → w.inbox ≡ events
      → w.drop_threshold ≡ 0
      → (x : ReceiveFile bits × World) × (after_recv debug rounds (inr h) (s, w) ≡ (hang, x))
  unfolding after_recv update_average drain_socket world self update now set_read_timeout ◌>>=◌
      attempt
  after_recv-Flood rounds h events s w flood queued keep =
      let v : World = record w {
        clock = λ n. w.clock (suc (suc n));
        read_timeout = some 250_000;
      } in
      let (u, more) = drain-Flood debug s.host_addr rounds events v flood queued keep in
      rw more (_, refl)

  pub receive_header-Flood :
      (rounds t : ℕ) (s : ReceiveFile bits) (w : World)
      → w.locked ≡ false
      → w.drop_threshold ≡ 0
      → Flood debug s.host_addr (suc rounds) w.inbox
      → (x : ReceiveFile bits × World) × (receive_header debug rounds
            (record s { packet_time = suc t }, w)
          ≡ (hang, x))
  unfolding receive_header world self set_read_timeout ◌>>=◌ attempt
  receive_header-Flood rounds t s w free keep flood = first w.inbox refl flood
    where
      first :
          (queue : List Event)
          → w.inbox ≡ queue
          → Flood debug s.host_addr (suc rounds) queue
          → (x : ReceiveFile bits × World) × (receive_header debug rounds
                (record s { packet_time = suc t }, w)
              ≡ (hang, x))
      first _ queued (packet {events = events} d h fits decoded flood) =
          let v : World = record w { locked = true; read_timeout = some (suc t) } in
          let (x, more) =
            after_recv-Flood rounds h events (record s { packet_time = suc t }) (taken events v)
              flood refl keep in
          rw
            (
              with_lock_free _ _ (record s { packet_time = suc t }) w free,
              recv_next debug s.host_addr d h events v queued keep fits decoded,
              more,
            )
            (_, refl)
