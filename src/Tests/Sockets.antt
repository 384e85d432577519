-- ===== src/Tests/Sockets.antt =====
-- Concrete datagrams on a socket.
use rust_tftp.Common.{ℕ, ap, ◌≢◌, ◌≤◌, ◌≡◌, refl, arith, true, false, none, List, [], ◌∷◌, length}
use rust_tftp.Common.Outcome.{ok, err}
use rust_tftp.Common.Slices.{Bytes, index, store}
use rust_tftp.Errors.{wrong_host}
use rust_tftp.Header.Ack
use rust_tftp.Header.Packet.{into_raw_request, decode}
use rust_tftp.Header.Types.{buff_allocation_size, Header}
use rust_tftp.Net.{IpAddr, v4, v6, SocketAddr, Event, datagram, wrote, World, recv, send}
use rust_tftp.Net.Delivery.{recv_wrong_host, recv-decode, recv-send}

abbrev pub server : SocketAddr
server = record { ip = v4 1; port = 69 }

abbrev stranger : SocketAddr
stranger = record { ip = v4 2; port = 69 }

-- A world in which sends succeed with four bytes.
abbrev pub world_of : List Event → World
world_of events = record {
  inbox = events;
  outbox = [];
  send_results = λ n. wrote 4;
  locked = false;
  read_timeout = none;
  clock = λ n. n;
  draws = λ n. 0;
  stop_and_wait = false;
  drop_threshold = 0;
}

abbrev pub ack_seven : Header
ack_seven = Header.ack (record { block_number = 7 })

abbrev pub ack_bytes : Bytes
ack_bytes = 0 ∷ 4 ∷ 0 ∷ 7 ∷ []

ack_encoded : into_raw_request true ack_seven ≡ ok ack_bytes
unfolding into_raw_request Ack.into_raw store
ack_encoded = refl

pub ack_decoded : decode true ack_bytes ≡ ok ack_seven
unfolding decode Ack.from_raw index
ack_decoded = refl

pub ack_fits : length ack_bytes ≤ buff_allocation_size
unfolding buff_allocation_size
ack_fits = omega arith

ip_number : IpAddr → ℕ
ip_number (v4 n) = n
ip_number (v6 n) = n

server-stranger : server ≢ stranger
unfolding ip_number
server-stranger e =
    let same : ip_number server.ip ≡ ip_number stranger.ip =
      ap (λ (a : SocketAddr). ip_number a.ip) e in
    omega (arith, same)

recv_wrong_host_example :
    recv true server (world_of (datagram ack_bytes stranger ∷ []))
    ≡ (err wrong_host, world_of (datagram ack_bytes stranger ∷ []))
recv_wrong_host_example =
    recv_wrong_host true server stranger ack_bytes [] (world_of (datagram ack_bytes stranger ∷ []))
      refl server-stranger

recv-decode_example :
    recv true server (world_of (datagram ack_bytes server ∷ [])) ≡ (ok ack_seven, world_of [])
recv-decode_example =
    recv-decode true server server ack_bytes [] (world_of (datagram ack_bytes server ∷ []))
      ack_seven refl refl ack_fits ack_decoded

recv-send_example :
    (send true ack_seven stranger (world_of [])
      ≡ (ok tt, record (world_of []) { outbox = (ack_bytes, stranger) ∷ [] }))
    × (recv true server (world_of (datagram ack_bytes server ∷ [])) ≡ (ok ack_seven, world_of []))
recv-send_example =
    recv-send true ack_seven ack_bytes stranger server 4 [] (world_of [])
      (world_of (datagram ack_bytes server ∷ [])) (omega arith) ack_encoded refl (omega arith) refl
      ack_fits refl
