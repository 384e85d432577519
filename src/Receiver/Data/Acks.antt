-- ===== src/Receiver/Data/Acks.antt =====
-- What `ReceiveFile::send_ack` sends.
use rust_tftp.BitSets.{BitSets}
use rust_tftp.Common.{ℕ, suc, Bool, false, some, [], ◌∷◌, ◌++◌, ◌≡◌}
use rust_tftp.Common.Bits.{as_u8, shr}
use rust_tftp.Common.Outcome.{ok}
use rust_tftp.Common.Slices.{Bytes}
use rust_tftp.Common.State.{◌>>=◌}
use rust_tftp.Header.Ack
use rust_tftp.Header.Ack.RoundTrip.{into_raw_lem}
use rust_tftp.Header.Packet.{into_raw_request}
use rust_tftp.Header.Types.{opcode_ack, Header}
use rust_tftp.Net.{SocketAddr, World, wrote, send, send_to, answer_send}
use rust_tftp.Receiver.Data.{send_ack}
use rust_tftp.Receiver.Storage.{ReceiveFile}
use rust_tftp.Transfer.Session.{world, self, with_lock_free}

-- The bytes of an acknowledgement.
abbrev pub ack_packet : ℕ → Bytes
ack_packet n = as_u8 (shr n 16) ∷ opcode_ack ∷ as_u8 (shr n 8) ∷ as_u8 n ∷ []

-- The world after one packet of the object was sent whole.
abbrev pub acked : ℕ → SocketAddr → World → World
acked n to w = record w {
  outbox = w.outbox ++ (ack_packet n, to) ∷ [];
  send_results = λ k. w.send_results (suc k);
  locked = false;
}

ack_raw :
    (debug : Bool) (n : ℕ) → into_raw_request debug (Header.ack (Ack.new n)) ≡ ok (ack_packet n)
unfolding into_raw_request Ack.new
ack_raw debug n = into_raw_lem (record { block_number = n })

-- With the lock free and the send answered by the length of an acknowledgement.
pub send_ack_free :
    {bits : BitSets} (debug : Bool) (n : ℕ) (s : ReceiveFile bits) (w : World)
    → w.locked ≡ false
    → w.send_results 0 ≡ wrote 4
    → send_ack debug n (s, w) ≡ (ok (some tt), (s, acked n s.host_addr w))
unfolding send_ack ◌>>=◌ self world send send_to answer_send
send_ack_free debug n s w free whole = rw (with_lock_free _ _ s w free, ack_raw debug n, whole)
