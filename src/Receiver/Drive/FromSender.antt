-- ===== src/Receiver/Drive/FromSender.antt =====
-- What a sender transmits, at a receiver.
use rust_tftp.BitSets.{BitSets}
use rust_tftp.Common.{
  ℕ, zero, suc, ◌+◌, ◌-◌, ◌≤◌, ◌<◌, ◌^◌, ◌≡◌, refl, ap, ◌∙◌, arith, Bool, false, List, [], ◌∷◌,
  ◌++◌, length,
}
use rust_tftp.Common.Outcome.{Outcome, ok, ◌>>=◌}
use rust_tftp.Common.Slices.{Bytes}
use rust_tftp.Errors.{TftpError}
use rust_tftp.Header.Data.Wire.{padded, into_raw-padded}
use rust_tftp.Header.Packet.{decode}
use rust_tftp.Header.Packet.RoundTrip.{block_round}
use rust_tftp.Header.Types.{Header}
use rust_tftp.Net.{SocketAddr, World, wrote}
use rust_tftp.Receiver.Data.Storing.{Works}
use rust_tftp.Receiver.Drive.{created, handle_headers}
use rust_tftp.Receiver.Drive.Blocks.{blocks_of}
use rust_tftp.Receiver.Drive.InOrder.{handle_headers-blocks_of}
use rust_tftp.Receiver.Storage.{Storage}
use rust_tftp.Sender.Blocks.{SendFile, count_blocks}
use rust_tftp.Sender.Blocks.Cut.{chunk, length-chunk, IsSource}
use rust_tftp.Sender.Window.{send_window}
use rust_tftp.Sender.Window.Transmit.{block_packet, packets, send_window-packets}

-- Datagrams, decoded one after the other.
unfoldable pub decode_all : Bool → List (Bytes × SocketAddr) → Outcome TftpError (List Header)
decode_all debug [] = ok []
decode_all debug ((raw, host) ∷ rest) = do
  header ← decode debug raw
  headers ← decode_all debug rest
  ok (header ∷ headers)

decode-block_packet :
    (debug : Bool) (file : Bytes) (i : ℕ)
    → i < 2 ^ 24
    → decode debug (block_packet file i) ≡ ok (Header.block (padded (chunk i file) i))
decode-block_packet debug file i small =
    rw (into_raw-padded (chunk i file) i) at
      (block_round debug (chunk i file) i (length-chunk i file) small)

decode_all-packets :
    (debug : Bool) (file : Bytes) (host : SocketAddr) (rounds i : ℕ)
    → i + rounds ≤ 2 ^ 24
    → decode_all debug (packets file host rounds i) ≡ ok (blocks_of file rounds i)
unfolding decode_all packets blocks_of
decode_all-packets debug file host zero i small = refl
decode_all-packets debug file host (suc rounds) i small = rw (
  decode-block_packet debug file i (omega arith),
  decode_all-packets debug file host rounds (i + 1) (omega arith),
)

same_packets :
    (file : Bytes) (host : SocketAddr) (rounds i count : ℕ) (before : List (Bytes × SocketAddr))
    → rounds ≡ count
    → i ≡ 0
    → before ≡ []
    → before ++ packets file host rounds i ≡ packets file host count 0
same_packets file host rounds i count before e f g = rw (e, f, g) refl

module _ {bits : BitSets} (debug : Bool) (s : SendFile bits) (w : World) (host_addr : SocketAddr)
    (storage : Storage) (t : ℕ) (v : World) where
  -- For a sender whose file_len and num_blocks are those of its file, which is not empty and has
  -- at most 2^24 blocks, with the whole file in the window, nothing sent before, the lock free and
  -- each send answered with the length of its packet, the packets that send_window sends are
  -- decoded without an error, and where the calls of the system succeed a new receiver outside of
  -- stop-and-wait that handles them in order ends without an error and with the file of the
  -- sender.
  pub transfer_whole :
      IsSource s
      → s.window_range.0 ≡ 0
      → s.window_range.1 ≡ s.num_blocks
      → 0 < s.file_len
      → s.num_blocks ≤ 2 ^ 24
      → w.outbox ≡ []
      → w.locked ≡ false
      → ((k : ℕ) → k < s.num_blocks → w.send_results k ≡ wrote (length (block_packet s.file_map k)))
      → Works storage
      → v.stop_and_wait ≡ false
      → (headers : List Header) × (decode_all debug (send_window (s, w)).1.1.outbox ≡ ok headers)
        × ((handle_headers debug headers (created bits storage host_addr t, v)).0 ≡ ok tt)
        × ((handle_headers debug headers (created bits storage host_addr t, v)).1.0.file.content
            ≡ s.file_map)
  transfer_whole source start end ne small empty free answers works async =
      let is_all : s.num_blocks ≡ count_blocks (length s.file_map) =
        source.is_count ∙ ap count_blocks source.is_len in
      let sent =
        send_window-packets s w source (omega (arith, start)) (omega (arith, end)) free (λ k inside.
          answers k (omega (arith, start, end))
          ∙ ap (λ (i : ℕ). wrote (length (block_packet s.file_map i))) (omega (arith, start))) in
      let whole =
        same_packets s.file_map s.host_addr (s.window_range.1 - s.window_range.0) s.window_range.0
          (count_blocks (length s.file_map)) w.outbox (omega (arith, start, end, is_all)) start
          empty in
      let handled =
        handle_headers-blocks_of bits debug s.file_map host_addr storage t v
          (omega (arith, source.is_len)) works async in
      (
        blocks_of s.file_map (count_blocks (length s.file_map)) 0,
        ap (decode_all debug) (sent.1 ∙ whole)
            ∙ decode_all-packets debug s.file_map s.host_addr (count_blocks (length s.file_map)) 0
                (omega (arith, is_all)),
        handled.0,
        handled.1,
      )
