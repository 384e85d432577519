-- ===== src/Tests/Receivers.antt =====
-- A receiver of a file of three bytes, with bit sets as lists.
use rust_tftp.Common.{
  sym, zero, suc, ℕ, ◌+◌, ◌*◌, ◌%◌, ◌≤◌, ◌<◌, ◌≡◌, ◌≢◌, refl, arith, true, false, not, ◌==◌, some,
  none, inl, List, [], ◌∷◌, ◌++◌, replicate, ltb, length, length-replicate,
}
use rust_tftp.Common.Outcome.{ok, hang}
use rust_tftp.Common.Slices.{Bytes}
use rust_tftp.Header.Data.Wire.{padded}
use rust_tftp.Header.Types.{max_data_len}
use rust_tftp.Net.{SocketAddr, World, wrote, datagram}
use rust_tftp.Receiver.Data.{handle_data}
use rust_tftp.Receiver.Data.Acks.{ack_packet}
use rust_tftp.Receiver.Data.Cutting.{handle_data_cuts}
use rust_tftp.Receiver.Data.Consecutive.{IsConsecutive}
use rust_tftp.Receiver.Data.Refines.{IsMapped, put, view, handle_data-put}
use rust_tftp.Receiver.Data.Storing.{Works}
use rust_tftp.Receiver.Drive.{handle_headers, created, poll}
use rust_tftp.Receiver.Drive.Completion.{AcksSend, poll_complete}
use rust_tftp.Receiver.Drive.Consecutive.{poll-IsConsecutive}
use rust_tftp.Receiver.Drive.Early.{poll_early}
use rust_tftp.Receiver.Drive.InOrder.{handled_all, handle_headers-blocks_of}
use rust_tftp.Receiver.Drive.Unready.{poll_unfinished}
use rust_tftp.Receiver.Drive.Whole.{poll-blocks_of}
use rust_tftp.Receiver.Storage.{Storage, ReceiveFile}
use rust_tftp.Header.Types.{Header}
use rust_tftp.Receiver.Drive.Ending.{poll_returns}
use rust_tftp.Receiver.Drive.FromSender.{decode_all, transfer_whole}
use rust_tftp.Sender.Blocks.{SendFile, count_blocks}
use rust_tftp.Sender.Blocks.Cut.{IsSource}
use rust_tftp.Sender.Window.{send_window}
use rust_tftp.Sender.Window.Transmit.{block_packet}
use rust_tftp.Tests.Senders.{sender, sender-IsSource}
use rust_tftp.Tests.ListBits.{list_bits, member, below}
use rust_tftp.Tests.Sockets.{server, world_of, ack_seven, ack_bytes, ack_decoded, ack_fits}
use rust_tftp.Receiver.Drive.Endless.{poll_endless}
use rust_tftp.Receiver.Packets.Endless.{packet, over}
use rust_tftp.Transfer.Session.{ready}

abbrev three_bytes : Bytes
three_bytes = 1 ∷ 2 ∷ 3 ∷ []

abbrev storage : Storage
storage = record { content = 0 ∷ []; map_len = 1; answers = λ n. none; map_error = λ n. none }

storage-Works : Works storage
storage-Works = record { answers_none = λ n. refl; maps = λ n h. refl }

-- A world that takes acknowledgements.
abbrev taking : World
taking = record (world_of []) { send_results = λ n. wrote 4 }

taking-AcksSend : AcksSend taking
taking-AcksSend = record { free = refl; whole = λ k. refl }

abbrev receiver : ReceiveFile list_bits
receiver = created list_bits storage server 0

handle_headers-blocks_of_example :
    let (o, (s, v)) = handled_all list_bits true three_bytes server storage 0 taking in
    (o ≡ ok tt)
    × (s.file.content ≡ three_bytes)
    × ((j : ℕ) → member s.received j ≡ ltb j (count_blocks 3))
    × (s.received_last_block ≡ not (3 % max_data_len == 0))
    × (v.outbox ≡ [])
handle_headers-blocks_of_example =
    handle_headers-blocks_of list_bits true three_bytes server storage 0 taking (omega arith)
      storage-Works refl

poll-blocks_of_example :
    let (o, (s, v)) = handled_all list_bits true three_bytes server storage 0 taking in
    let (p, (u, x)) = poll true 1 (s, v) in
    (3 % max_data_len ≢ 0 → (p ≡ ok (ready tt)) × (u.file.content ≡ three_bytes))
    × (3 % max_data_len ≡ 0 → p ≢ ok (ready tt))
poll-blocks_of_example =
    poll-blocks_of list_bits true three_bytes server storage 0 taking 1 (omega arith) storage-Works
      refl taking-AcksSend

-- The file of two blocks is seen to its end, and all blocks are received.
abbrev finished : ReceiveFile list_bits
finished = record receiver {
  highest_block = some 1;
  received_last_block = true;
  received = below 2;
  consec_recv = some 0;
}

below_one : (j : ℕ) → j < 1 → member (below 2) j ≡ true
unfolding member below
below_one j h = ground arith

poll_complete_example :
    let (o, (t, v)) = poll true 1 (finished, taking) in
    (o ≡ ok (ready tt))
    × (t.file ≡ storage)
    × (before : List (Bytes × SocketAddr)) × (v.outbox
        ≡ before ++ replicate 4 (ack_packet 1, server))
poll_complete_example = poll_complete true 1 1 finished taking taking-AcksSend refl refl below_one

poll_unfinished_example : (poll true 1 (receiver, taking)).0 ≢ ok (ready tt)
poll_unfinished_example = poll_unfinished true 1 receiver taking refl

finished-IsConsecutive : IsConsecutive finished
unfolding member below
finished-IsConsecutive = record { has = λ c e j le. below_one j (omega (arith, first c e)) }
  where
    first : (c : ℕ) → some 0 ≡ some c → 0 ≡ c
    first c e = cc

poll-IsConsecutive_example : IsConsecutive (poll true 1 (finished, taking)).1.0
poll-IsConsecutive_example = poll-IsConsecutive true 1 finished taking finished-IsConsecutive

none_received : (i : ℕ) → member [] i ≡ true → i * max_data_len + max_data_len ≤ 1
unfolding member
none_received i e = cc

receiver-IsMapped : IsMapped receiver
receiver-IsMapped = record { works = storage-Works; same_len = refl; holds = none_received }

handle_data-put_example :
    let (o, (t, v)) = handle_data true (padded three_bytes 0) (receiver, taking) in
    (o ≡ ok (some tt))
    × ((i : ℕ) → view t i ≡ put 0 three_bytes (view receiver) i)
    × (3 ≡ max_data_len → IsMapped t)
unfolding max_data_len
handle_data-put_example =
    handle_data-put true three_bytes 0 receiver taking receiver-IsMapped refl (omega arith)
      (omega arith) (inl (omega arith))

-- A file of some blocks of zeros, of which some are received.
abbrev blocks_file : ℕ → Storage
blocks_file n = record storage {
  content = replicate (n * max_data_len) 0;
  map_len = n * max_data_len;
}

blocks_file-Works : (n : ℕ) → Works (blocks_file n)
blocks_file-Works n = record { answers_none = λ n. refl; maps = λ n h. refl }

-- Block 2 came before block 1.
abbrev out_of_order : ReceiveFile list_bits
out_of_order = record receiver { file = blocks_file 3; highest_block = some 0; received = below 3 }

handle_data_cuts_example :
    let (o, (t, v)) = handle_data true (padded three_bytes 1) (out_of_order, taking) in
    (o ≡ ok (some tt)) × (member t.received 2 ≡ true) × (length t.file.content ≤ 2 * max_data_len)
unfolding max_data_len member below
handle_data_cuts_example =
    handle_data_cuts true three_bytes 0 1 2 out_of_order taking (blocks_file-Works 3) refl refl
      (omega arith) (omega arith) refl (omega arith) (omega arith)
      (omega (arith, length-replicate {A = ℕ} (3 * max_data_len) 0))

-- Block 0 came.
abbrev started : ReceiveFile list_bits
started = record receiver {
  file = blocks_file 1;
  highest_block = some 0;
  received = below 1;
  consec_recv = some 0;
}

poll_early_example :
    let (o, (t, v)) =
      handle_headers true
        (Header.block (padded three_bytes 2)
          ∷ Header.block (padded (replicate max_data_len 7) 0)
          ∷ [])
        (started, taking) in
    (o ≡ ok tt)
    × ((j : ℕ) → j ≢ 0 → j ≢ 2 → member (below 1) j ≡ false → member t.received j ≡ false)
    × ((poll true 1 (t, v)).0 ≡ ok (ready tt))
unfolding max_data_len
poll_early_example =
    poll_early true 1 (replicate max_data_len 7) three_bytes 2 started taking (blocks_file-Works 1)
      (sym (length-replicate {A = ℕ} (1 * max_data_len) 0))
      (omega (arith, length-replicate {A = ℕ} (1 * max_data_len) 0)) taking-AcksSend refl
      (omega arith) (omega arith) (length-replicate {A = ℕ} max_data_len 7)

poll_returns_example : (poll true 1 (receiver, world_of [])).0 ≢ hang
poll_returns_example = poll_returns true 1 receiver (world_of []) (omega arith)

-- Two acknowledgements from the server.
abbrev two_acks : World
two_acks = world_of (datagram ack_bytes server ∷ datagram ack_bytes server ∷ [])

poll_endless_example : (poll true 1 (receiver, two_acks)).0 ≡ hang
poll_endless_example =
    poll_endless list_bits true 1 storage server 0 two_acks refl refl (omega arith) (
      packet ack_bytes ack_seven ack_fits ack_decoded
        (packet ack_bytes ack_seven ack_fits ack_decoded (over [])))

-- The sender of that file, with all of it in the window.
abbrev whole_sender : SendFile list_bits
whole_sender = record sender { window_range = (0, 1) }

whole_sender-IsSource : IsSource whole_sender
whole_sender-IsSource = record { is_len = refl; is_count = sender-IsSource.is_count }

abbrev sending : World
sending = record (world_of []) { send_results = λ n. wrote 7 }

first_of_one : (k : ℕ) → k < 1 → wrote 7 ≡ wrote (length (block_packet three_bytes k))
unfolding max_data_len
first_of_one zero h = refl
first_of_one (suc k) h = absurd (omega arith)

transfer_whole_example :
    (headers : List Header) × (decode_all true (send_window (whole_sender, sending)).1.1.outbox
      ≡ ok headers)
    × ((handle_headers true headers (created list_bits storage server 0, taking)).0 ≡ ok tt)
    × ((handle_headers true headers (created list_bits storage server 0, taking)).1.0.file.content
        ≡ three_bytes)
transfer_whole_example =
    transfer_whole true whole_sender sending server storage 0 taking whole_sender-IsSource refl refl
      (omega arith) (omega arith) refl refl first_of_one storage-Works refl
