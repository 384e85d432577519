-- ===== src/Tests/Senders.antt =====
-- A sender of a file of one block, with bit sets as lists.
use rust_tftp.Common.{
  ℕ, zero, suc, ◌+◌, ◌*◌, ◌≤◌, ◌<◌, ◌≡◌, ◌≢◌, refl, sym, ◌∙◌, arith, true, false, ◌&&◌, inr, some,
  [], ◌∷◌, leb, ltb, length,
}
use rust_tftp.Common.Outcome.{ok, hang}
use rust_tftp.Common.Slices.{Bytes}
use rust_tftp.Header.Data.Wire.{packet}
use rust_tftp.Header.Types.{max_data_len, AckHeader}
use rust_tftp.Sender.Blocks.{count_blocks, SendFile, get_block_n}
use rust_tftp.Sender.Blocks.Count.{count_blocks_bounds}
use rust_tftp.Sender.Blocks.Cut.{IsSource, get_block_n-chunk}
use rust_tftp.Sender.Blocks.Reassembly.{reassemble, reassemble_all}
use rust_tftp.Sender.Drive.Start.{IsFresh, build-IsFresh}
use rust_tftp.Sender.Drive.{created, build, set_stop_and_wait, receive_header, poll}
use rust_tftp.Sender.Drive.Silent.{receive_header-outbox}
use rust_tftp.Sender.Drive.Stuck.{poll_silent}
use rust_tftp.Sender.Window.{handle_ack, send_window}
use rust_tftp.Sender.Window.Tracking.{IsTracking, handle_ack-IsTracking, handle_ack_last}
use rust_tftp.Tests.ListBits.{list_bits, below, member-below, is_nil}
use rust_tftp.Tests.Sockets.{server, world_of}
use rust_tftp.Common.State.{◌>>=◌}
use rust_tftp.Transfer.SendData.{unsent}
use rust_tftp.Errors.{timed_out}
use rust_tftp.Net.{World, wrote, refused}
use rust_tftp.Sender.Window.Transmit.{block_packet, packets, send_window-packets}
use rust_tftp.Sender.Blocks.{max_window_size}
use rust_tftp.Sender.Window.Resizing.{handle_ack-le-max_window_size, handle_ack_stalled}
use rust_tftp.Transfer.SendError.{SendError, send_loop}
use rust_tftp.Transfer.SendError.Retry.{send_loop_ends}
use rust_tftp.Transfer.Session.{ready, not_ready}

-- A file of three bytes, sent with a window of two blocks.
abbrev file : Bytes
file = 1 ∷ 2 ∷ 3 ∷ []

abbrev pub sender : SendFile list_bits
sender = record {
  file_map = file;
  file_len = 3;
  host_addr = server;
  blocks_pending_acks = below 1;
  num_blocks = 1;
  window_size = 2;
  window_range = (0, 2);
  err_counter = 0;
  send_times = [];
  average_rtt = 0;
  timeouts = 0;
}

one_block : count_blocks 3 ≡ 1
unfolding count_blocks max_data_len
one_block = refl

pub sender-IsSource : IsSource sender
sender-IsSource = record { is_len = refl; is_count = sym one_block }

from_zero : (j : ℕ) → ltb j 1 ≡ (leb 0 j && ltb j 1)
from_zero j = ground arith

sender-IsTracking : IsTracking sender
sender-IsTracking = record {
  in_file = omega arith;
  is_pending = λ j. member-below 1 j ∙ from_zero j;
}

abbrev first_ack : AckHeader
first_ack = record { block_number = 0 }

count_blocks_bounds_example :
    (3 ≤ count_blocks 3 * max_data_len) × (count_blocks 3 * max_data_len < 3 + max_data_len)
count_blocks_bounds_example = count_blocks_bounds 3

get_block_n-chunk_example : get_block_n sender 0 ≡ ok (some (unsent (packet 0 0 0 file) 0 server))
unfolding max_data_len
get_block_n-chunk_example = get_block_n-chunk sender 0 sender-IsSource

reassemble_all_example : reassemble true sender 1 0 ≡ ok file
reassemble_all_example = reassemble_all true sender sender-IsSource

handle_ack-IsTracking_example :
    IsTracking (handle_ack first_ack (sender, world_of [])).1.0
    × ((handle_ack first_ack (sender, world_of [])).1.0.window_range.0 ≡ 1)
handle_ack-IsTracking_example =
    handle_ack-IsTracking first_ack sender (world_of []) sender-IsTracking (omega arith)

handle_ack_last_example :
    ((handle_ack first_ack (sender, world_of [])).0 ≡ ok (ready tt))
    × (is_nil (handle_ack first_ack (sender, world_of [])).1.0.blocks_pending_acks ≡ true)
handle_ack_last_example = handle_ack_last first_ack sender (world_of []) sender-IsTracking refl

receive_header-outbox_example :
    ((receive_header true (sender, world_of [])).1.1.outbox ≡ [])
    × ((receive_header true (sender, world_of [])).1.1.locked ≡ false)
receive_header-outbox_example = receive_header-outbox true (sender, world_of [])

poll_silent_example : (poll true (sender, world_of [])).0 ≡ hang
poll_silent_example = poll_silent true sender (world_of []) refl refl refl

abbrev built : SendFile list_bits
built = created list_bits file server 2

is_built : (build list_bits server (inr file) 4 (world_of [])).0 ≡ ok built
unfolding build ◌>>=◌ set_stop_and_wait max_data_len
is_built = refl

build-IsFresh_example : IsFresh file built
build-IsFresh_example = build-IsFresh file server 4 (world_of []) built is_built

handle_ack-le-max_window_size_example :
    (handle_ack first_ack (sender, world_of [])).1.0.window_size ≤ max_window_size
handle_ack-le-max_window_size_example =
    handle_ack-le-max_window_size first_ack sender (world_of []) (omega arith)

abbrev stalled : SendFile list_bits
stalled = record sender { num_blocks = 2; window_size = 0 }

handle_ack_stalled_example :
    ((handle_ack first_ack (stalled, world_of [])).0 ≡ ok not_ready)
    × ((handle_ack first_ack (stalled, world_of [])).1.1.outbox ≡ [])
    × ((handle_ack first_ack (stalled, world_of [])).1.0.window_size ≡ 0)
handle_ack_stalled_example = handle_ack_stalled first_ack stalled (world_of []) refl (omega arith)

abbrev error_sender : SendError
error_sender = record { host_addr = server; send_attempts = 0; raw_header = file }

abbrev refusing : World
refusing = record (world_of []) {
  send_results = λ n. refused (record { kind = timed_out; message = [] });
}

send_loop_ends_example : (send_loop 9 (error_sender, refusing)).0 ≢ hang
send_loop_ends_example = send_loop_ends 9 error_sender refusing refl (omega arith) (omega arith)

abbrev whole_window : SendFile list_bits
whole_window = record sender { window_range = (0, 1) }

abbrev accepting : World
accepting = record (world_of []) { send_results = λ n. wrote 7 }

answered : (k : ℕ) → k < 1 → accepting.send_results k ≡ wrote (length (block_packet file (0 + k)))
unfolding max_data_len
answered zero lt = refl
answered (suc k) lt = absurd (omega arith)

send_window-packets_example :
    ((send_window (whole_window, accepting)).0 ≡ ok tt)
    × ((send_window (whole_window, accepting)).1.1.outbox ≡ packets file server 1 0)
send_window-packets_example =
    send_window-packets whole_window accepting (record { is_len = refl; is_count = sym one_block })
      (omega arith) (omega arith) refl answered
