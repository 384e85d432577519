-- ===== src/Sender/Drive.antt =====
-- The methods of `SendFile` that wait for packets, its future, and its construction.
pub mod Silent
pub mod Start
pub mod Stuck
use rust_tftp.BitSets.{BitSets}
use rust_tftp.Common.{
  ℕ, zero, suc, ◌+◌, ◌*◌, ◌/◌, ◌^◌, Bool, true, false, ◌&&◌, Option, none, some, ◌⊎◌, inl, inr, [],
  length, leb, ltb, ◌==◌, if◌then◌else◌,
}
use rust_tftp.Common.Outcome.{Outcome, ok, err, panic, hang}
use rust_tftp.Common.Slices.{Bytes}
use rust_tftp.Common.State.{Run, ◌>>=◌, ◌>>◌, pure, fail, lift, attempt, modify}
use rust_tftp.Common.Text.{codes}
use rust_tftp.Errors.{ErrorKind, would_block, timed_out, invalid_data, IoError, TftpError, io_error}
use rust_tftp.Header.Ack
use rust_tftp.Header.Types.{max_data_len, AckHeader, Header}
use rust_tftp.Net.{SocketAddr, World, other_error, set_read_timeout, recv, send}
use rust_tftp.Sender.Blocks.{SendFile, count_blocks}
use rust_tftp.Sender.Window.{send_window, handle_ack, handle_error}
use rust_tftp.Transfer.Session.{
  Async, ready, not_ready, max_attempts, Method, world, self, update, with_lock,
}

-- `io::ErrorKind::WouldBlock | io::ErrorKind::TimedOut`
unfoldable pub is_timeout : ErrorKind → Bool
is_timeout would_block = true
is_timeout timed_out = true
is_timeout _ = false

-- `10^9` nanoseconds
abbrev pub second : ℕ
second = 1_000_000_000

-- `unsafe { STOP_AND_WAIT = true }`
unfoldable pub set_stop_and_wait : ℕ → Run World IoError (Unit {0})
set_stop_and_wait window_size w =
    (ok tt, if leb window_size 1 then record w { stop_and_wait = true } else w)

-- The object and the world after a method that returns `self`.
abbrev pub started :
    {S : Type 0} → Outcome IoError (Unit {0}) × (S × World) → Outcome IoError S × World
started (ok _, (s, w)) = (ok s, w)
started (err e, (s, w)) = (err e, w)
started (panic, (s, w)) = (panic, w)
started (hang, (s, w)) = (hang, w)

unfoldable pub is_ack : Option Header → Bool
is_ack (some (Header.ack ack_header)) = true
is_ack _ = false

module _ {bits : BitSets} where
  unfoldable pub error_past_limit : TftpError → Method (SendFile bits) IoError (Option Header)
  error_past_limit (io_error ioerr) = fail ioerr
  error_past_limit _ = pure none

  -- A timeout sends the window again, with the lock of the socket held.
  unfoldable pub resend_after : TftpError → Method (SendFile bits) IoError (Unit {0})
  resend_after (io_error ioerr) = if is_timeout ioerr.kind then send_window else pure tt
  resend_after _ = pure tt

  unfoldable pub after_recv : TftpError ⊎ Header → Method (SendFile bits) IoError (Option Header)
  after_recv (inr r) = do update λ s. record s { err_counter = 0 }; pure (some r)
  after_recv (inl e) = do
    s ← self
    if ltb max_attempts s.err_counter then error_past_limit e else (do
      resend_after e
      update λ s. record s { err_counter = s.err_counter + 1 }
      pure none)

  unfoldable pub after_header :
      IoError ⊎ Option Header → Method (SendFile bits) IoError (Async (Unit {0}))
  after_header (inr (some (Header.ack ack_header))) = handle_ack ack_header
  after_header (inr (some (Header.error err_header))) = handle_error err_header
  after_header (inr _) = pure not_ready
  after_header (inl e) = if is_timeout e.kind then pure not_ready else fail e

  unfoldable pub not_acknowledged : Method (SendFile bits) IoError (Unit {0})
  not_acknowledged = fail (record {
    kind = invalid_data;
    message = codes "Did not receive an ACK for the write request.";
  })

  unfoldable pub after_first : IoError ⊎ Option Header → Method (SendFile bits) IoError (Unit {0})
  after_first (inr header) = if is_ack header then send_window else not_acknowledged
  after_first (inl e) = not_acknowledged

module _ {bits : BitSets} (debug : Bool) where
  -- `SendFile::receive_header`
  unfoldable pub receive_header : Method (SendFile bits) IoError (Option Header)
  receive_header =
      with_lock
        (do
          world (set_read_timeout none)
          s ← self
          r ← attempt (world (recv debug s.host_addr))
          after_recv r)
        (pure none)

  -- `SendFile::poll`
  unfoldable pub poll : Method (SendFile bits) IoError (Async (Unit {0}))
  poll = do
    s ← self
    if s.window_range.0 == s.num_blocks && bits.is_empty s.blocks_pending_acks
        then pure (ready tt)
        else (do r ← attempt receive_header; after_header r)

  -- `SendFile::run`; with no fuel left the loop is still going.
  unfoldable pub run : ℕ → Method (SendFile bits) IoError (Unit {0})
  run zero = lift hang
  run (suc fuel) = do r ← poll; elim r [ ready _ ↦ pure tt | not_ready ↦ run fuel ]

  -- `SendFile::init`
  unfoldable pub init : Method (SendFile bits) IoError (Unit {0})
  init = do r ← attempt receive_header; after_first r

  -- `SendFile::server_init`; the lock must be free there (`unreachable!()`).
  unfoldable pub server_init : Method (SendFile bits) IoError (Unit {0})
  server_init = do
    with_lock
        (do
          s ← self
          world (set_read_timeout (some (s.average_rtt * 2)))
          world (send debug (Header.ack (Ack.new 0)) s.host_addr))
        (lift panic)
    send_window

module _ (bits : BitSets) where
  -- The record that `new` and `new_server` build.
  unfoldable pub created : Bytes → SocketAddr → ℕ → SendFile bits
  created file_map host_addr window_size = record {
    file_map = file_map;
    file_len = length file_map;
    host_addr = host_addr;
    blocks_pending_acks = bits.full (count_blocks (length file_map));
    num_blocks = count_blocks (length file_map);
    window_size = window_size;
    window_range = (0, window_size);
    err_counter = 0;
    send_times = [];
    average_rtt = second;
    timeouts = 0;
  }

  -- `new` and `new_server` up to the call of `init` or of `server_init`. `mapped` is what
  -- `MmapOptions::new().map(&file)` returned.
  unfoldable pub build : SocketAddr → IoError ⊎ Bytes → ℕ → Run World IoError (SendFile bits)
  build host_addr (inl e) window_size = do set_stop_and_wait window_size; fail e
  build host_addr (inr file_map) window_size = do
    set_stop_and_wait window_size
    if ltb (2 ^ 24 * max_data_len) (length file_map)
        then fail (other_error (codes "Files greater than 8GB in size cannot be sent."))
        else pure (created file_map host_addr (if leb window_size 1 then 1 else 2))

  -- `r.init(window_size)` returns `self`.
  unfoldable pub start :
      Method (SendFile bits) IoError (Unit {0}) → SendFile bits → Run World IoError (SendFile bits)
  start m s w = started (m (s, w))

  -- `SendFile::new`
  unfoldable pub new : Bool → SocketAddr → IoError ⊎ Bytes → ℕ → Run World IoError (SendFile bits)
  new debug host_addr mapped window_size = do
    s ← build host_addr mapped window_size
    start (init debug) s

  -- `SendFile::new_server`
  unfoldable pub new_server :
      Bool → SocketAddr → IoError ⊎ Bytes → ℕ → Run World IoError (SendFile bits)
  new_server debug host_addr mapped window_size = do
    s ← build host_addr mapped window_size
    start (server_init debug) s
