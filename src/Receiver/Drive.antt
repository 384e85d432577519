-- ===== src/Receiver/Drive.antt =====
-- The methods of `ReceiveFile` that wait for packets, its future, and its construction.
pub mod Advance
pub mod Blocks
pub mod Completion
pub mod Consecutive
pub mod Early
pub mod Endless
pub mod Ending
pub mod FromSender
pub mod InOrder
pub mod Room
pub mod Unready
pub mod Whole
use rust_tftp.BitSets.{BitSets}
use rust_tftp.Common.{
  ℕ, zero, suc, ◌+◌, ◌-◌, ◌*◌, ◌/◌, Bool, true, false, Option, none, some, ◌⊎◌, inl, inr, List, [],
  ◌∷◌, ◌++◌, length, leb, ltb, if◌then◌else◌,
}
use rust_tftp.Common.Outcome.{Outcome, ok, err, panic, hang}
use rust_tftp.Common.Slices.{Bytes}
use rust_tftp.Common.State.{Run, ◌>>=◌, ◌>>◌, pure, fail, lift, attempt, ignore}
use rust_tftp.Common.Text.{codes}
use rust_tftp.Errors.{ErrorKind, would_block, timed_out, IoError, TftpError, io_error}
use rust_tftp.Header.Types.{undefined, DataHeader, ErrorHeader, Header}
use rust_tftp.Net.{SocketAddr, World, other_error, now, set_read_timeout, recv, send}
use rust_tftp.Receiver.Data.{send_ack, handle_data}
use rust_tftp.Receiver.Packets.{reversed, receive_header, give_up}
use rust_tftp.Receiver.Storage.{Storage, write_zero, map_mut, ReceiveFile}
use rust_tftp.Sender.Drive.{is_timeout, second, started}
use rust_tftp.Transfer.Session.{
  Async, ready, not_ready, max_attempts, Method, world, self, update, with_lock,
}

-- `TOTAL_TIMEOUT()` of client.rs
abbrev pub total_timeout : ℕ
total_timeout = 10 * second

-- `loop { if self.received.contains(consec_recv + 1) { … } else { break } }`
unfoldable pub advance_consec : {E : Type 0} (bits : BitSets) → ℕ → bits.BitSet → ℕ → Outcome E ℕ
advance_consec bits zero received consec_recv = hang
advance_consec bits (suc fuel) received consec_recv =
    let more = advance_consec bits fuel received (consec_recv + 1) in
    if bits.contains received (consec_recv + 1) then more else ok consec_recv

-- `for i in (0..self.highest_block.unwrap())`, over `rounds` numbers from `i` on.
unfoldable pub contains_all : (bits : BitSets) → bits.BitSet → ℕ → ℕ → Bool
contains_all bits received zero i = true
contains_all bits received (suc rounds) i =
    if bits.contains received i then contains_all bits received rounds (i + 1) else false

unfoldable pub unwrap : {E A : Type 0} → Option A → Outcome E A
unwrap none = panic
unwrap (some a) = ok a

module _ {bits : BitSets} where
  abbrev pub first_consec : ReceiveFile bits → Option ℕ → Option ℕ
  first_consec s none = if bits.contains s.received 0 then some 0 else none
  first_consec s (some consec_recv) = some consec_recv

module _ {bits : BitSets} (debug : Bool) where
  unfoldable pub advance_from : Option ℕ → Method (ReceiveFile bits) IoError (Unit {0})
  advance_from none = pure tt
  advance_from (some original) = do
    s ← self
    consec_recv ← lift (advance_consec bits (suc (bits.limit s.received)) s.received original)
    update λ s. record s { consec_recv = some consec_recv }
    if leb original consec_recv then ignore (send_ack debug consec_recv) else pure tt

  -- The first statements of `poll`, which stand again behind the handled headers.
  unfoldable pub catch_up : Method (ReceiveFile bits) IoError (Unit {0})
  catch_up = do
    update λ s. record s { consec_recv = first_consec s s.consec_recv }
    s ← self
    advance_from s.consec_recv

  -- `for i in 0..4 { self.send_ack(…)?; }`
  unfoldable pub send_acks : ℕ → ℕ → Method (ReceiveFile bits) IoError (Unit {0})
  send_acks zero block_number = pure tt
  send_acks (suc rounds) block_number = do
    _ ← send_ack debug block_number
    send_acks rounds block_number

  -- `if self.received_last_block`: whether `poll` returns there that the transfer is complete.
  unfoldable pub complete : Method (ReceiveFile bits) IoError Bool
  complete = do
    s ← self
    if s.received_last_block
        then (do
          highest_block ← lift (unwrap s.highest_block)
          if contains_all bits s.received highest_block 0
              then (do send_acks 4 highest_block; pure true)
              else pure false)
        else pure false

  unfoldable pub after_data :
      IoError ⊎ Option (Unit {0}) → Method (ReceiveFile bits) IoError (Unit {0})
  after_data (inl e) = give_up debug e
  after_data (inr none) =
      give_up debug
        (record { kind = would_block; message = codes "Could not obtain UdpSocket mutex." })
  after_data (inr (some _)) = pure tt

  -- `for header in headers.into_iter().rev()`, over the headers in that order. Each early return of
  -- its body is an error.
  unfoldable pub handle_headers : List Header → Method (ReceiveFile bits) IoError (Unit {0})
  handle_headers [] = pure tt
  handle_headers (Header.block data_header ∷ headers) = do
    r ← attempt (handle_data debug data_header)
    after_data r
    handle_headers headers
  handle_headers (Header.error error_header ∷ headers) = fail (
      other_error
        (codes "Received error from server: '" ++ error_header.error_message ++ codes "'"))
  handle_headers (_ ∷ headers) = handle_headers headers

  unfoldable pub ack_again : Option ℕ → Method (ReceiveFile bits) IoError (Unit {0})
  ack_again (some block_number) = do _ ← send_ack debug block_number; pure tt
  ack_again none = update λ s. record s { error_count = s.error_count + 1 }

  unfoldable pub after_timeout : Method (ReceiveFile bits) IoError (Unit {0})
  after_timeout = do
    t ← world now
    s ← self
    if ltb second (t - s.last_time)
        then (do u ← world now; update λ s. record s { last_time = u }; ack_again s.consec_recv)
        else pure tt

  unfoldable pub after_headers :
      ℕ → IoError ⊎ Option (List Header) → Method (ReceiveFile bits) IoError (Async (Unit {0}))
  after_headers prev_error_count (inr (some headers)) = do
    handle_headers (reversed headers [])
    catch_up
    pure not_ready
  after_headers prev_error_count (inr none) = pure not_ready
  after_headers prev_error_count (inl e) =
      if is_timeout e.kind then (do after_timeout; pure not_ready) else (do
        update λ s. record s { error_count = prev_error_count + 1 }
        s ← self
        if ltb max_attempts s.error_count then give_up debug e else pure not_ready)

  -- `poll` where the transfer is not complete.
  unfoldable pub await_data : ℕ → Method (ReceiveFile bits) IoError (Async (Unit {0}))
  await_data rounds = do
    t ← world now
    s ← self
    if ltb total_timeout (t - s.last_time)
        then give_up debug
            (record { kind = timed_out; message = codes "TFTP connection appears to be dead." })
        else (do
          update λ s. record s { error_count = 0 }
          r ← attempt (receive_header debug rounds)
          after_headers s.error_count r)

  -- `ReceiveFile::poll`; `rounds` bounds the loop of `receive_header`.
  unfoldable pub poll : ℕ → Method (ReceiveFile bits) IoError (Async (Unit {0}))
  poll rounds = do
    catch_up
    is_complete ← complete
    if is_complete then pure (ready tt) else await_data rounds

  -- `ReceiveFile::run`; with no fuel left the loop is still going.
  unfoldable pub run : ℕ → ℕ → Method (ReceiveFile bits) IoError (Unit {0})
  run rounds zero = lift hang
  run rounds (suc fuel) = do
    r ← poll rounds
    elim r [ ready _ ↦ pure tt | not_ready ↦ run rounds fuel ]

  -- `ReceiveFile::init`
  unfoldable pub init : Method (ReceiveFile bits) IoError (Unit {0})
  init = do _ ← send_ack debug 0; pure tt

-- `file.write(&[0])?` and the first mapping, of the whole file.
unfoldable pub open_map : Run Storage IoError Storage
open_map = do write_zero; f ← (λ f. (ok f, f)); map_mut (length f.content); (λ f. (ok f, f))

module _ (bits : BitSets) where
  abbrev pub created : Storage → SocketAddr → ℕ → ReceiveFile bits
  created file host_addr t = record {
    file = file;
    highest_block = none;
    received_last_block = false;
    received = bits.empty;
    consec_recv = none;
    host_addr = host_addr;
    error_count = 0;
    packet_time = second;
    last_time = t;
  }

  -- `ReceiveFile::new`
  unfoldable pub new : Bool → SocketAddr → Storage → Run World IoError (ReceiveFile bits)
  new debug host_addr file = do
    mapping ← lift (open_map file).0
    t ← now
    λ w. started (init debug (created mapping host_addr t, w))

  -- `ReceiveFile::receive`
  unfoldable pub receive : Bool → SocketAddr → Storage → Run World IoError (ReceiveFile bits)
  receive debug host_addr file = do s ← new debug host_addr file; λ w. started (init debug (s, w))
