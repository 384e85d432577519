-- ===== src/Receiver/Data.antt =====
-- `ReceiveFile::handle_data`, and the acknowledgement it can send.
pub mod Acks
pub mod Consecutive
pub mod Storing
pub mod Cutting
pub mod Putting
pub mod Refines
use rust_tftp.BitSets.{BitSets}
use rust_tftp.Common.{ℕ, ◌+◌, ◌*◌, Bool, true, false, ◌||◌, Option, none, some, ltb, if◌then◌else◌}
use rust_tftp.Common.Outcome.{Outcome, ok}
use rust_tftp.Common.Slices.{slice}
use rust_tftp.Common.State.{◌>>=◌, ◌>>◌, pure, lift, ignore}
use rust_tftp.Errors.{IoError}
use rust_tftp.Header.Ack
use rust_tftp.Header.Types.{max_data_len, DataHeader, Header}
use rust_tftp.Net.{now, send}
use rust_tftp.Receiver.Storage.{Storage, write_map, remap, ReceiveFile, on_file}
use rust_tftp.Transfer.Session.{Method, world, self, update, with_lock}

-- The length of the file with this block at its end.
abbrev pub new_len : DataHeader → ℕ
new_len h = max_data_len * h.block_number + h.data_len

module _ {bits : BitSets} where
  -- `ReceiveFile::send_ack`
  unfoldable pub send_ack : Bool → ℕ → Method (ReceiveFile bits) IoError (Option (Unit {0}))
  send_ack debug block_number =
      with_lock
        (do
          s ← self
          world (send debug (Header.ack (Ack.new block_number)) s.host_addr)
          pure (some tt))
        (pure none)

  -- The first `if let` of `handle_data`, on `self.highest_block.take()`.
  unfoldable pub fit : DataHeader → Option ℕ → Method (ReceiveFile bits) IoError (Unit {0})
  fit h none = do
    update λ s. record s { highest_block = some h.block_number }
    on_file (remap (new_len h))
  fit h (some highest_block) = do
    update λ s. record s { highest_block = some h.block_number }
    s ← self
    if ltb highest_block h.block_number || ltb s.file.map_len (new_len h)
        then on_file (remap (new_len h))
        else pure tt

  -- The copy at the end of `handle_data`.
  unfoldable pub store_block : DataHeader → Method (ReceiveFile bits) IoError (Unit {0})
  store_block h = do
    let start = h.block_number * max_data_len
    if ltb h.data_len max_data_len
        then (do
          update λ s. record s { received_last_block = true }
          if ltb 0 h.data_len
              then (do
                src ← lift (slice h.contents 0 h.data_len)
                on_file (write_map start (start + h.data_len) src))
              else pure tt)
        else on_file (write_map start (start + max_data_len) h.contents)

  -- `if unsafe { STOP_AND_WAIT }`
  unfoldable pub ack_data : Bool → Bool → ℕ → Method (ReceiveFile bits) IoError (Unit {0})
  ack_data debug true block_number = do _ ← send_ack debug block_number; pure tt
  ack_data debug false block_number = pure tt

  -- `handle_data` behind that.
  unfoldable pub take_data : DataHeader → Method (ReceiveFile bits) IoError (Option (Unit {0}))
  take_data h = do
    t ← world now
    update λ s. record s { last_time = t }
    s ← self
    fit h s.highest_block
    update λ s. record s { received = bits.insert s.received h.block_number }
    store_block h
    pure (some tt)

  -- `ReceiveFile::handle_data`
  unfoldable pub handle_data :
      Bool → DataHeader → Method (ReceiveFile bits) IoError (Option (Unit {0}))
  handle_data debug h = do
    stop_and_wait ← world (λ w. (ok w.stop_and_wait, w))
    ack_data debug stop_and_wait h.block_number
    take_data h
