-- ===== src/Sender/Window.antt =====
-- The methods of `SendFile` that send blocks and take acknowledgements.
pub mod Quiet
pub mod Pending
pub mod Sending
pub mod Tracking
pub mod Resizing
pub mod Transmit
use rust_tftp.BitSets.{BitSets}
use rust_tftp.Common.{
  ℕ, zero, suc, ◌+◌, ◌-◌, ◌*◌, ◌/◌, min, Bool, true, false, not, Option, none, some, ◌⊎◌, inl, inr,
  List, [], ◌∷◌, ltb, ◌==◌, if◌then◌else◌,
}
use rust_tftp.Common.Outcome.{Outcome, ok, err, panic, hang}
use rust_tftp.Common.State.{◌>>=◌, ◌>>◌, pure, fail, lift, attempt, ignore}
use rust_tftp.Common.Text.{codes}
use rust_tftp.Errors.{IoError}
use rust_tftp.Header.Types.{AckHeader, ErrorHeader}
use rust_tftp.Net.{World, other_error, now, set_read_timeout}
use rust_tftp.Sender.Blocks.{max_window_size, SendFile, get_block_n}
use rust_tftp.Transfer.SendData
use rust_tftp.Transfer.SendData.{SendData}
use rust_tftp.Transfer.Session.{
  Async, ready, not_ready, max_attempts, Method, world, self, update, with_lock, returned,
}

-- `HashMap` by an association list: a key is found at its first entry.
unfoldable pub insert_time : ℕ → ℕ → List (ℕ × ℕ) → List (ℕ × ℕ)
insert_time k t [] = (k, t) ∷ []
insert_time k t ((j, u) ∷ m) = if j == k then (k, t) ∷ m else (j, u) ∷ insert_time k t m

unfoldable pub find_time : ℕ → List (ℕ × ℕ) → Option ℕ
find_time k [] = none
find_time k ((j, u) ∷ m) = if j == k then some u else find_time k m

unfoldable pub remove_time : ℕ → List (ℕ × ℕ) → List (ℕ × ℕ)
remove_time k [] = []
remove_time k ((j, u) ∷ m) = let rest = remove_time k m in if j == k then rest else (j, u) ∷ rest

-- `for i in ack + 1..self.window_range.0 { insert(i) }`
unfoldable pub insert_from : (bits : BitSets) → ℕ → ℕ → bits.BitSet → bits.BitSet
insert_from bits zero i set = set
insert_from bits (suc rounds) i set = insert_from bits rounds (i + 1) (bits.insert set i)

-- The new window size. `self.window_size == 1;` is a comparison whose result is dropped, so a
-- size of 0 stays.
unfoldable pub resized : ℕ → ℕ × ℕ → ℕ → ℕ
resized number window_range window_size =
    if number + 1 == window_range.1
    then (if window_size * 2 == 0
        then window_size * 2
        else if ltb max_window_size (window_size * 2)
        then max_window_size
        else window_size * 2)
    else window_size / 2

module _ {bits : BitSets} where
  open bits use {remove}

  -- The `match` of `send_data`, on what `to_send.poll()` returned and on `to_send` after it.
  unfoldable pub after_poll :
      ℕ → Outcome IoError (Async ℕ) × SendData → Method (SendFile bits) IoError (Unit {0})
  after_poll time_sent (ok (ready block_number), to_send) =
      update λ s. record s { send_times = insert_time block_number time_sent s.send_times }
  after_poll time_sent (ok not_ready, to_send) =
      if ltb to_send.send_attempts max_attempts
      then pure tt
      else fail (other_error (codes "Failed to send packet too many times consecutively."))
  after_poll time_sent (err e, to_send) = fail e
  after_poll time_sent (panic, to_send) = lift panic
  after_poll time_sent (hang, to_send) = lift hang

  -- `to_send.poll()`
  unfoldable pub poll_data :
      SendData → Method (SendFile bits) IoError (Outcome IoError (Async ℕ) × SendData)
  poll_data to_send (s, w) = let (r, sw) = returned s (SendData.poll (to_send, w)) in (ok r, sw)

  -- `SendFile::send_data`
  unfoldable pub send_data : SendData → Method (SendFile bits) IoError (Unit {0})
  send_data to_send = do time_sent ← world now; r ← poll_data to_send; after_poll time_sent r

  unfoldable pub send_block : Option SendData → Method (SendFile bits) IoError (Unit {0})
  send_block none = pure tt
  send_block (some block) = send_data block

  -- `for block_number in self.window_range.0..self.window_range.1`: `rounds` numbers from `i` on.
  unfoldable pub send_blocks : ℕ → ℕ → Method (SendFile bits) IoError (Unit {0})
  send_blocks zero i = pure tt
  send_blocks (suc rounds) i = do
    s ← self
    block ← lift (get_block_n s i)
    send_block block
    send_blocks rounds (i + 1)

  -- `SendFile::send_window`
  unfoldable pub send_window : Method (SendFile bits) IoError (Unit {0})
  send_window = do s ← self; send_blocks (s.window_range.1 - s.window_range.0) s.window_range.0

  -- `SendFile::update_average_rtt`; what `set_read_timeout` returns is not looked at.
  unfoldable pub update_average_rtt : ℕ → Method (SendFile bits) IoError (Unit {0})
  update_average_rtt rtt = do
    update λ s. record s { average_rtt = rtt / 16 + s.average_rtt * 15 / 16 }
    s ← self
    with_lock (ignore (world (set_read_timeout (some s.average_rtt)))) (pure tt)

  -- An acknowledgement below the window moves the window back.
  unfoldable pub move_back : ℕ → SendFile bits → SendFile bits
  move_back number s = record s {
    blocks_pending_acks =
        insert_from bits (s.window_range.0 - (number + 1)) (number + 1) s.blocks_pending_acks;
    window_range = (number + 1, number + 1 + s.window_size);
  }

  unfoldable pub resize : Bool → ℕ → SendFile bits → SendFile bits
  resize true number s = s
  resize false number s = record s { window_size = resized number s.window_range s.window_size }

  unfoldable pub forget_time : Option ℕ → ℕ → Method (SendFile bits) IoError (Unit {0})
  forget_time none number = pure tt
  forget_time (some instant) number = do
    update λ s. record s { send_times = remove_time number s.send_times }
    t ← world now
    update_average_rtt (t - instant)

  -- `for block_number in self.window_range.0..=ack`
  unfoldable pub acknowledge : ℕ → ℕ → ℕ → Method (SendFile bits) IoError (Unit {0})
  acknowledge zero i number = pure tt
  acknowledge (suc rounds) i number = do
    update λ s. record s { blocks_pending_acks = remove s.blocks_pending_acks i }
    s ← self
    forget_time (find_time number s.send_times) number
    acknowledge rounds (i + 1) number

  -- The end of `handle_ack`: the new window is sent, unless it is empty at the end of the file.
  unfoldable pub advance : ℕ → Method (SendFile bits) IoError (Async (Unit {0}))
  advance number = do
    let new_lower = number + 1
    update
        λ s. record s { window_range = (new_lower, min (new_lower + s.window_size) s.num_blocks) }
    s ← self
    if s.window_range.0 == s.num_blocks then pure (ready tt) else (do send_window; pure not_ready)

  -- The first `if` of `handle_ack`.
  unfoldable pub adjust : ℕ → Bool → SendFile bits → SendFile bits
  adjust number stop_and_wait s =
      if ltb number s.window_range.0 then move_back number s else resize stop_and_wait number s

  -- `SendFile::handle_ack`
  unfoldable pub handle_ack : AckHeader → Method (SendFile bits) IoError (Async (Unit {0}))
  handle_ack ack_header = do
    let number = ack_header.block_number
    stop_and_wait ← world (λ w. (ok w.stop_and_wait, w))
    update (adjust number stop_and_wait)
    s ← self
    acknowledge (number + 1 - s.window_range.0) s.window_range.0 number
    advance number

  -- `SendFile::handle_error`
  unfoldable pub handle_error : ErrorHeader → Method (SendFile bits) IoError (Async (Unit {0}))
  handle_error err_header = fail (other_error err_header.error_message)
