-- ===== src/Sender/Drive/Stuck.antt =====
-- `SendFile::poll` where nothing more comes from the host.
use rust_tftp.BitSets.{BitSets}
use rust_tftp.Common.{◌≡◌, refl, Bool, false, ◌&&◌, none, [], ◌==◌}
use rust_tftp.Common.Outcome.{hang}
use rust_tftp.Common.State.{◌>>=◌}
use rust_tftp.Net.{World, set_read_timeout, recv, peek_from, lift_io}
use rust_tftp.Sender.Blocks.{SendFile}
use rust_tftp.Sender.Drive.{receive_header, poll}
use rust_tftp.Transfer.Session.{world, self, with_lock_free}

module _ {bits : BitSets} (debug : Bool) (s : SendFile bits) (w : World) where
  receive_header_silent :
      w.locked ≡ false
      → w.inbox ≡ []
      → receive_header debug (s, w) ≡ (hang, (s, record w { read_timeout = none; locked = false }))
  unfolding receive_header ◌>>=◌ world self set_read_timeout recv peek_from lift_io
  receive_header_silent free empty = rw (with_lock_free _ _ s w free, empty) refl

  -- With the lock free, nothing more to come from the network, and a window that does not start at
  -- the end of the file or a block that is pending, poll never returns: the read timeout is taken
  -- off before the read.
  pub poll_silent :
      w.locked ≡ false
      → w.inbox ≡ []
      → (s.window_range.0 == s.num_blocks && bits.is_empty s.blocks_pending_acks) ≡ false
      → (poll debug (s, w)).0 ≡ hang
  unfolding poll ◌>>=◌ self
  poll_silent free empty unfinished = rw (unfinished, receive_header_silent free empty) refl
