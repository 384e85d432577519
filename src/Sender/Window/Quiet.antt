-- ===== src/Sender/Window/Quiet.antt =====
-- While the lock of the socket is held, the methods that send the window send nothing.
use rust_tftp.BitSets.{BitSets}
use rust_tftp.Common.{ℕ, zero, suc, ◌+◌, ◌≡◌, true, Option, none, some, List}
use rust_tftp.Common.Outcome.{ok}
use rust_tftp.Common.Slices.{Bytes}
use rust_tftp.Common.State.{◌>>=◌, pure}
use rust_tftp.Common.State.Keeps.{Keeps, Keeps-bind, Keeps-lift, keeps_rules}
use rust_tftp.Net.{SocketAddr, World}
use rust_tftp.Net.Reading.{Still, now-Still}
use rust_tftp.Sender.Blocks.{SendFile, get_block_n}
use rust_tftp.Sender.Window.{poll_data, after_poll, send_data, send_block, send_blocks, send_window}
use rust_tftp.Transfer.SendData
use rust_tftp.Transfer.SendData.{SendData}
use rust_tftp.Transfer.Session.{not_ready, with_lock_held}
use rust_tftp.Transfer.Session.Keeping.{InWorld, Keeps-world, Keeps-self}

poll_locked :
    (d : SendData) (w : World) → w.locked ≡ true → SendData.poll (d, w) ≡ (ok not_ready, (d, w))
unfolding SendData.poll pure
poll_locked d w h = with_lock_held _ _ d w h

-- The lock is held, and `out` is what was sent.
abbrev pub Quiet : (bits : BitSets) → List (Bytes × SocketAddr) → SendFile bits × World → Type 0
Quiet bits out = InWorld (Still true out)

module _ {bits : BitSets} {out : List (Bytes × SocketAddr)} where
  after_poll-Quiet :
      (t : ℕ) (d : SendData) → Keeps (Quiet bits out) (after_poll {bits = bits} t (ok not_ready, d))
  unfolding after_poll
  after_poll-Quiet t d = search keeps_rules

  sending :
      (t : ℕ) (d : SendData) → Keeps (Quiet bits out) (poll_data {bits = bits} d >>= after_poll t)
  unfolding ◌>>=◌ poll_data
  sending t d = record {
    at = λ (s, w) q. rw (poll_locked d w q.held.is_locked) ((after_poll-Quiet t d).at (s, w) q);
  }

  send_data-Quiet : (d : SendData) → Keeps (Quiet bits out) (send_data {bits = bits} d)
  unfolding send_data
  send_data-Quiet d = Keeps-bind (Keeps-world now-Still) λ t. sending t d

  send_block-Quiet :
      (block : Option SendData) → Keeps (Quiet bits out) (send_block {bits = bits} block)
  unfolding send_block
  send_block-Quiet none = search keeps_rules
  send_block-Quiet (some d) = send_data-Quiet d

  send_blocks-Quiet : (rounds i : ℕ) → Keeps (Quiet bits out) (send_blocks {bits = bits} rounds i)
  unfolding send_blocks
  send_blocks-Quiet zero i = search keeps_rules
  send_blocks-Quiet (suc rounds) i = Keeps-bind Keeps-self λ s.
      Keeps-bind (Keeps-lift (get_block_n s i))
        λ block. Keeps-bind (send_block-Quiet block) λ _. send_blocks-Quiet rounds (i + 1)

  pub send_window-Quiet : Keeps (Quiet bits out) (send_window {bits = bits})
  unfolding send_window
  send_window-Quiet = search (keeps_rules, send_blocks-Quiet, Keeps-self)
