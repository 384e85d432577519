-- ===== src/Sender/Window/Sending.antt =====
-- Sending the window changes neither the window nor the pending set.
use rust_tftp.BitSets.{BitSets}
use rust_tftp.Common.{ℕ, zero, suc, ◌+◌, ◌≡◌, Option, none, some}
use rust_tftp.Common.Outcome.{Outcome, ok, err, panic, hang}
use rust_tftp.Common.State.{Run}
use rust_tftp.Common.State.Keeps.{Keeps, Keeps-bind, Keeps-lift, keeps_rules}
use rust_tftp.Errors.{IoError}
use rust_tftp.Net.{World, now}
use rust_tftp.Sender.Blocks.{SendFile, get_block_n}
use rust_tftp.Sender.Window.{send_blocks, send_window, poll_data, send_data, send_block, after_poll}
use rust_tftp.Sender.Window.Pending.{core}
use rust_tftp.Transfer.SendData.{SendData}
use rust_tftp.Transfer.Session.{Async, ready, not_ready, world, self, update}

-- What sending the window leaves alone.
pub record Fixed (bits : BitSets) (c : bits.BitSet × (ℕ × ℕ) × ℕ × ℕ) (t : SendFile bits × World)
    : Type 0 where
  pub is_core : core t.0 ≡ c

module _ {bits : BitSets} {c : bits.BitSet × (ℕ × ℕ) × ℕ × ℕ} where
  world-Fixed : {E A : Type 0} (m : Run World E A) → Keeps (Fixed bits c) (world m)
  unfolding world
  world-Fixed m = record { at = λ t q. record { is_core = q.is_core } }

  self-Fixed : {E : Type 0} → Keeps {E = E} (Fixed bits c) self
  unfolding self
  self-Fixed = record { at = λ t q. q }

  after_poll-Fixed :
      (t : ℕ) (r : Outcome IoError (Async ℕ) × SendData) → Keeps (Fixed bits c) (after_poll t r)
  unfolding after_poll update
  after_poll-Fixed t (ok (ready n), d) = record { at = λ t q. record { is_core = q.is_core } }
  after_poll-Fixed t (ok not_ready, d) = search keeps_rules
  after_poll-Fixed t (err e, d) = search keeps_rules
  after_poll-Fixed t (panic, d) = search keeps_rules
  after_poll-Fixed t (hang, d) = search keeps_rules

  poll_data-Fixed : (d : SendData) → Keeps (Fixed bits c) (poll_data d)
  unfolding poll_data
  poll_data-Fixed d = record { at = λ t q. record { is_core = q.is_core } }

  send_block-Fixed : (block : Option SendData) → Keeps (Fixed bits c) (send_block block)
  unfolding send_block send_data
  send_block-Fixed none = search keeps_rules
  send_block-Fixed (some d) =
      Keeps-bind (world-Fixed now) λ t. Keeps-bind (poll_data-Fixed d) (after_poll-Fixed t)

  send_blocks-Fixed : (rounds i : ℕ) → Keeps (Fixed bits c) (send_blocks rounds i)
  unfolding send_blocks
  send_blocks-Fixed zero i = search keeps_rules
  send_blocks-Fixed (suc rounds) i = Keeps-bind self-Fixed λ s.
      Keeps-bind (Keeps-lift (get_block_n s i))
        λ block. Keeps-bind (send_block-Fixed block) λ _. send_blocks-Fixed rounds (i + 1)

  pub send_window-Fixed : Keeps (Fixed bits c) send_window
  unfolding send_window
  send_window-Fixed = Keeps-bind self-Fixed λ s. send_blocks-Fixed _ _
