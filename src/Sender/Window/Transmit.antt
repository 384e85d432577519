-- ===== src/Sender/Window/Transmit.antt =====
-- What `SendFile::send_window` transmits.
use mathlib.Core.List.{append_assoc, append-nil}
use rust_tftp.BitSets.{BitSets}
use rust_tftp.Common.{
  ℕ, zero, suc, ◌+◌, ◌-◌, ◌≤◌, ◌<◌, ◌≡◌, refl, sym, ap, ◌∙◌, arith, false, List, [], ◌∷◌, ◌++◌,
  length, lt→ltb, ==-self,
}
use rust_tftp.Common.Bits.{as_u8, shr}
use rust_tftp.Common.Outcome.{ok}
use rust_tftp.Common.Slices.{Bytes}
use rust_tftp.Common.State.{◌>>=◌, pure, lift}
use rust_tftp.Header.Data.Wire.{packet}
use rust_tftp.Net.{SocketAddr, World, Sent, wrote, now, send_to, answer_send}
use rust_tftp.Sender.Blocks.{SendFile}
use rust_tftp.Sender.Blocks.Cut.{chunk, IsSource, get_block_n-chunk}
use rust_tftp.Sender.Window.{
  insert_time, after_poll, poll_data, send_data, send_block, send_blocks, send_window,
}
use rust_tftp.Transfer.SendData
use rust_tftp.Transfer.SendData.{SendData, unsent, after_send}
use rust_tftp.Transfer.Session.{ready, world, self, update, with_lock_free}

-- The packet of block `i` of a file.
abbrev pub block_packet : Bytes → ℕ → Bytes
block_packet file i = packet (as_u8 (shr i 16)) (as_u8 (shr i 8)) (as_u8 i) (chunk i file)

-- The packets of the blocks `i`, `i + 1`, …, to one host.
unfoldable pub packets : Bytes → SocketAddr → ℕ → ℕ → List (Bytes × SocketAddr)
packets file host zero i = []
packets file host (suc rounds) i = (block_packet file i, host) ∷ packets file host rounds (i + 1)

-- The world after `raw` was sent whole.
abbrev sent : Bytes → SocketAddr → World → World
sent raw host w = record w {
  outbox = w.outbox ++ (raw, host) ∷ [];
  send_results = λ n. w.send_results (suc n);
  locked = false;
}

poll_whole :
    (d : SendData) (w : World)
    → w.locked ≡ false
    → w.send_results 0 ≡ wrote (length d.raw_header)
    → SendData.poll (d, w) ≡ (ok (ready d.block_number), (d, sent d.raw_header d.host_addr w))
unfolding SendData.poll after_send ◌>>=◌ pure self world update send_to answer_send
poll_whole d w free answer =
    rw (with_lock_free _ _ d w free, answer, ==-self (length d.raw_header)) refl

module _ {bits : BitSets} where
  send_data_whole :
      (d : SendData) (s : SendFile bits) (w : World)
      → w.locked ≡ false
      → w.send_results 0 ≡ wrote (length d.raw_header)
      → send_data d (s, w) ≡ (
        ok tt,
        (
          record s { send_times = insert_time d.block_number (w.clock 0) s.send_times },
          sent d.raw_header d.host_addr (record w { clock = λ n. w.clock (suc n) }),
        ),
      )
  unfolding send_data poll_data after_poll ◌>>=◌ world update now
  send_data_whole d s w free answer =
      rw (poll_whole d (record w { clock = λ n. w.clock (suc n) }) free answer) refl

  send_blocks-packets :
      (rounds i : ℕ) (s : SendFile bits) (w : World)
      → IsSource s
      → i + rounds ≤ s.num_blocks
      → w.locked ≡ false
      → ((k : ℕ) → k < rounds → w.send_results k ≡ wrote (length (block_packet s.file_map (i + k))))
      → ((send_blocks rounds i (s, w)).0 ≡ ok tt)
        × ((send_blocks rounds i (s, w)).1.1.outbox
            ≡ w.outbox ++ packets s.file_map s.host_addr rounds i)
  unfolding send_blocks packets pure ◌>>=◌ self lift send_block
  send_blocks-packets zero i s w v inside free answers = (refl, sym (append-nil w.outbox))
  send_blocks-packets (suc rounds) i s w v inside free answers =
      let first : w.send_results 0 ≡ expected i =
        answers 0 (omega arith) ∙ ap expected (omega arith) in
      let d = unsent (block_packet s.file_map i) i s.host_addr in
      let rest =
        send_blocks-packets rounds (i + 1)
          (record s { send_times = insert_time i (w.clock 0) s.send_times })
          (sent d.raw_header d.host_addr (record w { clock = λ n. w.clock (suc n) }))
          (record { is_len = v.is_len; is_count = v.is_count }) (omega arith) refl
          (λ k lt. answers (suc k) (omega arith) ∙ ap expected (omega arith)) in
      rw
        (
          get_block_n-chunk s i v,
          lt→ltb i s.num_blocks (omega arith),
          send_data_whole d s w free first,
        )
        (rest.0, rest.1 ∙ append_assoc w.outbox _ _)
    where
      expected : ℕ → Sent
      expected k = wrote (length (block_packet s.file_map k))

  -- For a sender whose file_len and num_blocks are those of its file, with a window inside the
  -- file, the lock free, and each send answered with the length of its packet, send_window returns
  -- without an error and transmits to the host the packets of the blocks of the window, each once
  -- and in order, after what was sent before.
  pub send_window-packets :
      (s : SendFile bits) (w : World)
      → IsSource s
      → s.window_range.0 ≤ s.window_range.1
      → s.window_range.1 ≤ s.num_blocks
      → w.locked ≡ false
      → ((k : ℕ)
          → k < s.window_range.1 - s.window_range.0
          → w.send_results k ≡ wrote (length (block_packet s.file_map (s.window_range.0 + k))))
      → ((send_window (s, w)).0 ≡ ok tt)
        × ((send_window (s, w)).1.1.outbox
            ≡ w.outbox
              ++ packets s.file_map s.host_addr
                  (s.window_range.1 - s.window_range.0)
                  s.window_range.0)
  unfolding send_window ◌>>=◌ self
  send_window-packets s w v ordered inside free answers =
      send_blocks-packets _ _ s w v (omega arith) free answers
