-- ===== src/Sender/Window/Resizing.antt =====
-- The window size that `SendFile::handle_ack` leaves.
use rust_tftp.BitSets.{BitSets}
use rust_tftp.Common.{
  ℕ, zero, suc, ◌+◌, ◌-◌, ◌≤◌, ◌≡◌, ◌≢◌, refl, ap, ◌∙◌, arith, Bool, Bool-cases, ◌⊎◌, inl, inr,
  Option, none, some, List, ltb, ne→==, min, ◌==◌, if◌then◌else◌,
}
use rust_tftp.Common.Outcome.{ok}
use rust_tftp.Common.Slices.{Bytes}
use rust_tftp.Common.State.{◌>>=◌, ◌>>◌, pure}
use rust_tftp.Common.State.Keeps.{Keeps, Keeps-bind, Keeps-ignore, keeps_rules}
use rust_tftp.Header.Types.{AckHeader}
use rust_tftp.Net.{SocketAddr, World}
use rust_tftp.Net.Reading.{Still, now-Still, set_read_timeout-Still}
use rust_tftp.Sender.Blocks.{max_window_size, SendFile}
use rust_tftp.Sender.Window.{
  acknowledge, advance, adjust, handle_ack, move_back, resize, resized, send_blocks, send_window,
  forget_time, update_average_rtt, find_time,
}
use rust_tftp.Sender.Window.Pending.{acknowledge-Done}
use rust_tftp.Sender.Window.Sending.{Fixed, send_window-Fixed}
use rust_tftp.Transfer.Session.{ready, not_ready, world, self, update}
use rust_tftp.Transfer.Session.Keeping.{
  InWorld, Keeps-world, Keeps-self, Keeps-update, Keeps-with_lock,
}

resized-le :
    (number : ℕ) (range : ℕ × ℕ) (size : ℕ)
    → size ≤ max_window_size
    → resized number range size ≤ max_window_size
unfolding resized
resized-le number range size h = ground arith

resized-zero : (number : ℕ) (range : ℕ × ℕ) → resized number range 0 ≡ 0
unfolding resized
resized-zero number range = ground arith

module _ {bits : BitSets} where
  adjust-size :
      (number : ℕ) (b : Bool) (s : SendFile bits)
      → ((adjust number b s).window_size ≡ s.window_size)
        ⊎ ((adjust number b s).window_size ≡ resized number s.window_range s.window_size)
  unfolding adjust move_back resize
  adjust-size number b s = elim (Bool-cases (ltb number s.window_range.0)) [
    | inl low ↦ rw (low) (inl refl)
    | inr high ↦
        rw (high) (elim (Bool-cases b) [ inl e ↦ rw (e) (inl refl) | inr e ↦ rw (e) (inr refl) ])
  ]

  adjust_empty :
      (number : ℕ) (b : Bool) (s : SendFile bits)
      → s.window_size ≡ 0
      → (adjust number b s).window_size ≡ 0
  adjust_empty number b s empty = elim (adjust-size number b s) [
    | inl same ↦ same ∙ empty
    | inr new ↦
        new
        ∙ ap (λ (k : ℕ). resized number s.window_range k) empty
        ∙ resized-zero number s.window_range
  ]

  adjust-num_blocks :
      (number : ℕ) (b : Bool) (s : SendFile bits) → (adjust number b s).num_blocks ≡ s.num_blocks
  unfolding adjust move_back resize
  adjust-num_blocks number b s = elim (Bool-cases (ltb number s.window_range.0)) [
    | inl low ↦ rw (low) refl
    | inr high ↦ rw (high) (elim (Bool-cases b) [ inl e ↦ rw (e) refl | inr e ↦ rw (e) refl ])
  ]

  advance-size :
      (number : ℕ) (s : SendFile bits) (w : World)
      → (advance number (s, w)).1.0.window_size ≡ s.window_size
  unfolding advance ◌>>=◌ update self
  advance-size number s w =
      ap (λ c. c.3)
        ((advance_end (number + 1 == s.num_blocks)).at (_, w) (record { is_core = refl })).is_core
    where
      advance_end :
          {c : bits.BitSet × (ℕ × ℕ) × ℕ × ℕ} (b : Bool)
          → Keeps (Fixed bits c) (if b then pure (ready tt) else send_window >> pure not_ready)
      advance_end b = search (keeps_rules, send_window-Fixed)

  handle_ack-size :
      (ack : AckHeader) (s : SendFile bits) (w : World)
      → (handle_ack ack (s, w)).1.0.window_size
        ≡ (adjust ack.block_number w.stop_and_wait s).window_size
  unfolding handle_ack ◌>>=◌ update world self
  handle_ack-size ack s w =
      let number = ack.block_number in
      let a = adjust number w.stop_and_wait s in
      let d = acknowledge-Done (number + 1 - a.window_range.0) a.window_range.0 number a w in
      rw (d.result) (advance-size number d.object d.after ∙ d.good.same_size)

  -- Where the window size is at most MAX_WINDOW_SIZE, the window size that handle_ack leaves is
  -- too, however it ends.
  pub handle_ack-le-max_window_size :
      (ack : AckHeader) (s : SendFile bits) (w : World)
      → s.window_size ≤ max_window_size
      → (handle_ack ack (s, w)).1.0.window_size ≤ max_window_size
  handle_ack-le-max_window_size ack s w h = elim (adjust-size ack.block_number w.stop_and_wait s) [
    | inl same ↦ omega (arith, handle_ack-size ack s w)
    | inr new ↦
        omega (
          arith,
          handle_ack-size ack s w,
          resized-le ack.block_number s.window_range s.window_size h,
        )
  ]

  advance_stalled :
      (number : ℕ) (s : SendFile bits) (w : World)
      → s.window_size ≡ 0
      → number + 1 ≢ s.num_blocks
      → ((advance number (s, w)).0 ≡ ok not_ready) × ((advance number (s, w)).1.1.outbox ≡ w.outbox)
  unfolding advance ◌>>=◌ update self send_window send_blocks pure
  advance_stalled number s w empty inside =
      let no_rounds : min (number + 1 + s.window_size) s.num_blocks - (number + 1) ≡ 0 =
        omega arith in
      rw (ne→== (number + 1) s.num_blocks inside, no_rounds) (refl, refl)

module _ {bits : BitSets} {b : Bool} {out : List (Bytes × SocketAddr)} where
  update_average_rtt-Still :
      (rtt : ℕ) → Keeps (InWorld (Still b out)) (update_average_rtt {bits = bits} rtt)
  unfolding update_average_rtt
  update_average_rtt-Still rtt = Keeps-bind (Keeps-update _) λ _. Keeps-bind Keeps-self λ s.
      Keeps-with_lock tt
        λ out. Keeps-ignore (Keeps-world (set_read_timeout-Still (some s.average_rtt)))

  forget_time-Still :
      (o : Option ℕ) (number : ℕ)
      → Keeps (InWorld (Still b out)) (forget_time {bits = bits} o number)
  unfolding forget_time
  forget_time-Still none number = search keeps_rules
  forget_time-Still (some t) number =
      Keeps-bind (Keeps-update _)
        λ _. Keeps-bind (Keeps-world now-Still) λ u. update_average_rtt-Still (u - t)

  acknowledge-Still :
      (rounds i number : ℕ)
      → Keeps (InWorld (Still b out)) (acknowledge {bits = bits} rounds i number)
  unfolding acknowledge
  acknowledge-Still zero i number = search keeps_rules
  acknowledge-Still (suc rounds) i number = Keeps-bind (Keeps-update _) λ _.
      Keeps-bind Keeps-self λ s.
        Keeps-bind (forget_time-Still (find_time number s.send_times) number)
          λ _. acknowledge-Still rounds (i + 1) number

module _ {bits : BitSets} where
  -- Where the window size is 0 and the acknowledgement is not of the last block, handle_ack
  -- returns that the transfer goes on, sends nothing, and leaves the window size at 0.
  pub handle_ack_stalled :
      (ack : AckHeader) (s : SendFile bits) (w : World)
      → s.window_size ≡ 0
      → ack.block_number + 1 ≢ s.num_blocks
      → ((handle_ack ack (s, w)).0 ≡ ok not_ready)
        × ((handle_ack ack (s, w)).1.1.outbox ≡ w.outbox)
        × ((handle_ack ack (s, w)).1.0.window_size ≡ 0)
  unfolding handle_ack ◌>>=◌ update world self
  handle_ack_stalled ack s w empty inside =
      let number = ack.block_number in
      let a = adjust number w.stop_and_wait s in
      let none_left = adjust_empty number w.stop_and_wait s empty in
      let rounds = number + 1 - a.window_range.0 in
      let d = acknowledge-Done rounds a.window_range.0 number a w in
      let sent =
        (acknowledge-Still rounds a.window_range.0 number).at (a, w)
          (record { held = record { is_locked = refl; is_sent = refl } }) in
      let quiet : d.after.outbox ≡ w.outbox = rw (d.result) at sent.held.is_sent in
      let end =
        advance_stalled number d.object d.after (d.good.same_size ∙ none_left)
          (λ e. inside (e ∙ d.good.same_count ∙ adjust-num_blocks number w.stop_and_wait s)) in
      rw (d.result)
        (end.0, end.1 ∙ quiet, advance-size number d.object d.after ∙ d.good.same_size ∙ none_left)
