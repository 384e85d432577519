-- ===== src/Sender/Window/Tracking.antt =====
-- `SendFile::handle_ack`: the pending set is what lies between the window and the end of the file.
use rust_tftp.BitSets.{BitSets}
use rust_tftp.Common.{
  ℕ, zero, suc, ◌+◌, ◌-◌, ◌≤◌, ◌<◌, ◌≡◌, refl, sym, ap, ◌∙◌, arith, Bool, true, false, ◌&&◌, leb,
  ltb, ◌==◌, if◌then◌else◌, eq→==, Bool-cases, inl, inr, ltb→lt, ltb-false→le, min,
}
use rust_tftp.Common.Outcome.{ok}
use rust_tftp.Common.State.{◌>>=◌, ◌>>◌, pure}
use rust_tftp.Common.State.Keeps.{Keeps, keeps_rules}
use rust_tftp.Header.Types.{AckHeader}
use rust_tftp.Net.{World}
use rust_tftp.Sender.Blocks.{SendFile}
use rust_tftp.Sender.Window.{
  advance, adjust, handle_ack, insert_from, move_back, resize, send_window,
}
use rust_tftp.Sender.Window.Pending.{core, Removed, acknowledge-Done}
use rust_tftp.Sender.Window.Sending.{Fixed, send_window-Fixed}
use rust_tftp.Transfer.Session.{ready, not_ready, world, self, update}

-- The pending blocks are those from the lower end of the window to the end of the file.
pub record IsTracking {bits : BitSets} (s : SendFile bits) : Type 0 where
  pub in_file : s.window_range.0 ≤ s.num_blocks
  pub is_pending :
      (j : ℕ)
      → bits.contains s.blocks_pending_acks j ≡ (leb s.window_range.0 j && ltb j s.num_blocks)

if_eta : (b : Bool) {x : Bool} → (if b then x else x) ≡ x
if_eta true = refl
if_eta false = refl

inserted :
    (i j rounds : ℕ) (x y z : Bool)
    → x ≡ (if leb (i + 1) j && ltb j (i + 1 + rounds) then true else y)
    → y ≡ (if i == j then true else z)
    → x ≡ (if leb i j && ltb j (i + suc rounds) then true else z)
inserted i j rounds x y z e f = ground arith

contains-insert_from :
    (bits : BitSets) (rounds i : ℕ) (set : bits.BitSet) (j : ℕ)
    → bits.contains (insert_from bits rounds i set) j
      ≡ (if leb i j && ltb j (i + rounds) then true else bits.contains set j)
unfolding insert_from
contains-insert_from bits zero i set j = ground arith
contains-insert_from bits (suc rounds) i set j =
    inserted i j rounds _ _ _ (contains-insert_from bits rounds (i + 1) (bits.insert set i) j)
      (bits.contains-insert set i j)

filled_in :
    (low lo n j : ℕ) (x y : Bool)
    → low ≤ lo
    → lo ≤ n
    → x ≡ (if leb low j && ltb j (low + (lo - low)) then true else y)
    → y ≡ (leb lo j && ltb j n)
    → x ≡ (leb low j && ltb j n)
filled_in low lo n j x y below in_file e f = ground arith

removed :
    (lo number n j : ℕ) (x y : Bool)
    → lo ≤ number + 1
    → x ≡ (if leb lo j && ltb j (lo + (number + 1 - lo)) then false else y)
    → y ≡ (leb lo j && ltb j n)
    → x ≡ (leb (number + 1) j && ltb j n)
removed lo number n j x y le e f = ground arith

none_left :
    (number n j : ℕ) (x : Bool) → number + 1 ≡ n → x ≡ (leb (number + 1) j && ltb j n) → x ≡ false
none_left number n j x e f = ground arith

module _ {bits : BitSets} where
  open bits use {contains}

  move_back-IsTracking :
      (number : ℕ) (s : SendFile bits)
      → IsTracking s
      → number < s.window_range.0
      → IsTracking (move_back number s)
  unfolding move_back
  move_back-IsTracking number s v below = record {
    in_file = omega (arith, v.in_file);
    is_pending = λ j.
        filled_in (number + 1) s.window_range.0 s.num_blocks j _ _ (omega arith) v.in_file
          (contains-insert_from bits (s.window_range.0 - (number + 1)) (number + 1)
            s.blocks_pending_acks j)
          (v.is_pending j);
  }

  resize-IsTracking :
      (b : Bool) (number : ℕ) (s : SendFile bits) → IsTracking s → IsTracking (resize b number s)
  unfolding resize
  resize-IsTracking true number s v = v
  resize-IsTracking false number s v = record { in_file = v.in_file; is_pending = v.is_pending }

  record Adjusted (number : ℕ) (s t : SendFile bits) : Type 0 where
    is_tracking : IsTracking t
    is_below : t.window_range.0 ≤ number + 1
    same_count : t.num_blocks ≡ s.num_blocks

  resize-same :
      (b : Bool) (number : ℕ) (s : SendFile bits)
      → ((resize b number s).window_range.0 ≡ s.window_range.0)
        × ((resize b number s).num_blocks ≡ s.num_blocks)
  unfolding resize
  resize-same true number s = (refl, refl)
  resize-same false number s = (refl, refl)

  adjust-Adjusted :
      (number : ℕ) (b : Bool) (s : SendFile bits)
      → IsTracking s
      → Adjusted number s (adjust number b s)
  unfolding adjust move_back
  adjust-Adjusted number b s v = elim (Bool-cases (ltb number s.window_range.0)) [
    | inl below ↦ rw (below) (record {
      is_tracking = move_back-IsTracking number s v (ltb→lt number s.window_range.0 below);
      is_below = omega arith;
      same_count = refl;
    })
    | inr above ↦ rw (above) (record {
      is_tracking = resize-IsTracking b number s v;
      is_below =
          omega (arith, (resize-same b number s).0, ltb-false→le number s.window_range.0 above);
      same_count = (resize-same b number s).1;
    })
  ]

  IsTracking-core :
      (s t : SendFile bits)
      → IsTracking s
      → core t ≡ core s
      → IsTracking t × (t.window_range.0 ≡ s.window_range.0)
  IsTracking-core s t v e = (
    record {
      in_file = omega (arith, v.in_file, ap (λ c. c.1.0) e, ap (λ c. c.2) e);
      is_pending = λ j.
          ap (λ c. contains c.0 j) e ∙ v.is_pending j ∙ sym (ap (λ c. leb c.1.0 j && ltb j c.2) e);
    },
    ap (λ c. c.1.0) e,
  )

  advance-IsTracking :
      (number : ℕ) (s : SendFile bits) (w : World)
      → number < s.num_blocks
      → ((j : ℕ) → contains s.blocks_pending_acks j ≡ (leb (number + 1) j && ltb j s.num_blocks))
      → IsTracking (advance number (s, w)).1.0
        × ((advance number (s, w)).1.0.window_range.0 ≡ number + 1)
  unfolding advance ◌>>=◌ update self
  advance-IsTracking number s w inside pending =
      IsTracking-core s1 _ tracking
        ((advance_end (number + 1 == s.num_blocks)).at (s1, w) (record { is_core = refl })).is_core
    where
      s1 : SendFile bits
      s1 = record s { window_range = (number + 1, min (number + 1 + s.window_size) s.num_blocks) }

      tracking : IsTracking s1
      tracking = record { in_file = omega arith; is_pending = pending }

      advance_end :
          {c : bits.BitSet × (ℕ × ℕ) × ℕ × ℕ} (b : Bool)
          → Keeps (Fixed bits c) (if b then pure (ready tt) else send_window >> pure not_ready)
      advance_end b = search (keeps_rules, send_window-Fixed)

  acknowledged :
      (number : ℕ) (s a t : SendFile bits)
      → Adjusted number s a
      → Removed a (number + 1 - a.window_range.0) a.window_range.0 t
      → (j : ℕ) → contains t.blocks_pending_acks j ≡ (leb (number + 1) j && ltb j t.num_blocks)
  acknowledged number s a t adj rem j = rw (rem.same_count) (
      removed a.window_range.0 number a.num_blocks j _ _ adj.is_below (rem.pending_less j)
        (adj.is_tracking.is_pending j))

  -- Where the pending set is the blocks from the lower end of the window to the end of the file,
  -- and the acknowledged block is one of the file, below, in or past the window, the state that
  -- handle_ack leaves has such a pending set too, with the window from the block after the
  -- acknowledged one; this holds however handle_ack ends.
  pub handle_ack-IsTracking :
      (ack : AckHeader) (s : SendFile bits) (w : World)
      → IsTracking s
      → ack.block_number < s.num_blocks
      → IsTracking (handle_ack ack (s, w)).1.0
        × ((handle_ack ack (s, w)).1.0.window_range.0 ≡ ack.block_number + 1)
  unfolding handle_ack ◌>>=◌ update world self
  handle_ack-IsTracking ack s w v inside =
      let number = ack.block_number in
      let a = adjust number w.stop_and_wait s in
      let adj = adjust-Adjusted number w.stop_and_wait s v in
      let d = acknowledge-Done (number + 1 - a.window_range.0) a.window_range.0 number a w in
      rw (d.result) (
        advance-IsTracking number d.object d.after
          (omega (arith, adj.same_count, d.good.same_count))
          (acknowledged number s a d.object adj d.good))

  -- Where the pending set is the blocks from the lower end of the window to the end of the file,
  -- an acknowledgement of the last block makes handle_ack return that the transfer is complete,
  -- with no block pending.
  pub handle_ack_last :
      (ack : AckHeader) (s : SendFile bits) (w : World)
      → IsTracking s
      → ack.block_number + 1 ≡ s.num_blocks
      → ((handle_ack ack (s, w)).0 ≡ ok (ready tt))
        × (bits.is_empty (handle_ack ack (s, w)).1.0.blocks_pending_acks ≡ true)
  unfolding handle_ack ◌>>=◌ update world self advance
  handle_ack_last ack s w v last =
      let number = ack.block_number in
      let a = adjust number w.stop_and_wait s in
      let adj = adjust-Adjusted number w.stop_and_wait s v in
      let d = acknowledge-Done (number + 1 - a.window_range.0) a.window_range.0 number a w in
      let is_count : number + 1 ≡ d.object.num_blocks =
        omega (arith, adj.same_count, d.good.same_count) in
      rw (d.result, eq→== _ _ is_count)
        (
          refl,
          (bits.is_empty_iff d.object.blocks_pending_acks).1 λ j.
              none_left number d.object.num_blocks j _ is_count
                (acknowledged number s a d.object adj d.good j),
        )
