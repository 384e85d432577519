-- ===== src/Sender/Window/Pending.antt =====
-- The blocks that still wait for an acknowledgement, and the end of a transfer.
use rust_tftp.BitSets.{BitSets}
use rust_tftp.Common.{
  ℕ, zero, suc, ◌+◌, ◌≡◌, refl, ap, ◌∙◌, arith, Bool, true, false, ◌&&◌, Option, none, some, inl,
  inr, leb, ltb, ◌==◌, if◌then◌else◌, Bool-cases,
}
use rust_tftp.Common.Outcome.{Outcome, ok}
use rust_tftp.Common.State.{◌>>=◌, pure, ignore}
use rust_tftp.Errors.{IoError}
use rust_tftp.Net.{World, now, set_read_timeout}
use rust_tftp.Sender.Blocks.{SendFile}
use rust_tftp.Sender.Window.{update_average_rtt, forget_time, acknowledge, find_time}
use rust_tftp.Transfer.Session.{world, self, update, with_lock_held, with_lock_free, unlock}

less :
    (i j rounds : ℕ) (x y z : Bool)
    → x ≡ (if leb (i + 1) j && ltb j (i + 1 + rounds) then false else y)
    → y ≡ (if i == j then false else z)
    → x ≡ (if leb i j && ltb j (i + suc rounds) then false else z)
less i j rounds x y z e f = ground arith

module _ {bits : BitSets} where
  open bits use {contains, contains-insert, contains-remove}

  -- The part of a sender that says which blocks are acknowledged.
  abbrev pub core : SendFile bits → bits.BitSet × (ℕ × ℕ) × ℕ × ℕ
  core s = (s.blocks_pending_acks, s.window_range, s.num_blocks, s.window_size)

  abbrev SameCore : SendFile bits → SendFile bits → Type 0
  SameCore s t = core t ≡ core s

  -- A run that ended without an error, in a sender with `Q`.
  pub record Done (r : Outcome IoError (Unit {0}) × (SendFile bits × World))
      (Q : SendFile bits → Type 0) : Type 0 where
    pub object : SendFile bits
    pub after : World
    pub result : r ≡ (ok tt, (object, after))
    pub good : Q object

  set_timeout-Done :
      (t : ℕ) (s : SendFile bits) (w : World)
      → Done (unlock (ignore {F = IoError} (world (set_read_timeout (some t))) (s, w))) (SameCore s)
  unfolding ignore world set_read_timeout
  set_timeout-Done zero s w = record { object = s; after = _; result = refl; good = refl }
  set_timeout-Done (suc t) s w = record { object = s; after = _; result = refl; good = refl }

  update_average_rtt-Done :
      (rtt : ℕ) (s : SendFile bits) (w : World) → Done (update_average_rtt rtt (s, w)) (SameCore s)
  unfolding update_average_rtt ◌>>=◌ update self
  update_average_rtt-Done rtt s w = elim (Bool-cases w.locked) [
    | inl held ↦ record { object = _; after = w; result = with_lock_held _ _ _ w held; good = refl }
    | inr free ↦
        rw (with_lock_free (ignore {F = IoError} (world (set_read_timeout _))) (pure tt) _ w free)
          (set_timeout-Done _ _ (record w { locked = true }))
  ]

  forget_time-Done :
      (o : Option ℕ) (number : ℕ) (s : SendFile bits) (w : World)
      → Done (forget_time o number (s, w)) (SameCore s)
  unfolding forget_time ◌>>=◌ update world now
  forget_time-Done none number s w = record { object = s; after = w; result = refl; good = refl }
  forget_time-Done (some instant) number s w = update_average_rtt-Done _ _ _

  -- The pending set of `t` is that of `s` without `i`, …, `i + rounds - 1`.
  pub record Removed (s : SendFile bits) (rounds i : ℕ) (t : SendFile bits) : Type 0 where
    pub same_range : t.window_range ≡ s.window_range
    pub same_count : t.num_blocks ≡ s.num_blocks
    pub same_size : t.window_size ≡ s.window_size
    pub pending_less :
        (j : ℕ)
        → contains t.blocks_pending_acks j
          ≡ (if leb i j && ltb j (i + rounds) then false else contains s.blocks_pending_acks j)

  pub acknowledge-Done :
      (rounds i number : ℕ) (s : SendFile bits) (w : World)
      → Done (acknowledge rounds i number (s, w)) (Removed s rounds i)
  unfolding acknowledge ◌>>=◌ update self
  acknowledge-Done zero i number s w = record {
    object = s;
    after = w;
    result = refl;
    good = record {
      same_range = refl;
      same_count = refl;
      same_size = refl;
      pending_less = λ j. ground arith;
    };
  }
  acknowledge-Done (suc rounds) i number s w =
      let s1 : SendFile bits = record s {
        blocks_pending_acks = bits.remove s.blocks_pending_acks i;
      } in
      let d = forget_time-Done (find_time number s.send_times) number s1 w in
      let e = acknowledge-Done rounds (i + 1) number d.object d.after in
      record {
        object = e.object;
        after = e.after;
        result = rw d.result e.result;
        good = record {
          same_range = e.good.same_range ∙ ap (λ c. c.1) d.good;
          same_count = e.good.same_count ∙ ap (λ c. c.2) d.good;
          same_size = e.good.same_size ∙ ap (λ c. c.3) d.good;
          pending_less = λ j.
              less i j rounds _ _ _ (e.good.pending_less j)
                (ap (λ c. contains c.0 j) d.good ∙ contains-remove s.blocks_pending_acks i j);
        };
      }
