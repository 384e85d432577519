-- ===== src/Transfer/SendError/Retry.antt =====
-- How often `SendError` is polled.
use rust_tftp.Common.{
  ℕ, zero, suc, ◌+◌, ◌≤◌, ◌<◌, ◌≡◌, ◌≢◌, refl, arith, false, inl, inr, length, ltb, ◌==◌,
  Bool-cases, ltb-false→le,
}
use rust_tftp.Common.Outcome.{Outcome, ok, err, hang}
use rust_tftp.Common.State.{◌>>=◌, pure, lift, attempt}
use rust_tftp.Errors.{IoError}
use rust_tftp.Net.{World, Sent, wrote, refused, send_to, answer_send}
use rust_tftp.Transfer.SendError.{SendError, after_send, poll, send_loop}
use rust_tftp.Transfer.Session.{
  Async, ready, not_ready, max_attempts, world, self, update, with_lock_free,
}

-- What a poll leaves, where the lock is free: the loop ends, or one more attempt was counted.
data Polled (s : SendError) (w : World)
    (r : Outcome IoError (Async (Unit {0})) × (SendError × World)) : Type 0 where
  finished : (sw : SendError × World) → r ≡ (ok (ready tt), sw) → Polled s w r
  failed : (e : IoError) (sw : SendError × World) → r ≡ (err e, sw) → Polled s w r
  again :
      (v : World)
      → s.send_attempts < max_attempts
      → v.locked ≡ false
      → r ≡ (ok not_ready, (record s { send_attempts = s.send_attempts + 1 }, v))
      → Polled s w r

poll-Polled :
    (s : SendError) (w : World) (a : Sent)
    → w.locked ≡ false
    → w.send_results 0 ≡ a
    → Polled s w (poll (s, w))
unfolding poll after_send ◌>>=◌ pure self world update send_to answer_send
poll-Polled s w (wrote n) free answer = elim (Bool-cases (n == length s.raw_header)) [
  | inl whole ↦ rw (with_lock_free _ _ s w free, answer, whole) (finished _ refl)
  | inr part ↦ rw (with_lock_free _ _ s w free, answer, part) (failed _ _ refl)
]
poll-Polled s w (refused e) free answer =
    elim (Bool-cases (ltb max_attempts (s.send_attempts + 1))) [
      | inl many ↦ rw (with_lock_free _ _ s w free, answer, many) (failed _ _ refl)
      | inr few ↦
          rw (with_lock_free _ _ s w free, answer, few)
            (again _ (omega (arith, ltb-false→le _ _ few)) refl refl)
    ]

-- The loop that sends an error packet returns or panics within as many polls as there are attempts
-- left of MAX_ATTEMPTS + 1, whatever the system answers to the sends, where the lock is free and
-- at most MAX_ATTEMPTS attempts were made before.
pub send_loop_ends :
    (fuel : ℕ) (s : SendError) (w : World)
    → w.locked ≡ false
    → max_attempts < s.send_attempts + fuel
    → s.send_attempts ≤ max_attempts
    → (send_loop fuel (s, w)).0 ≢ hang
unfolding send_loop ◌>>=◌ attempt pure lift
send_loop_ends zero s w free enough few = absurd (omega arith)
send_loop_ends (suc fuel) s w free enough few =
    elim (poll-Polled s w (w.send_results 0) free refl) [
      | finished sw e ↦ rw e (ground arith)
      | failed x sw e ↦ rw e (ground arith)
      | again v more unlocked e ↦
          rw e (send_loop_ends fuel _ v unlocked (omega arith) (omega arith))
    ]
