-- ===== src/Receiver/Drive/Completion.antt =====
-- When `ReceiveFile::poll` returns that the transfer is complete.
use rust_tftp.BitSets.{BitSets}
use rust_tftp.Common.{
  ℕ, zero, suc, ◌+◌, ◌≤◌, ◌<◌, ◌≡◌, refl, sym, ◌∙◌, arith, Bool, true, false, le→leb, none, some,
  inl, inr, List, [], ◌∷◌, ◌++◌, replicate, Option-cases,
}
use mathlib.Core.List.{append-nil, append_assoc}
use rust_tftp.Common.Outcome.{Outcome, ok}
use rust_tftp.Common.Slices.{Bytes}
use rust_tftp.Common.State.{◌>>=◌, pure, lift, ignore}
use rust_tftp.Errors.{IoError}
use rust_tftp.Net.{SocketAddr, World, wrote}
use rust_tftp.Receiver.Data.Acks.{ack_packet, acked, send_ack_free}
use rust_tftp.Receiver.Drive.{
  contains_all, unwrap, advance_from, first_consec, catch_up, send_acks, complete, poll,
}
use rust_tftp.Receiver.Drive.Advance.{Reaches, advance_consec_lem}
use rust_tftp.Receiver.Storage.{ReceiveFile}
use rust_tftp.Transfer.Session.{ready, self, update}

contains_all_lem :
    (bits : BitSets) (received : bits.BitSet) (rounds i : ℕ)
    → ((j : ℕ) → i ≤ j → j < i + rounds → bits.contains received j ≡ true)
    → contains_all bits received rounds i ≡ true
unfolding contains_all
contains_all_lem bits received zero i has = refl
contains_all_lem bits received (suc rounds) i has = rw (has i (omega arith) (omega arith)) (
    contains_all_lem bits received rounds (i + 1)
      λ j past inside. has j (omega arith) (omega arith))

-- The lock is free, and each send is answered by the length of an acknowledgement.
pub record AcksSend (w : World) : Type 0 where
  pub free : w.locked ≡ false
  pub whole : (k : ℕ) → w.send_results k ≡ wrote 4

acked-AcksSend : (n : ℕ) (to : SocketAddr) (w : World) → AcksSend w → AcksSend (acked n to w)
acked-AcksSend n to w a = record { free = refl; whole = λ k. a.whole (suc k) }

abbrev acked_times : ℕ → ℕ → SocketAddr → World → World
acked_times zero n to w = w
acked_times (suc rounds) n to w = acked_times rounds n to (acked n to w)

outbox-acked_times :
    (rounds n : ℕ) (to : SocketAddr) (w : World)
    → (acked_times rounds n to w).outbox ≡ w.outbox ++ replicate rounds (ack_packet n, to)
outbox-acked_times zero n to w = sym (append-nil w.outbox)
outbox-acked_times (suc rounds) n to w =
    outbox-acked_times rounds n to (acked n to w)
    ∙ append_assoc w.outbox ((ack_packet n, to) ∷ []) (replicate rounds (ack_packet n, to))

module _ {bits : BitSets} (debug : Bool) where
  send_acks_lem :
      (rounds n : ℕ) (s : ReceiveFile bits) (w : World)
      → AcksSend w
      → send_acks debug rounds n (s, w) ≡ (ok tt, (s, acked_times rounds n s.host_addr w))
  unfolding send_acks ◌>>=◌ pure
  send_acks_lem zero n s w a = refl
  send_acks_lem (suc rounds) n s w a =
      rw (send_ack_free debug n s w a.free (a.whole 0))
        (send_acks_lem rounds n s (acked n s.host_addr w) (acked-AcksSend n s.host_addr w a))

  -- What `catch_up` leaves.
  pub data CaughtUp (s : ReceiveFile bits) (w : World)
      (r : Outcome IoError (Unit {0}) × (ReceiveFile bits × World)) : Type 0 where
    nothing :
        first_consec s s.consec_recv ≡ none
        → r ≡ (ok tt, (record s { consec_recv = none }, w))
        → CaughtUp s w r
    advanced :
        (from to : ℕ)
        → first_consec s s.consec_recv ≡ some from
        → Reaches bits s.received from to
        → r ≡ (ok tt, (record s { consec_recv = some to }, acked to s.host_addr w))
        → CaughtUp s w r

  pub catch_up_lem :
      (s : ReceiveFile bits) (w : World) → AcksSend w → CaughtUp s w (catch_up debug (s, w))
  unfolding catch_up advance_from ◌>>=◌ update self lift ignore pure
  catch_up_lem s w a = elim (Option-cases (first_consec s s.consec_recv)) [
    | inl e ↦ rw e (nothing e refl)
    | inr (c, e) ↦
        let (r, reached, reaches) =
          advance_consec_lem bits s.received {E = IoError} (bits.limit s.received) c
            (omega arith) in
        rw
          (
            e,
            reached,
            le→leb c r reaches.not_back,
            send_ack_free debug r (record s { consec_recv = some r }) w a.free (a.whole 0),
          )
          (advanced c r e reaches refl)
  ]

  complete_lem :
      (h : ℕ) (s : ReceiveFile bits) (w : World)
      → AcksSend w
      → s.received_last_block ≡ true
      → s.highest_block ≡ some h
      → ((j : ℕ) → j < h → bits.contains s.received j ≡ true)
      → complete debug (s, w) ≡ (ok true, (s, acked_times 4 h s.host_addr w))
  unfolding complete ◌>>=◌ self lift unwrap pure
  complete_lem h s w a last highest has = simp (
    last,
    highest,
    contains_all_lem bits s.received h 0 (λ j past inside. has j (omega arith)),
    send_acks_lem 4 h s w a,
  )

  -- Where the last block was seen, highest_block is set and all blocks below it are received, the
  -- lock is free and each send is answered with the length of an acknowledgement, poll returns
  -- that the transfer is complete, leaves the file alone, and the last four packets it sends are
  -- acknowledgements of the field highest_block to the host.
  pub poll_complete :
      (rounds h : ℕ) (s : ReceiveFile bits) (w : World)
      → AcksSend w
      → s.received_last_block ≡ true
      → s.highest_block ≡ some h
      → ((j : ℕ) → j < h → bits.contains s.received j ≡ true)
      → let (o, (t, v)) = poll debug rounds (s, w) in
        (o ≡ ok (ready tt))
        × (t.file ≡ s.file)
        × (before : List (Bytes × SocketAddr)) × (v.outbox
            ≡ before ++ replicate 4 (ack_packet h, s.host_addr))
  unfolding poll ◌>>=◌ pure
  poll_complete rounds h s w a last highest has = elim (catch_up_lem s w a) [
    | nothing e r ↦
        rw (r, complete_lem h (record s { consec_recv = none }) w a last highest has)
          (refl, refl, w.outbox, outbox-acked_times 4 h s.host_addr w)
    | advanced c to e reaches r ↦
        rw
          (
            r,
            complete_lem h (record s { consec_recv = some to }) (acked to s.host_addr w)
                (acked-AcksSend to s.host_addr w a) last highest has,
          )
          (
            refl,
            refl,
            (acked to s.host_addr w).outbox,
            outbox-acked_times 4 h s.host_addr (acked to s.host_addr w),
          )
  ]
