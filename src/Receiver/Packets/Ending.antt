-- ===== src/Receiver/Packets/Ending.antt =====
-- The reads of a receiver return.
use rust_tftp.BitSets.{BitSets}
use rust_tftp.Common.{
  ℕ, zero, suc, ◌<◌, ◌≡◌, refl, ◌∙◌, arith, Bool, Option, none, some, ◌⊎◌, inl, inr, List, [], ◌∷◌,
  length,
}
use rust_tftp.Common.Outcome.{Outcome, ok, err, panic, hang}
use rust_tftp.Common.Outcome.Ends.{Ends, Ends-ok, Ends-err, Ends-panic}
use rust_tftp.Common.State.{Run, next, caught, ◌>>=◌, ◌>>◌, pure, attempt}
use rust_tftp.Common.State.Any.{Any}
use rust_tftp.Common.State.Finishes.{
  Finishes, Finishes-pure, Finishes-fail, Finishes-bind, Finishes-then, Finishes-attempt,
  finishes_rules,
}
use rust_tftp.Errors.{IoError, TftpError, io_error}
use rust_tftp.Header.Types.{Header}
use rust_tftp.Net.{SocketAddr, World, recv, set_read_timeout}
use rust_tftp.Net.Ending.{Reads, recv-Reads}
use rust_tftp.Receiver.Packets.{
  drained, drain, update_average, drain_socket, after_recv, receive_header, try_error, after_try,
  fail_loop, give_up,
}
use rust_tftp.Receiver.Storage.{ReceiveFile}
use rust_tftp.Receiver.Packets.Room.{Room, room_rules, with_lock-Finishes}
use rust_tftp.Common.State.Keeps.{Keeps}
use rust_tftp.Transfer.Session.Keeping.{InWorld}
use rust_tftp.Transfer.Session.{Method, max_attempts, world, self, beside}
use rust_tftp.Transfer.Session.Ending.{ending_rules}

drained-Ends :
    (rest : Run World TftpError (List Header)) (t : ℕ) (w : World)
    (r : Outcome TftpError Header × World)
    → w.read_timeout ≡ some t
    → Reads w r
    → ((v : World) → v.read_timeout ≡ some t → length v.inbox < length w.inbox → Ends (rest v).0)
    → Ends (next (caught {F = TftpError} r) (drained rest)).0
unfolding drained pure
drained-Ends rest t w (ok h, v) timed reads k =
    let (fewer, same) = reads.shorter h refl in
    (Finishes-bind {P = λ x. x ≡ v} {m = rest} {f = λ headers. pure (h ∷ headers)}
        (record { at = λ x e. rw e (k v (same ∙ timed) fewer) })
        (λ headers. Finishes-pure (h ∷ headers))).at
      v refl
drained-Ends rest t w (err e, v) timed reads k = Ends-ok []
drained-Ends rest t w (panic, v) timed reads k = Ends-panic
drained-Ends rest t w (hang, v) timed reads k = absurd (reads.ends.at refl)

-- One round more than there are events is enough.
drain-Ends :
    (debug : Bool) (fuel : ℕ) (from : SocketAddr) (t : ℕ) (w : World)
    → w.read_timeout ≡ some t
    → length w.inbox < fuel
    → Ends (drain debug fuel from w).0
unfolding drain ◌>>=◌ attempt
drain-Ends debug zero from t w timed enough = absurd (omega arith)
drain-Ends debug (suc fuel) from t w timed enough =
    drained-Ends (drain debug fuel from) t w (recv debug from w) timed
      (recv-Reads debug from t w timed)
      λ v later fewer. drain-Ends debug fuel from t v later (omega arith)

-- A timeout, and fewer events than there are rounds.
record Ready (rounds timeout : ℕ) {S : Type 0} (x : S × World) : Type 0 where
  pub is_timeout : x.1.read_timeout ≡ some timeout
  pub has_room : length x.1.inbox < rounds

-- What follows a timeout that is set.
module _ {S A : Type 0} {rounds : ℕ} where
  timed-Finishes :
      (t : ℕ) {k : Method S IoError A}
      → ((u : ℕ) → Finishes (Ready rounds u) k)
      → Finishes (InWorld (Room rounds)) (world (set_read_timeout (some t)) >> k)
  unfolding ◌>>=◌ world set_read_timeout
  timed-Finishes zero k = record { at = λ x p. Ends-err _ }
  timed-Finishes (suc t) k = record {
    at = λ x p.
        (k (suc t)).at (x.0, record x.1 { read_timeout = some (suc t) })
          (record { is_timeout = refl; has_room = p.held.room });
  }

module _ {bits : BitSets} (debug : Bool) (rounds : ℕ) where
  update_average-Finishes : Finishes {S = ReceiveFile bits × World} Any update_average
  unfolding update_average
  update_average-Finishes = search (finishes_rules, ending_rules) depth 12

  update_average-Room : Keeps {S = ReceiveFile bits × World} (InWorld (Room rounds)) update_average
  unfolding update_average
  update_average-Room = search room_rules depth 12

  drain_socket-Finishes :
      (from : SocketAddr) (u : ℕ)
      → Finishes {S = ReceiveFile bits × World} (Ready rounds u) (drain_socket debug rounds from)
  unfolding drain_socket world
  drain_socket-Finishes from u = record {
    at = λ x p. drain-Ends debug rounds from u x.1 p.is_timeout p.has_room;
  }

  self_then :
      {A : Type 0} {P : ReceiveFile bits × World → Type 0}
      (f : ReceiveFile bits → Method (ReceiveFile bits) IoError A)
      → ((s : ReceiveFile bits) → Finishes P (f s))
      → Finishes P (self >>= f)
  unfolding self ◌>>=◌
  self_then f k = record { at = λ x p. (k x.0).at x p }

  after_recv-failed :
      (e : TftpError)
      → Finishes {S = ReceiveFile bits × World} Any (after_recv debug rounds (inl e))
  unfolding after_recv
  after_recv-failed (io_error e) = Finishes-fail e
  after_recv-failed _ = search finishes_rules

  after_recv-Finishes :
      (h : Header)
      → Finishes {S = ReceiveFile bits × World}
          (InWorld (Room rounds))
          (after_recv debug rounds (inr h))
  unfolding after_recv
  after_recv-Finishes h = Finishes-then update_average-Finishes update_average-Room λ _.
      timed-Finishes 250_000 λ u. self_then _ λ s.
        Finishes-bind (Finishes-attempt (drain_socket-Finishes s.host_addr u)) λ r. Finishes-pure _

  received-Ends :
      (s : ReceiveFile bits) (w : World) (r : Outcome TftpError Header × World)
      → Reads w r
      → length w.inbox < rounds
      → Ends (next (caught {F = IoError} (beside s r)) (after_recv debug rounds)).0
  received-Ends s w (ok h, v) reads room =
      let (fewer, same) = reads.shorter h refl in
      (after_recv-Finishes h).at (s, v) (record { held = record { room = omega arith } })
  received-Ends s w (err e, v) reads room = (after_recv-failed e).at (s, v) tt
  received-Ends s w (panic, v) reads room = Ends-panic
  received-Ends s w (hang, v) reads room = absurd (reads.ends.at refl)

  recv-Finishes :
      (from : SocketAddr) (u : ℕ)
      → Finishes {S = ReceiveFile bits × World}
          (Ready rounds u)
          (attempt (world (recv debug from)) >>= after_recv debug rounds)
  unfolding world attempt ◌>>=◌
  recv-Finishes from u = record {
    at = λ x p. received-Ends x.0 x.1 _ (recv-Reads debug from u x.1 p.is_timeout) p.has_room;
  }

  pub receive_header-Finishes :
      Finishes {S = ReceiveFile bits × World} (InWorld (Room rounds)) (receive_header debug rounds)
  unfolding receive_header
  receive_header-Finishes =
      with_lock-Finishes
        (self_then _ λ s. timed-Finishes s.packet_time λ u. recv-Finishes s.host_addr u)
        (Finishes-pure none)

module _ {bits : BitSets} (debug : Bool) where
  after_try-Finishes :
      {A : Type 0} (e : IoError) (rest : Method (ReceiveFile bits) IoError A)
      → Finishes Any rest
      → (r : IoError ⊎ Option (Unit {0})) → Finishes Any (after_try debug e rest r)
  unfolding after_try
  after_try-Finishes e rest k (inr (some x)) = Finishes-fail e
  after_try-Finishes e rest k (inr none) = k
  after_try-Finishes e rest k (inl x) = k

  try_error-Finishes : Finishes {S = ReceiveFile bits × World} Any (try_error debug)
  unfolding try_error
  try_error-Finishes = search (finishes_rules, ending_rules) depth 12

  fail_loop-Finishes :
      {A : Type 0} (rounds : ℕ) (e : IoError)
      → Finishes {S = ReceiveFile bits × World} Any (fail_loop debug {A = A} rounds e)
  unfolding fail_loop
  fail_loop-Finishes zero e = Finishes-fail e
  fail_loop-Finishes (suc rounds) e =
      Finishes-bind (Finishes-attempt try_error-Finishes)
        (after_try-Finishes e _ (fail_loop-Finishes rounds e))

  pub give_up-Finishes :
      {A : Type 0} (e : IoError)
      → Finishes {S = ReceiveFile bits × World} Any (give_up debug {A = A} e)
  unfolding give_up
  give_up-Finishes e = fail_loop-Finishes max_attempts e
