-- ===== src/Receiver/Drive/Consecutive.antt =====
-- `consec_recv` against the set of received blocks.
use rust_tftp.BitSets.{BitSets}
use rust_tftp.Common.{
  ℕ, zero, suc, ◌≤◌, ◌<◌, ◌≡◌, refl, ap, ◌∙◌, arith, Bool, true, false, leb, Option, none, some,
  ◌⊎◌, inl, inr, List, [], ◌∷◌, if◌then◌else◌,
}
use rust_tftp.Common.State.{◌>>=◌, pure, lift}
use rust_tftp.Common.State.Keeps.{
  Keeps, Keeps-if, Keeps-ignore, Keeps-pure, Keeps-bind, Keeps-attempt, Keeps-fail,
}
use rust_tftp.Errors.{IoError, TftpError, io_error}
use rust_tftp.Header.Types.{Header}
use rust_tftp.Net.{SocketAddr, World}
use rust_tftp.Receiver.Drive.{
  advance_from, first_consec, catch_up, send_acks, complete, after_data, handle_headers, ack_again,
  after_timeout, after_headers, await_data, poll,
}
use rust_tftp.Receiver.Drive.Advance.{advance_consec_lem}
use rust_tftp.Receiver.Packets.{
  drain, drain_socket, after_recv, receive_header, try_error, after_try, fail_loop, give_up,
}
use rust_tftp.Receiver.Storage.{ReceiveFile}
use rust_tftp.Transfer.Session.{ready, Method, max_attempts, self, update}
use rust_tftp.Transfer.Session.Objects.{InObject-world}
use rust_tftp.Receiver.Data.Consecutive.{
  IsConsecutive, Good, update-Good, good_rules, send_ack-Good, handle_data-Good,
  update_average-Good,
}

le-or-lt : (j c : ℕ) → (j ≤ c) ⊎ (c < j)
le-or-lt j c = ground arith

same_number : (r d : ℕ) → some r ≡ some d → r ≡ d
same_number r d e = cc

first_number : (b : Bool) (c : ℕ) → (if b then some 0 else none) ≡ some c → (b ≡ true) × (0 ≡ c)
first_number true c e = (refl, cc)
first_number false c e = cc

module _ {bits : BitSets} (debug : Bool) where
  drain_socket-Good :
      (rounds : ℕ) (from : SocketAddr) → Keeps (Good {bits = bits}) (drain_socket debug rounds from)
  unfolding drain_socket
  drain_socket-Good rounds from = InObject-world (drain debug rounds from)

  after_recv-Good :
      (rounds : ℕ) (r : TftpError ⊎ Header) → Keeps (Good {bits = bits}) (after_recv debug rounds r)
  unfolding after_recv
  after_recv-Good rounds (inl (io_error e)) = search good_rules
  after_recv-Good rounds (inl _) = search good_rules
  after_recv-Good rounds (inr h) =
      search (good_rules, update_average-Good, drain_socket-Good) depth 12

  receive_header-Good : (rounds : ℕ) → Keeps (Good {bits = bits}) (receive_header debug rounds)
  unfolding receive_header
  receive_header-Good rounds = search (good_rules, after_recv-Good) depth 12

  after_try-Good :
      {A : Type 0} (e : IoError) (rest : Method (ReceiveFile bits) IoError A)
      → Keeps Good rest
      → (r : IoError ⊎ Option (Unit {0})) → Keeps Good (after_try debug e rest r)
  unfolding after_try
  after_try-Good e rest k (inr (some x)) = Keeps-fail e
  after_try-Good e rest k (inr none) = k
  after_try-Good e rest k (inl x) = k

  try_error-Good : Keeps (Good {bits = bits}) (try_error debug)
  unfolding try_error
  try_error-Good = search good_rules depth 12

  fail_loop-Good :
      {A : Type 0} (rounds : ℕ) (e : IoError)
      → Keeps (Good {bits = bits}) (fail_loop debug {A = A} rounds e)
  unfolding fail_loop
  fail_loop-Good zero e = Keeps-fail e
  fail_loop-Good (suc rounds) e =
      Keeps-bind (Keeps-attempt try_error-Good) (after_try-Good e _ (fail_loop-Good rounds e))

  give_up-Good : {A : Type 0} (e : IoError) → Keeps (Good {bits = bits}) (give_up debug {A = A} e)
  unfolding give_up
  give_up-Good e = fail_loop-Good max_attempts e

  after_data-Good :
      (r : IoError ⊎ Option (Unit {0})) → Keeps (Good {bits = bits}) (after_data debug r)
  unfolding after_data
  after_data-Good (inl e) = give_up-Good e
  after_data-Good (inr none) = give_up-Good _
  after_data-Good (inr (some x)) = Keeps-pure tt

  handle_headers-Good :
      (headers : List Header) → Keeps (Good {bits = bits}) (handle_headers debug headers)
  unfolding handle_headers
  handle_headers-Good [] = Keeps-pure tt
  handle_headers-Good (Header.block h ∷ headers) =
      Keeps-bind (Keeps-attempt (handle_data-Good debug h))
        λ r. Keeps-bind (after_data-Good r) λ _. handle_headers-Good headers
  handle_headers-Good (Header.error h ∷ headers) = Keeps-fail _
  handle_headers-Good (Header.ack h ∷ headers) = handle_headers-Good headers
  handle_headers-Good (Header.read h ∷ headers) = handle_headers-Good headers
  handle_headers-Good (Header.write h ∷ headers) = handle_headers-Good headers
  handle_headers-Good (Header.invalid h ∷ headers) = handle_headers-Good headers

  send_acks-Good : (rounds n : ℕ) → Keeps (Good {bits = bits}) (send_acks debug rounds n)
  unfolding send_acks
  send_acks-Good zero n = Keeps-pure tt
  send_acks-Good (suc rounds) n = Keeps-bind (send_ack-Good debug n) λ _. send_acks-Good rounds n

  complete-Good : Keeps (Good {bits = bits}) (complete debug)
  unfolding complete
  complete-Good = search (good_rules, send_acks-Good) depth 12

  ack_again-Good : (o : Option ℕ) → Keeps (Good {bits = bits}) (ack_again debug o)
  unfolding ack_again
  ack_again-Good (some n) = search (good_rules, send_ack-Good)
  ack_again-Good none = update-Good _ (λ s. refl) λ s. refl

  after_timeout-Good : Keeps (Good {bits = bits}) (after_timeout debug)
  unfolding after_timeout
  after_timeout-Good = search (good_rules, update-Good, ack_again-Good) depth 12

  first_consec-received :
      (s : ReceiveFile bits) (o : Option ℕ) (c : ℕ)
      → ((k : ℕ) → o ≡ some k → (j : ℕ) → j ≤ k → bits.contains s.received j ≡ true)
      → first_consec s o ≡ some c
      → (j : ℕ) → j ≤ c
      → bits.contains s.received j ≡ true
  first_consec-received s none c has e j le =
      let (first, zeroth) = first_number (bits.contains s.received 0) c e in
      ap (bits.contains s.received) (omega (arith, zeroth)) ∙ first
  first_consec-received s (some k) c has e j le = has c e j le

  -- From a state of which only the set of received blocks is known.
  advance_from-Good :
      (c : ℕ) (t : ReceiveFile bits × World)
      → ((j : ℕ) → j ≤ c → bits.contains t.0.received j ≡ true)
      → Good (advance_from debug (some c) t).1
  unfolding advance_from ◌>>=◌ self lift update
  advance_from-Good c (s, w) has =
      let (r, reached, reaches) =
        advance_consec_lem bits s.received {E = IoError} (bits.limit s.received) c (omega arith) in
      let reached_to : (j : ℕ) → j ≤ r → bits.contains s.received j ≡ true = λ j le.
        elim (le-or-lt j c) [ inl before ↦ has j before | inr past ↦ reaches.has j past le ] in
      rw reached (
        (Keeps-if (leb c r) (Keeps-ignore (send_ack-Good debug r)) (Keeps-pure tt)).at
          (record s { consec_recv = some r }, w)
          (record {
            holds = record { has = λ d e j le. reached_to j (omega (arith, same_number r d e)) };
          }))

  catch_up_at :
      (o : Option ℕ) (s : ReceiveFile bits) (w : World)
      → ((c : ℕ) → o ≡ some c → (j : ℕ) → j ≤ c → bits.contains s.received j ≡ true)
      → Good (advance_from debug o (record s { consec_recv = o }, w)).1
  unfolding advance_from pure
  catch_up_at none s w has = record { holds = record { has = has } }
  catch_up_at (some c) s w has =
      advance_from-Good c (record s { consec_recv = some c }, w) (has c refl)

  catch_up-Good : Keeps (Good {bits = bits}) (catch_up debug)
  unfolding catch_up ◌>>=◌ update self
  catch_up-Good = record {
    at = λ t g.
        catch_up_at (first_consec t.0 t.0.consec_recv) t.0 t.1
          λ c. first_consec-received t.0 t.0.consec_recv c g.holds.has;
  }

  after_headers-Good :
      (n : ℕ) (r : IoError ⊎ Option (List Header))
      → Keeps (Good {bits = bits}) (after_headers debug n r)
  unfolding after_headers
  after_headers-Good n (inr (some headers)) =
      search (good_rules, handle_headers-Good, catch_up-Good)
  after_headers-Good n (inr none) = search good_rules
  after_headers-Good n (inl e) =
      search (good_rules, update-Good, give_up-Good, after_timeout-Good) depth 12

  await_data-Good : (rounds : ℕ) → Keeps (Good {bits = bits}) (await_data debug rounds)
  unfolding await_data
  await_data-Good rounds =
      search (good_rules, update-Good, give_up-Good, receive_header-Good, after_headers-Good) depth
        12

  poll-Good : (rounds : ℕ) → Keeps (Good {bits = bits}) (poll debug rounds)
  unfolding poll
  poll-Good rounds =
      Keeps-bind catch_up-Good λ _.
        Keeps-bind complete-Good λ b. Keeps-if b (Keeps-pure (ready tt)) (await_data-Good rounds)

  -- Where all blocks up to consec_recv are in the received set, they are after a poll too, however
  -- it ends.
  pub poll-IsConsecutive :
      (rounds : ℕ) (s : ReceiveFile bits) (w : World)
      → IsConsecutive s
      → IsConsecutive (poll debug rounds (s, w)).1.0
  poll-IsConsecutive rounds s w g = ((poll-Good rounds).at (s, w) (record { holds = g })).holds
