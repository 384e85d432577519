-- ===== src/Receiver/Drive/Ending.antt =====
-- The poll of a receiver returns.
use rust_tftp.BitSets.{BitSets}
use rust_tftp.Common.{
  ℕ, zero, suc, ◌-◌, ◌<◌, length, ltb, ◌≢◌, refl, arith, Bool, true, false, leb, Option, none, some,
  ◌⊎◌, inl, inr, List, [], ◌∷◌,
}
use rust_tftp.Common.Outcome.{Outcome, ok, err, panic, hang}
use rust_tftp.Common.Outcome.Ends.{
  Ends, Ends-ok, Ends-err, Ends-panic, Ends-copy_into, Ends-slice, Ends-if,
}
use rust_tftp.Common.Slices.{Bytes}
use rust_tftp.Common.State.{Run, modify}
use rust_tftp.Common.State.Any.{Any}
use rust_tftp.Common.State.Finishes.{
  Finishes, Finishes-pure, Finishes-fail, Finishes-bind, Finishes-then, Finishes-from,
  Finishes-lift, Finishes-attempt, Finishes-if, Finishes-ignore, finishes_rules,
}
use rust_tftp.Errors.{IoError}
use rust_tftp.Header.Types.{DataHeader, Header}
use rust_tftp.Net.{World}
use rust_tftp.Receiver.Data.{send_ack, fit, store_block, ack_data, take_data, handle_data}
use rust_tftp.Receiver.Drive.{
  advance_consec, unwrap, advance_from, catch_up, send_acks, complete, after_data, handle_headers,
  ack_again, after_timeout, after_headers, await_data, poll, total_timeout,
}
use rust_tftp.Receiver.Drive.Advance.{advance_consec_lem}
use rust_tftp.Receiver.Packets.Ending.{receive_header-Finishes, give_up-Finishes}
use rust_tftp.Receiver.Storage.{
  Storage, answered, call, set_len, mapped, map_mut, stored, write_map, remap, ReceiveFile, on_file,
}
use rust_tftp.Receiver.Drive.Room.{complete-Room, catch_up-Room}
use rust_tftp.Receiver.Packets.Room.{Room, now-Room}
use rust_tftp.Transfer.Session.{ready}
use rust_tftp.Transfer.Session.Keeping.{InWorld, Keeps-world, Keeps-self, Keeps-update}
use rust_tftp.Transfer.Session.Ending.{
  world-Finishes, self-Finishes, update-Finishes, now-Finishes, ending_rules,
}

answered-Ends : (o : Option IoError) (f : Storage) → Ends (answered o f).0
answered-Ends none f = Ends-ok tt
answered-Ends (some e) f = Ends-err e

call-Finishes : Finishes Any call
unfolding call
call-Finishes = record { at = λ f p. answered-Ends (f.answers 0) _ }

set_len-Finishes : (n : ℕ) → Finishes Any (set_len n)
unfolding set_len modify
set_len-Finishes n = Finishes-bind call-Finishes λ _. record { at = λ f p. Ends-ok tt }

mapped-Ends : (o : Option IoError) (n : ℕ) (f : Storage) → Ends (mapped o n f).0
mapped-Ends none n f = Ends-ok tt
mapped-Ends (some e) n f = Ends-err e

map_mut-Finishes : (n : ℕ) → Finishes Any (map_mut n)
unfolding map_mut
map_mut-Finishes n = record { at = λ f p. mapped-Ends (f.map_error n) n f }

remap-Finishes : (n : ℕ) → Finishes Any (remap n)
unfolding remap
remap-Finishes n =
    search (finishes_rules, call-Finishes, set_len-Finishes, map_mut-Finishes) depth 8

stored-Ends : (f : Storage) (o : Outcome IoError Bytes) → Ends o → Ends (stored f o).0
stored-Ends f (ok c) k = Ends-ok tt
stored-Ends f (err e) k = Ends-err e
stored-Ends f panic k = Ends-panic
stored-Ends f hang k = absurd (k.at refl)

write_map-Finishes : (start end : ℕ) (src : Bytes) → Finishes Any (write_map start end src)
unfolding write_map
write_map-Finishes start end src = record {
  at = λ f p. stored-Ends f _ (Ends-if _ (Ends-copy_into f.content start end src) Ends-panic);
}

unwrap-Ends : {E A : Type 0} (o : Option A) → Ends {E = E} (unwrap o)
unfolding unwrap
unwrap-Ends none = Ends-panic
unwrap-Ends (some a) = Ends-ok a

advance_consec-Ends :
    (bits : BitSets) (received : bits.BitSet) (c : ℕ)
    → Ends {E = IoError} (advance_consec bits (suc (bits.limit received)) received c)
advance_consec-Ends bits received c =
    let (r, e, reaches) =
      advance_consec_lem bits received {E = IoError} (bits.limit received) c (omega arith) in
    rw e (Ends-ok r)

module _ {bits : BitSets} (debug : Bool) where
  on_file-Finishes :
      {A : Type 0} {m : Run Storage IoError A}
      → Finishes Any m
      → Finishes {S = ReceiveFile bits × World} Any (on_file m)
  unfolding on_file
  on_file-Finishes k = record { at = λ t p. k.at t.0.file tt }

  ruleset drive_rules = (
    finishes_rules, ending_rules, on_file-Finishes, remap-Finishes, write_map-Finishes, Ends-slice,
    unwrap-Ends, advance_consec-Ends,
  )

  send_ack-Finishes : (n : ℕ) → Finishes {S = ReceiveFile bits × World} Any (send_ack debug n)
  unfolding send_ack
  send_ack-Finishes n = search (finishes_rules, ending_rules) depth 12

  fit-Finishes :
      (h : DataHeader) (o : Option ℕ) → Finishes {S = ReceiveFile bits × World} Any (fit h o)
  unfolding fit
  fit-Finishes h none = search drive_rules depth 12
  fit-Finishes h (some k) = search drive_rules depth 12

  store_block-Finishes :
      (h : DataHeader) → Finishes {S = ReceiveFile bits × World} Any (store_block h)
  unfolding store_block
  store_block-Finishes h = search drive_rules depth 12

  take_data-Finishes : (h : DataHeader) → Finishes {S = ReceiveFile bits × World} Any (take_data h)
  unfolding take_data
  take_data-Finishes h = search (drive_rules, fit-Finishes, store_block-Finishes) depth 16

  ack_data-Finishes :
      (b : Bool) (n : ℕ) → Finishes {S = ReceiveFile bits × World} Any (ack_data debug b n)
  unfolding ack_data
  ack_data-Finishes true n = search (drive_rules, send_ack-Finishes)
  ack_data-Finishes false n = search drive_rules

  handle_data-Finishes :
      (h : DataHeader) → Finishes {S = ReceiveFile bits × World} Any (handle_data debug h)
  unfolding handle_data
  handle_data-Finishes h =
      Finishes-bind (world-Finishes (record { at = λ w p. Ends-ok w.stop_and_wait }))
        λ b. Finishes-bind (ack_data-Finishes b h.block_number) λ _. take_data-Finishes h

  after_data-Finishes :
      (r : IoError ⊎ Option (Unit {0}))
      → Finishes {S = ReceiveFile bits × World} Any (after_data debug r)
  unfolding after_data
  after_data-Finishes (inl e) = give_up-Finishes debug e
  after_data-Finishes (inr none) = give_up-Finishes debug _
  after_data-Finishes (inr (some x)) = Finishes-pure tt

  handle_headers-Finishes :
      (headers : List Header)
      → Finishes {S = ReceiveFile bits × World} Any (handle_headers debug headers)
  unfolding handle_headers
  handle_headers-Finishes [] = Finishes-pure tt
  handle_headers-Finishes (Header.block h ∷ headers) =
      Finishes-bind (Finishes-attempt (handle_data-Finishes h))
        λ r. Finishes-bind (after_data-Finishes r) λ _. handle_headers-Finishes headers
  handle_headers-Finishes (Header.error h ∷ headers) = Finishes-fail _
  handle_headers-Finishes (Header.ack h ∷ headers) = handle_headers-Finishes headers
  handle_headers-Finishes (Header.read h ∷ headers) = handle_headers-Finishes headers
  handle_headers-Finishes (Header.write h ∷ headers) = handle_headers-Finishes headers
  handle_headers-Finishes (Header.invalid h ∷ headers) = handle_headers-Finishes headers

  send_acks-Finishes :
      (rounds n : ℕ) → Finishes {S = ReceiveFile bits × World} Any (send_acks debug rounds n)
  unfolding send_acks
  send_acks-Finishes zero n = Finishes-pure tt
  send_acks-Finishes (suc rounds) n =
      Finishes-bind (send_ack-Finishes n) λ _. send_acks-Finishes rounds n

  advance_from-Finishes :
      (o : Option ℕ) → Finishes {S = ReceiveFile bits × World} Any (advance_from debug o)
  unfolding advance_from
  advance_from-Finishes none = Finishes-pure tt
  advance_from-Finishes (some c) = Finishes-bind self-Finishes λ s.
      Finishes-bind (Finishes-lift _ (advance_consec-Ends bits s.received c)) λ r.
        Finishes-bind (update-Finishes _)
          λ _. Finishes-if (leb c r) (Finishes-ignore (send_ack-Finishes r)) (Finishes-pure tt)

  catch_up-Finishes : Finishes {S = ReceiveFile bits × World} Any (catch_up debug)
  unfolding catch_up
  catch_up-Finishes = search (drive_rules, advance_from-Finishes) depth 8

  complete-Finishes : Finishes {S = ReceiveFile bits × World} Any (complete debug)
  unfolding complete
  complete-Finishes = search (drive_rules, send_acks-Finishes) depth 12

  ack_again-Finishes :
      (o : Option ℕ) → Finishes {S = ReceiveFile bits × World} Any (ack_again debug o)
  unfolding ack_again
  ack_again-Finishes (some n) = search (drive_rules, send_ack-Finishes)
  ack_again-Finishes none = search drive_rules

  after_timeout-Finishes : Finishes {S = ReceiveFile bits × World} Any (after_timeout debug)
  unfolding after_timeout
  after_timeout-Finishes = search (drive_rules, ack_again-Finishes) depth 12

  after_headers-Finishes :
      (n : ℕ) (r : IoError ⊎ Option (List Header))
      → Finishes {S = ReceiveFile bits × World} Any (after_headers debug n r)
  unfolding after_headers
  after_headers-Finishes n (inr (some headers)) =
      search (drive_rules, handle_headers-Finishes, catch_up-Finishes) depth 8
  after_headers-Finishes n (inr none) = search drive_rules
  after_headers-Finishes n (inl e) =
      search (drive_rules, give_up-Finishes, after_timeout-Finishes) depth 12

  await_data-Finishes :
      (rounds : ℕ)
      → Finishes {S = ReceiveFile bits × World} (InWorld (Room rounds)) (await_data debug rounds)
  unfolding await_data
  await_data-Finishes rounds =
      Finishes-then (world-Finishes now-Finishes) (Keeps-world now-Room) λ t.
        Finishes-then self-Finishes Keeps-self λ s.
          Finishes-if (ltb total_timeout (t - s.last_time))
            (Finishes-from (give_up-Finishes debug _))
            (Finishes-then (update-Finishes _) (Keeps-update _) λ _.
              Finishes-bind (Finishes-attempt (receive_header-Finishes debug rounds))
                λ r. after_headers-Finishes s.error_count r)

  poll-Finishes :
      (rounds : ℕ)
      → Finishes {S = ReceiveFile bits × World} (InWorld (Room rounds)) (poll debug rounds)
  unfolding poll
  poll-Finishes rounds = Finishes-then catch_up-Finishes (catch_up-Room debug) λ _.
      Finishes-then complete-Finishes (complete-Room debug)
        λ b. Finishes-if b (Finishes-pure (ready tt)) (await_data-Finishes rounds)

  -- A poll of a receiver returns or panics, whatever its state and whatever the world answers,
  -- where the loop of receive_header has more rounds than there are events in the queue of the
  -- socket, which is finite and gets no more meanwhile: the poll does not hang.
  pub poll_returns :
      (rounds : ℕ) (s : ReceiveFile bits) (w : World)
      → length w.inbox < rounds
      → (poll debug rounds (s, w)).0 ≢ hang
  poll_returns rounds s w room =
      ((poll-Finishes rounds).at (s, w) (record { held = record { room = room } })).at
