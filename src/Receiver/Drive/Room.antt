-- ===== src/Receiver/Drive/Room.antt =====
-- What a receiver does before it reads takes no event from the queue.
use rust_tftp.BitSets.{BitSets}
use rust_tftp.Common.{ℕ, zero, suc, Bool, leb, Option, none, some}
use rust_tftp.Common.State.Keeps.{Keeps, Keeps-pure, Keeps-bind, Keeps-lift, Keeps-if, Keeps-ignore}
use rust_tftp.Net.{World}
use rust_tftp.Receiver.Data.{send_ack}
use rust_tftp.Receiver.Drive.{advance_from, catch_up, send_acks, complete}
use rust_tftp.Receiver.Packets.Room.{Room, room_rules}
use rust_tftp.Receiver.Storage.{ReceiveFile}
use rust_tftp.Transfer.Session.Keeping.{InWorld, Keeps-self, Keeps-update}

module _ {bits : BitSets} (debug : Bool) where
  send_ack-Room :
      {rounds : ℕ} (n : ℕ)
      → Keeps {S = ReceiveFile bits × World} (InWorld (Room rounds)) (send_ack debug n)
  unfolding send_ack
  send_ack-Room n = search room_rules depth 12

  send_acks-Room :
      {rounds : ℕ} (times n : ℕ)
      → Keeps {S = ReceiveFile bits × World} (InWorld (Room rounds)) (send_acks debug times n)
  unfolding send_acks
  send_acks-Room zero n = Keeps-pure tt
  send_acks-Room (suc times) n = Keeps-bind (send_ack-Room n) λ _. send_acks-Room times n

  pub complete-Room :
      {rounds : ℕ} → Keeps {S = ReceiveFile bits × World} (InWorld (Room rounds)) (complete debug)
  unfolding complete
  complete-Room = search (room_rules, send_acks-Room) depth 12

  advance_from-Room :
      {rounds : ℕ} (o : Option ℕ)
      → Keeps {S = ReceiveFile bits × World} (InWorld (Room rounds)) (advance_from debug o)
  unfolding advance_from
  advance_from-Room none = Keeps-pure tt
  advance_from-Room (some c) = Keeps-bind Keeps-self λ s. Keeps-bind (Keeps-lift _) λ r.
      Keeps-bind (Keeps-update _)
        λ _. Keeps-if (leb c r) (Keeps-ignore (send_ack-Room r)) (Keeps-pure tt)

  pub catch_up-Room :
      {rounds : ℕ} → Keeps {S = ReceiveFile bits × World} (InWorld (Room rounds)) (catch_up debug)
  unfolding catch_up
  catch_up-Room = search (room_rules, advance_from-Room) depth 12
