-- ===== src/Receiver/Drive/Endless.antt =====
-- `ReceiveFile::poll` while datagrams keep coming.
use rust_tftp.BitSets.{BitSets}
use rust_tftp.Common.{ℕ, suc, ◌+◌, ◌-◌, ◌≤◌, ◌≡◌, refl, arith, Bool, false, le→ltb}
use rust_tftp.Common.Outcome.{hang}
use rust_tftp.Common.State.{◌>>=◌, pure, attempt}
use rust_tftp.Net.{SocketAddr, World, now}
use rust_tftp.Receiver.Drive.{
  total_timeout, advance_from, catch_up, complete, await_data, created, poll,
}
use rust_tftp.Receiver.Packets.Endless.{Flood, receive_header-Flood}
use rust_tftp.Receiver.Storage.{Storage}
use rust_tftp.Transfer.Session.{world, self, update}

-- A new receiver that is polled within the total timeout, with the lock free and no packets
-- dropped on purpose, is still reading after any number of rounds of the loop of receive_header,
-- where one datagram more than that is queued, each from its host, with room in the receive
-- buffer, and decoded: while such datagrams keep coming the poll does not return.
pub poll_endless :
    (bits : BitSets) (debug : Bool) (rounds : ℕ) (storage : Storage) (host_addr : SocketAddr)
    (t : ℕ) (w : World)
    → w.locked ≡ false
    → w.drop_threshold ≡ 0
    → w.clock 0 ≤ t + total_timeout
    → Flood debug host_addr (suc rounds) w.inbox
    → (poll debug rounds (created bits storage host_addr t, w)).0 ≡ hang
unfolding poll catch_up advance_from complete await_data world self update now pure attempt ◌>>=◌
poll_endless bits debug rounds storage host_addr t w free keep soon flood =
    let v : World = record w { clock = λ n. w.clock (suc n) } in
    let s = created bits storage host_addr t in
    let (x, endless) = receive_header-Flood debug rounds 999_999_999 s v free keep flood in
    rw (bits.contains-empty 0, le→ltb total_timeout (w.clock 0 - t) (omega arith), endless) refl
