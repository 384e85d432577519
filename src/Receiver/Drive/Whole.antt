-- ===== src/Receiver/Drive/Whole.antt =====
-- `ReceiveFile::poll` after all blocks of a file.
use rust_tftp.BitSets.{BitSets}
use rust_tftp.Common.{
  ℕ, suc, ◌+◌, ◌%◌, ◌<◌, ◌≡◌, ◌≢◌, ap, ◌∙◌, arith, Bool, true, false, not, ◌&&◌, length, leb, ltb,
  if◌then◌else◌, ne→==, eq→==,
}
use rust_tftp.Common.Outcome.{ok}
use rust_tftp.Common.Slices.{Bytes}
use rust_tftp.Header.Types.{max_data_len}
use rust_tftp.Net.{SocketAddr, World, Sent}
use rust_tftp.Receiver.Data.Storing.{Works}
use rust_tftp.Receiver.Drive.{poll}
use rust_tftp.Receiver.Drive.Completion.{AcksSend, poll_complete}
use rust_tftp.Receiver.Drive.Blocks.{last_seen_lem}
use rust_tftp.Receiver.Drive.InOrder.{handled_all, deliver_all}
use rust_tftp.Receiver.Drive.Unready.{poll_unfinished}
use rust_tftp.Receiver.Storage.{Storage}
use rust_tftp.Transfer.Session.{ready}

in_range :
    (j rounds : ℕ) (x y : Bool)
    → x ≡ (if leb 0 j && ltb j (0 + suc rounds) then true else y)
    → j < rounds
    → x ≡ true
in_range j rounds x y e h = ground arith

module _ (bits : BitSets) (debug : Bool) (file : Bytes) (host_addr : SocketAddr) (storage : Storage)
    (t : ℕ) (w : World) (polled : ℕ) where
  -- Where the calls of the system succeed, the lock is free and each send is answered with the
  -- length of an acknowledgement, a poll after all blocks of a file that is not empty were handled
  -- in order, outside of stop-and-wait, returns that the transfer is complete, with that file on
  -- the disk, if the length of the file is no multiple of MAX_DATA_LEN; if it is one, the poll
  -- does not return that.
  pub poll-blocks_of :
      0 < length file
      → Works storage
      → w.stop_and_wait ≡ false
      → AcksSend w
      → let (o, (s, v)) = handled_all bits debug file host_addr storage t w in
        let (p, (u, x)) = poll debug polled (s, v) in
        (length file % max_data_len ≢ 0 → (p ≡ ok (ready tt)) × (u.file.content ≡ file))
        × (length file % max_data_len ≡ 0 → p ≢ ok (ready tt))
  poll-blocks_of ne works async sends =
      let (rounds, many, d) = deliver_all bits debug file host_addr storage t w ne works async in
      let last = d.is_last ∙ last_seen_lem file (0 + rounds) (omega (arith, many)) in
      rw d.result (
        (λ part.
            let done =
              poll_complete debug polled (0 + rounds) d.object d.after
                (record {
                  free = d.same_lock ∙ sends.free;
                  whole = λ k. ap (λ (a : ℕ → Sent). a k) d.same_answers ∙ sends.whole k;
                })
                (last ∙ ap not (ne→== _ 0 part)) d.is_highest
                (λ j inside.
                  in_range j rounds _ (bits.contains bits.empty j) (d.is_received j)
                    (omega arith)) in
            (done.0, ap (λ (f : Storage). f.content) done.1 ∙ d.is_content)),
        (λ whole. poll_unfinished debug polled d.object d.after (last ∙ ap not (eq→== _ 0 whole))),
      )
