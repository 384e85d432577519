-- ===== src/Receiver/Data/Cutting.antt =====
-- `ReceiveFile::handle_data` of a block before one that was received.
use rust_tftp.BitSets.{BitSets}
use rust_tftp.Common.{
  ℕ, ◌*◌, ◌≤◌, ◌<◌, ◌≡◌, refl, arith, Bool, true, false, some, inr, length, take, ◌++◌, length-take,
  length-append, if◌then◌else◌,
}
use rust_tftp.Common.Outcome.{ok}
use rust_tftp.Common.Slices.{Bytes}
use rust_tftp.Header.Data.Wire.{padded}
use rust_tftp.Header.Types.{max_data_len}
use rust_tftp.Net.{World}
use rust_tftp.Receiver.Data.{handle_data}
use rust_tftp.Receiver.Data.Storing.{Works, handle_data_grown}
use rust_tftp.Receiver.Storage.{ReceiveFile}

still_in : (same has x : Bool) → x ≡ (if same then true else has) → has ≡ true → x ≡ true
still_in same has x e h = ground arith

cut_before :
    (payload content : Bytes) (number j : ℕ)
    → length payload ≤ max_data_len
    → number < j
    → length (take (number * max_data_len) content ++ payload) ≤ j * max_data_len
unfolding max_data_len
cut_before payload content number j fits before = omega (
  arith,
  length-append (take (number * max_data_len) content) payload,
  length-take (number * max_data_len) content,
)

-- Where the calls of the system succeed, outside of stop-and-wait, handle_data of a block past
-- highest_block and below a block that was received cuts the file off before that block, which
-- stays in the received set.
pub handle_data_cuts :
    {bits : BitSets} (debug : Bool) (payload : Bytes) (k number j : ℕ) (s : ReceiveFile bits)
    (w : World)
    → Works s.file
    → w.stop_and_wait ≡ false
    → s.highest_block ≡ some k
    → k < number
    → number < j
    → bits.contains s.received j ≡ true
    → 0 < length payload
    → length payload ≤ max_data_len
    → number * max_data_len ≤ length s.file.content
    → let (o, (t, v)) = handle_data debug (padded payload number) (s, w) in
      (o ≡ ok (some tt))
      × (bits.contains t.received j ≡ true)
      × (length t.file.content ≤ j * max_data_len)
handle_data_cuts {bits} debug payload k number j s w works async highest above before has positive
      fits inside =
    rw
      (handle_data_grown debug payload number s w works async (inr (k, highest, above)) positive
        fits inside)
      (
        refl,
        still_in _ _ _ (bits.contains-insert s.received number j) has,
        cut_before payload s.file.content number j fits before,
      )
