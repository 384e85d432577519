-- ===== src/Receiver/Drive/InOrder.antt =====
-- The blocks of a file, handled in order.
use rust_tftp.BitSets.{BitSets}
use rust_tftp.Common.{
  ℕ, zero, suc, ◌+◌, ◌*◌, ◌%◌, ◌≤◌, ◌<◌, ◌≡◌, refl, ap, ◌∙◌, arith, Bool, true, false, not, ◌&&◌,
  none, some, ◌⊎◌, inl, inr, List, [], ◌∷◌, length, take, length-take, take_all, leb, ltb, le→ltb,
  ◌==◌, if◌then◌else◌,
}
use rust_tftp.Common.Outcome.{Outcome, ok}
use rust_tftp.Common.Slices.{Bytes}
use rust_tftp.Common.State.{◌>>=◌, pure, attempt}
use rust_tftp.Errors.{IoError}
use rust_tftp.Header.Data.Wire.{padded}
use rust_tftp.Header.Types.{max_data_len, Header}
use rust_tftp.Net.{SocketAddr, World}
use rust_tftp.Receiver.Data.Storing.{Works, extended, received_block, last_seen, handle_data_grown}
use rust_tftp.Receiver.Drive.{after_data, handle_headers, created}
use rust_tftp.Receiver.Storage.{Storage, ReceiveFile}
use rust_tftp.Sender.Blocks.{count_blocks}
use rust_tftp.Sender.Blocks.Count.{block_fits, tail_holds}
use rust_tftp.Sender.Blocks.Cut.{chunk, length-chunk}
use rust_tftp.Receiver.Drive.Blocks.{
  blocks_of, front-chunk, chunk-ne, chunk_full, inserted_first, inserted_one, last_seen_lem,
  count_blocks-ne, below, take_zero,
}

-- The receiver has the first `i` blocks of the file.
pub record Upto {bits : BitSets} (file : Bytes) (i : ℕ) (s : ReceiveFile bits) : Type 0 where
  pub works : Works s.file
  pub front : take (i * max_data_len) s.file.content ≡ take (i * max_data_len) file
  pub reaches : i * max_data_len ≤ length s.file.content
  pub before : (s.highest_block ≡ none) ⊎ ((k : ℕ) × (s.highest_block ≡ some k) × (k < i))

module _ {bits : BitSets} (file : Bytes) where
  abbrev pub after_block : ℕ → ℕ → ReceiveFile bits → ReceiveFile bits
  after_block i t s =
      received_block (padded (chunk i file) i) (extended (i * max_data_len) (chunk i file) s.file) t
        s

  after_block-content :
      (i t : ℕ) (s : ReceiveFile bits)
      → Upto file i s
      → (after_block i t s).file.content ≡ take ((i + 1) * max_data_len) file
  after_block-content i t s v = rw v.front (front-chunk i file)

  after_block-Upto :
      (i t : ℕ) (s : ReceiveFile bits)
      → Upto file i s
      → i + 1 < count_blocks (length file)
      → Upto file (i + 1) (after_block i t s)
  after_block-Upto i t s v inner =
      let fits : i * max_data_len + max_data_len ≤ length file = block_fits (length file) i inner in
      let n : ℕ = (i + 1) * max_data_len in
      let content = after_block-content i t s v in
      record {
        works = record { answers_none = λ n. v.works.answers_none _; maps = v.works.maps };
        front = rw content (take_all n (take n file) (omega (arith, length-take n file)));
        reaches = omega (arith, ap length content, length-take n file);
        before = inr (i, refl, omega arith);
      }

  -- The state after `rounds + 1` blocks from `i` on, to the end of the file.
  pub record Delivered (rounds i : ℕ) (s : ReceiveFile bits) (w : World)
      (r : Outcome IoError (Unit {0}) × (ReceiveFile bits × World)) : Type 0 where
    pub object : ReceiveFile bits
    pub after : World
    pub result : r ≡ (ok tt, (object, after))
    pub is_content : object.file.content ≡ file
    pub is_highest : object.highest_block ≡ some (i + rounds)
    pub is_received :
        (j : ℕ)
        → bits.contains object.received j
          ≡ (if leb i j && ltb j (i + suc rounds) then true else bits.contains s.received j)
    pub is_last :
        object.received_last_block
        ≡ last_seen (length (chunk (i + rounds) file)) s.received_last_block
    pub same_consec : object.consec_recv ≡ s.consec_recv
    pub same_host : object.host_addr ≡ s.host_addr
    pub same_outbox : after.outbox ≡ w.outbox
    pub same_lock : after.locked ≡ w.locked
    pub same_answers : after.send_results ≡ w.send_results

  handled :
      (debug : Bool) (i : ℕ) (headers : List Header) (s : ReceiveFile bits) (w : World)
      → Upto file i s
      → w.stop_and_wait ≡ false
      → i < count_blocks (length file)
      → handle_headers debug (Header.block (padded (chunk i file) i) ∷ headers) (s, w)
        ≡ handle_headers debug headers
            (after_block i (w.clock 0) s, record w { clock = λ n. w.clock (suc n) })
  unfolding handle_headers ◌>>=◌ attempt after_data pure
  handled debug i headers s w v async inside = rw (
      handle_data_grown debug (chunk i file) i s w v.works async v.before (chunk-ne i file inside)
        (length-chunk i file) v.reaches)

  deliver :
      (debug : Bool) (rounds i : ℕ) (s : ReceiveFile bits) (w : World)
      → Upto file i s
      → w.stop_and_wait ≡ false
      → i + suc rounds ≡ count_blocks (length file)
      → Delivered rounds i s w (handle_headers debug (blocks_of file (suc rounds) i) (s, w))
  unfolding blocks_of handle_headers pure
  deliver debug zero i s w v async last =
      rw (handled debug i [] s w v async (omega arith)) (record {
        object = after_block i (w.clock 0) s;
        after = record w { clock = λ n. w.clock (suc n) };
        result = refl;
        is_content =
            after_block-content i (w.clock 0) s v
            ∙ take_all ((i + 1) * max_data_len) file
                (omega (arith, tail_holds (length file) i last));
        is_highest = ap some (omega arith);
        is_received = λ j. inserted_one i j _ _ (bits.contains-insert s.received i j);
        is_last = rw (zero_more);
        same_consec = refl;
        same_host = refl;
        same_outbox = refl;
        same_lock = refl;
        same_answers = refl;
      })
    where
      zero_more : i + 0 ≡ i
      zero_more = omega arith
  deliver debug (suc rounds) i s w v async last =
      let inner : i + 1 < count_blocks (length file) = omega arith in
      let d =
        deliver debug rounds (i + 1) (after_block i (w.clock 0) s)
          (record w { clock = λ n. w.clock (suc n) }) (after_block-Upto i (w.clock 0) s v inner)
          async (omega arith) in
      let sum : i + 1 + rounds ≡ i + suc rounds = omega arith in
      let not_last : ltb (length (chunk i file)) max_data_len ≡ false =
        le→ltb (length (chunk i file)) max_data_len (omega (arith, chunk_full i file inner)) in
      rw (handled debug i (blocks_of file (suc rounds) (i + 1)) s w v async (omega arith)) (record {
        object = d.object;
        after = d.after;
        result = d.result;
        is_content = d.is_content;
        is_highest = d.is_highest ∙ ap some sum;
        is_received = λ j.
            inserted_first i j rounds _ _ _ (d.is_received j) (bits.contains-insert s.received i j);
        is_last = d.is_last ∙ rw (sum, not_last);
        same_consec = d.same_consec;
        same_host = d.same_host;
        same_outbox = d.same_outbox;
        same_lock = d.same_lock;
        same_answers = d.same_answers;
      })

created-Upto :
    (bits : BitSets) (file : Bytes) (storage : Storage) (host_addr : SocketAddr) (t : ℕ)
    → Works storage
    → Upto file 0 (created bits storage host_addr t)
created-Upto bits file storage host_addr t works = record {
  works = works;
  front = take_zero (0 * max_data_len) storage.content file (omega arith);
  reaches = omega arith;
  before = inl refl;
}

module _ (bits : BitSets) (debug : Bool) (file : Bytes) (host_addr : SocketAddr) (storage : Storage)
    (t : ℕ) (w : World) where
  -- A new receiver after all blocks of the file.
  abbrev pub handled_all : Outcome IoError (Unit {0}) × (ReceiveFile bits × World)
  handled_all =
      handle_headers debug (blocks_of file (count_blocks (length file)) 0)
        (created bits storage host_addr t, w)

  pub deliver_all :
      0 < length file
      → Works storage
      → w.stop_and_wait ≡ false
      → (rounds : ℕ) × (count_blocks (length file) ≡ suc rounds)
        × Delivered file rounds 0 (created bits storage host_addr t) w handled_all
  deliver_all ne works async =
      let (rounds, many) = count_blocks-ne (length file) ne in
      let d =
        deliver file debug rounds 0 (created bits storage host_addr t) w
          (created-Upto bits file storage host_addr t works) async (omega (arith, many)) in
      (rounds, many, rw many d)

  -- Where the calls of the system succeed, a new receiver that handles the blocks of a file that
  -- is not empty, each once and in order, outside of stop-and-wait, ends without an error and with
  -- that file on the disk: exactly the numbers of its blocks are in the received set, the flag of
  -- the last block is set unless the length of the file is a multiple of MAX_DATA_LEN, and nothing
  -- is sent.
  pub handle_headers-blocks_of :
      0 < length file
      → Works storage
      → w.stop_and_wait ≡ false
      → let (o, (s, v)) = handled_all in
        (o ≡ ok tt)
        × (s.file.content ≡ file)
        × ((j : ℕ) → bits.contains s.received j ≡ ltb j (count_blocks (length file)))
        × (s.received_last_block ≡ not (length file % max_data_len == 0))
        × (v.outbox ≡ w.outbox)
  handle_headers-blocks_of ne works async =
      let (rounds, many, d) = deliver_all ne works async in
      let below_all = λ (j : ℕ).
        below j rounds _ (bits.contains bits.empty j) (d.is_received j) (bits.contains-empty j) in
      rw (d.result) (
        refl,
        d.is_content,
        (λ j. below_all j ∙ rw many refl),
        d.is_last ∙ last_seen_lem file (0 + rounds) (omega (arith, many)),
        d.same_outbox,
      )
