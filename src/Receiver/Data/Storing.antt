-- ===== src/Receiver/Data/Storing.antt =====
-- What `ReceiveFile::handle_data` makes of a block at the end of the file.
use rust_tftp.BitSets.{BitSets}
use rust_tftp.Common.{
  ℕ, suc, ◌+◌, ◌-◌, ◌*◌, ◌≤◌, ◌<◌, ◌≡◌, refl, sym, ap, ◌∙◌, arith, Bool, true, false, Option, none,
  some, ◌⊎◌, inl, inr, [], ◌++◌, length, take, replicate, length-take, length-append,
  length-replicate, take-take-append, drop_all, ltb, le→leb, lt→ltb, ltb-false→le, eq→==,
  if◌then◌else◌, Bool-cases,
}
use mathlib.Core.List.{append-nil}
use rust_tftp.Common.Copies.{slice-append}
use rust_tftp.Common.Outcome.{ok}
use rust_tftp.Common.Slices.{Bytes, copy_into, slice}
use rust_tftp.Common.State.{next, ◌>>=◌, pure, lift}
use rust_tftp.Errors.{IoError}
use rust_tftp.Header.Data.Wire.{padded, pad}
use rust_tftp.Header.Types.{max_data_len, DataHeader}
use rust_tftp.Net.{World, now}
use rust_tftp.Receiver.Data.{fit, store_block, ack_data, take_data, handle_data}
use rust_tftp.Receiver.Storage.{
  Storage, with_len, call, set_len, map_mut, write_map, remap, ReceiveFile, on_file,
}
use rust_tftp.Transfer.Session.{world, self, update}

pub length-with_len : (n : ℕ) (content : Bytes) → length (with_len n content) ≡ n
length-with_len n content = omega (
  arith,
  length-append (take n content) (replicate (n - length content) 0),
  length-take n content,
  length-replicate {A = ℕ} (n - length content) 0,
)

-- The calls of the system succeed, and so does a mapping that is not empty.
pub record Works (f : Storage) : Type 0 where
  pub answers_none : (n : ℕ) → f.answers n ≡ none
  pub maps : (n : ℕ) → 0 < n → f.map_error n ≡ none

-- A copy that ends where the content ends.
copy_into_last :
    (content payload : Bytes) (start : ℕ)
    → start ≤ length content
    → copy_into {E = IoError}
        (with_len (start + length payload) content)
        start
        (start + length payload)
        payload
      ≡ ok (take start content ++ payload)
unfolding copy_into
copy_into_last content payload start h =
    let end : ℕ = start + length payload in
    let whole : length (with_len end content) ≡ end = length-with_len end content in
    rw (
      le→leb start end (omega arith),
      le→leb end (length (with_len end content)) (omega arith),
      eq→== (length payload) (end - start) (omega arith),
      take-take-append start end content (replicate (end - length content) 0) (omega arith) h,
      drop_all end (with_len end content) (omega arith),
      append-nil payload,
    )

-- Three calls of the system later.
abbrev pub three_on : (ℕ → Option IoError) → ℕ → Option IoError
three_on answers n = answers (suc (suc (suc n)))

abbrev pub widened : ℕ → Storage → Storage
widened n f = record f { content = with_len n f.content; map_len = n; answers = three_on f.answers }

pub remap-Works : (n : ℕ) (f : Storage) → Works f → 0 < n → remap n f ≡ (ok tt, widened n f)
unfolding remap call set_len map_mut ◌>>=◌
remap-Works n f v positive =
    rw (v.answers_none 0, v.answers_none 1, v.answers_none 2, v.maps n positive)

-- The file of `f` up to `start`, and `payload` behind it.
abbrev pub extended : ℕ → Bytes → Storage → Storage
extended start payload f = record f {
  content = take start f.content ++ payload;
  map_len = start + length payload;
  answers = three_on f.answers;
}

-- The flag of the last block after a payload of `n` bytes.
abbrev pub last_seen : ℕ → Bool → Bool
last_seen n seen = if ltb n max_data_len then true else seen

write_map_grown :
    (start : ℕ) (payload : Bytes) (f : Storage)
    → start ≤ length f.content
    → write_map start (start + length payload) payload (widened (start + length payload) f)
      ≡ (ok tt, extended start payload f)
unfolding write_map
write_map_grown start payload f inside = rw (
  le→leb (start + length payload) (start + length payload) (omega arith),
  copy_into_last f.content payload start inside,
)

pub slice-pad :
    (payload : Bytes) → slice {E = IoError} (pad payload) 0 (length payload) ≡ ok payload
unfolding pad
slice-pad payload =
    slice-append [] payload (replicate (max_data_len - length payload) 0) 0 (length payload) refl
      (omega arith)

pub pad_whole : (payload : Bytes) → length payload ≡ max_data_len → pad payload ≡ payload
unfolding pad
pad_whole payload whole =
    let e : max_data_len - length payload ≡ 0 = omega arith in rw (e, append-nil payload)

module _ {bits : BitSets} where
  abbrev pub received_block : DataHeader → Storage → ℕ → ReceiveFile bits → ReceiveFile bits
  received_block h f t s = record s {
    file = f;
    highest_block = some h.block_number;
    received_last_block = last_seen h.data_len s.received_last_block;
    received = bits.insert s.received h.block_number;
    last_time = t;
  }

  -- The file has grown to this block, and its bytes are copied.
  store_block_grown :
      (payload : Bytes) (number : ℕ) (s : ReceiveFile bits) (f : Storage) (w : World)
      → 0 < length payload
      → length payload ≤ max_data_len
      → number * max_data_len ≤ length f.content
      → store_block
          (padded payload number)
          (record s { file = widened (number * max_data_len + length payload) f }, w)
        ≡ (
          ok tt,
          (
            record s {
              file = extended (number * max_data_len) payload f;
              received_last_block = last_seen (length payload) s.received_last_block;
            },
            w,
          ),
        )
  unfolding store_block ◌>>=◌ update lift on_file pure
  store_block_grown payload number s f w positive fits inside =
      elim (Bool-cases (ltb (length payload) max_data_len)) [
        | inl short ↦ rw (
          short,
          lt→ltb 0 (length payload) positive,
          slice-pad payload,
          write_map_grown (number * max_data_len) payload f inside,
        )
        | inr full ↦
            let whole : length payload ≡ max_data_len =
              omega (arith, ltb-false→le (length payload) max_data_len full) in
            let start : ℕ = number * max_data_len in
            let copied =
              ap
                (λ (k : ℕ).
                  write_map start (start + k) payload (widened (start + length payload) f))
                (sym whole)
              ∙ write_map_grown start payload f inside in
            rw (full, pad_whole payload whole, copied)
      ]

  take_data_grown :
      (payload : Bytes) (number : ℕ) (s : ReceiveFile bits) (w : World)
      → Works s.file
      → (s.highest_block ≡ none) ⊎ ((k : ℕ) × (s.highest_block ≡ some k) × (k < number))
      → 0 < length payload
      → length payload ≤ max_data_len
      → number * max_data_len ≤ length s.file.content
      → take_data (padded payload number) (s, w) ≡ (
        ok (some tt),
        (
          received_block
              (padded payload number)
              (extended (number * max_data_len) payload s.file)
              (w.clock 0)
              s,
          record w { clock = λ n. w.clock (suc n) },
        ),
      )
  unfolding take_data fit ◌>>=◌ world self update on_file now pure
  take_data_grown payload number s w works first positive fits inside =
      let start : ℕ = number * max_data_len in
      let swapped : max_data_len * number ≡ start = omega arith in
      let grown = remap-Works (start + length payload) s.file works (omega arith) in
      let copied =
        store_block_grown payload number
          (record s {
            highest_block = some number;
            received = bits.insert s.received number;
            last_time = w.clock 0;
          })
          s.file (record w { clock = λ n. w.clock (suc n) }) positive fits inside in
      elim first [
        | inl e ↦ rw (e, swapped, grown, copied)
        | inr (k, e, past) ↦ rw (e, lt→ltb k number past, swapped, grown, copied)
      ]

  -- `handle_data` of a block past all blocks before, or of the first, where the file reaches to it.
  pub handle_data_grown :
      (debug : Bool) (payload : Bytes) (number : ℕ) (s : ReceiveFile bits) (w : World)
      → Works s.file
      → w.stop_and_wait ≡ false
      → (s.highest_block ≡ none) ⊎ ((k : ℕ) × (s.highest_block ≡ some k) × (k < number))
      → 0 < length payload
      → length payload ≤ max_data_len
      → number * max_data_len ≤ length s.file.content
      → handle_data debug (padded payload number) (s, w) ≡ (
        ok (some tt),
        (
          received_block
              (padded payload number)
              (extended (number * max_data_len) payload s.file)
              (w.clock 0)
              s,
          record w { clock = λ n. w.clock (suc n) },
        ),
      )
  unfolding handle_data ◌>>=◌ world ack_data
  handle_data_grown debug payload number s w works async first positive fits inside =
      ap
        (λ (b : Bool). next (ack_data debug b number (s, w)) λ _. take_data (padded payload number))
        async
      ∙ take_data_grown payload number s w works first positive fits inside
