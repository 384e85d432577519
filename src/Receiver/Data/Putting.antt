-- ===== src/Receiver/Data/Putting.antt =====
-- `ReceiveFile::handle_data` as a write to a map from block numbers to payloads.
use rust_tftp.BitSets.{BitSets}
use rust_tftp.Common.{
  ℕ, ◌+◌, ◌-◌, ◌*◌, ◌≤◌, ◌<◌, ◌≡◌, refl, sym, ap, ◌∙◌, arith, true, false, ◌||◌, none, some, ◌⊎◌,
  inl, inr, ◌++◌, length, replicate, take_all, ltb, le→leb, lt→ltb, ltb-false→le, eq→==, Bool-cases,
  Option-cases,
}
use mathlib.Core.List.{append-nil}
use rust_tftp.Common.Outcome.{ok}
use rust_tftp.Common.Slices.{Bytes, copy_into}
use rust_tftp.Common.Splices.{splice}
use rust_tftp.Common.State.{◌>>=◌, pure, lift}
use rust_tftp.Header.Data.Wire.{padded}
use rust_tftp.Header.Types.{max_data_len}
use rust_tftp.Net.{World}
use rust_tftp.Receiver.Data.{fit, store_block}
use rust_tftp.Receiver.Data.Storing.{
  Works, widened, last_seen, remap-Works, slice-pad, pad_whole, length-with_len,
}
use rust_tftp.Receiver.Storage.{Storage, write_map, ReceiveFile, on_file}
use rust_tftp.Transfer.Session.{self, update}

abbrev pub spliced : ℕ → Bytes → Storage → Storage
spliced start payload f = record f { content = splice f.content start payload }

write_map_lem :
    (start : ℕ) (payload : Bytes) (f : Storage)
    → start + length payload ≤ f.map_len
    → start + length payload ≤ length f.content
    → write_map start (start + length payload) payload f ≡ (ok tt, spliced start payload f)
unfolding write_map copy_into
write_map_lem start payload f mapped inside = rw (
  le→leb (start + length payload) f.map_len mapped,
  le→leb start (start + length payload) (omega arith),
  le→leb (start + length payload) (length f.content) inside,
  eq→== (length payload) (start + length payload - start) (omega arith),
)

-- The file `f` with zeros behind it, mapped up to `end` at least.
pub record Fitted (end : ℕ) (f g : Storage) : Type 0 where
  pub works : Works g
  pub zeros : ℕ
  pub content : g.content ≡ f.content ++ replicate zeros 0
  pub mapped : end ≤ g.map_len
  pub same_len : g.map_len ≡ length g.content
  pub ends : (g ≡ f) ⊎ (length g.content ≡ end)

widened-Fitted :
    (end : ℕ) (f : Storage) → Works f → length f.content ≤ end → Fitted end f (widened end f)
widened-Fitted end f v short = record {
  works = record { answers_none = λ n. v.answers_none _; maps = v.maps };
  zeros = end - length f.content;
  content =
      ap (λ (xs : Bytes). xs ++ replicate (end - length f.content) 0)
        (take_all end f.content short);
  mapped = omega arith;
  same_len = sym (length-with_len end f.content);
  ends = inr (length-with_len end f.content);
}

-- A block that starts inside or at the end of the blocks below `number`.
grows : (k number m end : ℕ) → (ltb k number || ltb m end) ≡ true → number ≤ k → m ≤ end
grows k number m end e h = ground arith

stays : (k number m end : ℕ) → (ltb k number || ltb m end) ≡ false → end ≤ m
stays k number m end e = ground arith

module _ {bits : BitSets} where
  pub store_block_lem :
      (payload : Bytes) (number : ℕ) (s : ReceiveFile bits) (w : World)
      → 0 < length payload
      → length payload ≤ max_data_len
      → number * max_data_len + length payload ≤ s.file.map_len
      → number * max_data_len + length payload ≤ length s.file.content
      → store_block (padded payload number) (s, w) ≡ (
        ok tt,
        (
          record s {
            file = spliced (number * max_data_len) payload s.file;
            received_last_block = last_seen (length payload) s.received_last_block;
          },
          w,
        ),
      )
  unfolding store_block ◌>>=◌ update lift on_file pure
  store_block_lem payload number s w positive fits mapped inside =
      let start : ℕ = number * max_data_len in
      elim (Bool-cases (ltb (length payload) max_data_len)) [
        | inl short ↦ rw (
          short,
          lt→ltb 0 (length payload) positive,
          slice-pad payload,
          write_map_lem start payload s.file mapped inside,
        )
        | inr full ↦
            let whole : length payload ≡ max_data_len =
              omega (arith, ltb-false→le (length payload) max_data_len full) in
            let copied =
              ap (λ (k : ℕ). write_map start (start + k) payload s.file) (sym whole)
              ∙ write_map_lem start payload s.file mapped inside in
            rw (full, pad_whole payload whole, copied)
      ]

  -- A block is whole, or the file does not reach past its end.
  abbrev pub Uncut : ℕ → Bytes → ReceiveFile bits → Type 0
  Uncut number payload s =
      (length s.file.content ≤ number * max_data_len + length payload)
      ⊎ ((length payload ≡ max_data_len) × ((k : ℕ) × (s.highest_block ≡ some k) × (number ≤ k)))

  pub fit_lem :
      (payload : Bytes) (number : ℕ) (s : ReceiveFile bits) (w : World)
      → Works s.file
      → s.file.map_len ≡ length s.file.content
      → 0 < length payload
      → Uncut number payload s
      → (g : Storage) × Fitted (number * max_data_len + length payload) s.file g
        × (fit (padded payload number) s.highest_block (s, w)
            ≡ (ok tt, (record s { file = g; highest_block = some number }, w)))
  unfolding fit ◌>>=◌ update self on_file pure
  fit_lem payload number s w works same positive uncut =
      let end : ℕ = number * max_data_len + length payload in
      let swapped : max_data_len * number + length payload ≡ end = omega arith in
      let grown = remap-Works end s.file works (omega arith) in
      elim (Option-cases s.highest_block) [
        | inl e ↦
            (widened end s.file, widened-Fitted end s.file works (short e), rw (e, swapped, grown))
        | inr (k, e) ↦
            elim (Bool-cases
              (ltb k number || ltb s.file.map_len (max_data_len * number + length payload))) [
                | inl past ↦ (
                  widened end s.file,
                  widened-Fitted end s.file works (reach k e past),
                  rw (e, past, swapped, grown),
                )
                | inr inside ↦ (
                  s.file,
                  record {
                    works = works;
                    zeros = 0;
                    content = sym (append-nil s.file.content);
                    mapped = omega (
                      arith,
                      stays k number s.file.map_len (max_data_len * number + length payload) inside,
                    );
                    same_len = same;
                    ends = inl refl;
                  },
                  rw (e, inside),
                )
              ]
      ]
    where
      short :
          s.highest_block ≡ none → length s.file.content ≤ number * max_data_len + length payload
      short e = elim uncut [ inl h ↦ h | inr (whole, (k, e', le)) ↦ cc ]

      same_highest : (k j : ℕ) → s.highest_block ≡ some k → s.highest_block ≡ some j → k ≡ j
      same_highest k j e f = cc

      reach :
          (k : ℕ)
          → s.highest_block ≡ some k
          → (ltb k number || ltb s.file.map_len (max_data_len * number + length payload)) ≡ true
          → length s.file.content ≤ number * max_data_len + length payload
      reach k e past = elim uncut [
        | inl h ↦ h
        | inr (whole, (j, e', le)) ↦ omega (
          arith,
          same_highest k j e e',
          grows k number s.file.map_len (max_data_len * number + length payload) past
              (omega (arith, same_highest k j e e')),
        )
      ]
