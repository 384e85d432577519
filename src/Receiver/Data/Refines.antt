-- ===== src/Receiver/Data/Refines.antt =====
-- `ReceiveFile` as a map from the numbers of received blocks to their payloads.
use rust_tftp.BitSets.{BitSets}
use rust_tftp.Common.{
  ℕ, suc, ◌+◌, ◌*◌, ◌≤◌, ◌<◌, ◌≡◌, ◌≢◌, refl, sym, ap, ◌∙◌, arith, Bool, true, false, Option, none,
  some, ◌⊎◌, inl, inr, length, replicate, length-append, ==→eq, ◌==◌, if◌then◌else◌, Bool-cases,
}
use rust_tftp.Common.Outcome.{ok}
use rust_tftp.Common.Slices.{Bytes}
use rust_tftp.Common.Splices.{
  part, splice, part-append, part-splice_before, part-splice_past, part-splice, part-splice_last,
  length-splice,
}
use rust_tftp.Common.State.{next, ◌>>=◌, pure}
use rust_tftp.Header.Data.Wire.{padded}
use rust_tftp.Header.Types.{max_data_len}
use rust_tftp.Net.{World, now}
use rust_tftp.Receiver.Data.{ack_data, take_data, handle_data}
use rust_tftp.Receiver.Data.Putting.{spliced, Fitted, store_block_lem, Uncut, fit_lem}
use rust_tftp.Receiver.Data.Storing.{Works, received_block}
use rust_tftp.Receiver.Storage.{Storage, ReceiveFile}
use rust_tftp.Sender.Blocks.Cut.{chunk}
use rust_tftp.Transfer.Session.{world, self, update}

-- The abstract receiver, and a new block in it.
abbrev pub put : ℕ → Bytes → (ℕ → Option Bytes) → ℕ → Option Bytes
put number payload blocks i = if number == i then some payload else blocks i

module _ {bits : BitSets} where
  abbrev pub view : ReceiveFile bits → ℕ → Option Bytes
  view s i = if bits.contains s.received i then some (chunk i s.file.content) else none

  -- The file is mapped whole, and it holds the received blocks whole.
  pub record IsMapped (s : ReceiveFile bits) : Type 0 where
    pub works : Works s.file
    pub same_len : s.file.map_len ≡ length s.file.content
    pub holds :
        (i : ℕ)
        → bits.contains s.received i ≡ true
        → i * max_data_len + max_data_len ≤ length s.file.content

module _ (payload : Bytes) (number : ℕ) (f g : Storage)
    (t : Fitted (number * max_data_len + length payload) f g) where
  abbrev new_content : Bytes
  new_content = splice g.content (number * max_data_len) payload

  ends_inside : number * max_data_len + length payload ≤ length g.content
  ends_inside = omega (arith, t.mapped, t.same_len)

  longer : length f.content ≤ length g.content
  longer = omega (arith, ap length t.content, length-append f.content (replicate t.zeros 0))

  chunk-kept :
      (i : ℕ)
      → number ≢ i
      → i * max_data_len + max_data_len ≤ length f.content
      → length payload ≤ max_data_len
      → chunk i new_content ≡ chunk i f.content
  unfolding max_data_len
  chunk-kept i other holds fits =
      beside (below-or-past other)
      ∙ ap (λ (c : Bytes). chunk i c) t.content
      ∙ part-append (i * max_data_len) max_data_len f.content (replicate t.zeros 0) holds
    where
      below-or-past : number ≢ i → (i < number) ⊎ (number < i)
      below-or-past ne = ground arith

      beside : (i < number) ⊎ (number < i) → chunk i new_content ≡ chunk i g.content
      beside (inl h) =
          part-splice_before g.content payload (number * max_data_len) (omega (arith, ends_inside))
            (i * max_data_len) max_data_len (omega arith)
      beside (inr h) =
          part-splice_past g.content payload (number * max_data_len) (omega (arith, ends_inside))
            (i * max_data_len) max_data_len (omega arith)

  chunk-new_whole : length payload ≡ max_data_len → chunk number new_content ≡ payload
  chunk-new_whole whole =
      ap (λ (k : ℕ). part (number * max_data_len) k new_content) (sym whole)
      ∙ part-splice g.content payload (number * max_data_len) (omega (arith, ends_inside))

  chunk-new_last :
      length payload ≤ max_data_len
      → length f.content ≤ number * max_data_len + length payload
      → chunk number new_content ≡ payload
  chunk-new_last fits short =
      part-splice_last g.content payload (number * max_data_len) (omega (arith, ends_inside))
        max_data_len fits
        (elim t.ends [
          | inl e ↦ omega (arith, ap (λ (h : Storage). length h.content) e)
          | inr e ↦ omega (arith, e)
        ])

chosen :
    {A : Type 0} (same has x : Bool) (new p old : A)
    → x ≡ (if same then true else has)
    → (same ≡ true → new ≡ p)
    → (same ≡ false → has ≡ true → new ≡ old)
    → (if x then some new else none) ≡ (if same then some p else (if has then some old else none))
chosen true has x new p old e k l = rw (e, k refl) refl
chosen false true x new p old e k l = rw (e, l refl refl) refl
chosen false false x new p old e k l = rw e refl

==-false→ne : (a b : ℕ) → (a == b) ≡ false → a ≢ b
==-false→ne a b e = ground arith

was_in :
    (same has x : Bool) → x ≡ (if same then true else has) → same ≡ false → x ≡ true → has ≡ true
was_in same has x e f h = ground arith

-- The file after the copy is mapped as it was before.
pub same_len-stored :
    (payload : Bytes) (number : ℕ) (f g : Storage)
    → Fitted (number * max_data_len + length payload) f g
    → g.map_len ≡ length (splice g.content (number * max_data_len) payload)
same_len-stored payload number f g t =
    let inside = ends_inside payload number f g t in
    t.same_len ∙ sym (length-splice g.content payload (number * max_data_len) (omega arith) inside)

module _ {bits : BitSets} (payload : Bytes) (number : ℕ) (s : ReceiveFile bits) (g : Storage) where
  -- The receiver after `take_data`, with the file `g` before the copy.
  abbrev pub stored_in : ℕ → ReceiveFile bits
  stored_in time =
      received_block (padded payload number) (spliced (number * max_data_len) payload g) time s

  module _ (time : ℕ) (t : Fitted (number * max_data_len + length payload) s.file g)
      (m : IsMapped s) (fits : length payload ≤ max_data_len) where
    view-stored_in :
        Uncut number payload s → (i : ℕ) → view (stored_in time) i ≡ put number payload (view s) i
    view-stored_in uncut i =
        chosen (number == i) (bits.contains s.received i) _ _ payload _
          (bits.contains-insert s.received number i)
          (λ e.
            ap (λ (n : ℕ). chunk n (new_content payload number s.file g t)) (sym (==→eq number i e))
            ∙ new uncut)
          (λ e has.
            chunk-kept payload number s.file g t i (==-false→ne number i e) (m.holds i has) fits)
      where
        new :
            Uncut number payload s → chunk number (new_content payload number s.file g t) ≡ payload
        new (inl short) = chunk-new_last payload number s.file g t fits short
        new (inr (whole, inside)) = chunk-new_whole payload number s.file g t whole

    stored_in-IsMapped : length payload ≡ max_data_len → IsMapped (stored_in time)
    stored_in-IsMapped whole =
        let same : length (new_content payload number s.file g t) ≡ length g.content =
          length-splice g.content payload (number * max_data_len)
            (omega (arith, ends_inside payload number s.file g t))
            (ends_inside payload number s.file g t) in
        let inside = ends_inside payload number s.file g t in
        record {
          works = record { answers_none = t.works.answers_none; maps = t.works.maps };
          same_len = t.same_len ∙ sym same;
          holds = λ i has. elim (Bool-cases (number == i)) [
            | inl e ↦
                omega
                  (arith, same, inside, whole, ap (λ (n : ℕ). n * max_data_len) (==→eq number i e))
            | inr e ↦ omega (
              arith,
              same,
              longer payload number s.file g t,
              m.holds i (was_in _ _ _ (bits.contains-insert s.received number i) e has),
            )
          ];
        }

module _ {bits : BitSets} (debug : Bool) (payload : Bytes) (number : ℕ) (s : ReceiveFile bits)
    (w : World) where
  pub handle_data_stored :
      Works s.file
      → s.file.map_len ≡ length s.file.content
      → w.stop_and_wait ≡ false
      → 0 < length payload
      → length payload ≤ max_data_len
      → Uncut number payload s
      → (g : Storage) × Fitted (number * max_data_len + length payload) s.file g
        × (handle_data debug (padded payload number) (s, w) ≡ (
          ok (some tt),
          (stored_in payload number s g (w.clock 0), record w { clock = λ n. w.clock (suc n) }),
        ))
  unfolding handle_data take_data ◌>>=◌ world self update now pure ack_data
  handle_data_stored works mapped async positive fits uncut =
      let (g, t, fitted) =
        fit_lem payload number (record s { last_time = w.clock 0 })
          (record w { clock = λ n. w.clock (suc n) }) works mapped positive uncut in
      let stored =
        store_block_lem payload number
          (record s {
            file = g;
            highest_block = some number;
            received = bits.insert s.received number;
            last_time = w.clock 0;
          })
          (record w { clock = λ n. w.clock (suc n) }) positive fits t.mapped
          (ends_inside payload number s.file g t) in
      (
        g,
        t,
        ap
              (λ (b : Bool).
                next (ack_data debug b number (s, w)) λ _. take_data (padded payload number))
              async
            ∙ rw (fitted, stored),
      )

  -- Where the calls of the system succeed, the file is mapped whole and holds the received blocks
  -- whole, handle_data of a block that is whole and not past the field highest_block, or behind
  -- whose end the file has nothing, is a write to the map from received numbers to payloads: that
  -- number has the payload and all others are unchanged; after a whole block the file is mapped
  -- and holds the received blocks whole again.
  pub handle_data-put :
      IsMapped s
      → w.stop_and_wait ≡ false
      → 0 < length payload
      → length payload ≤ max_data_len
      → Uncut number payload s
      → let (o, (t, v)) = handle_data debug (padded payload number) (s, w) in
        (o ≡ ok (some tt))
        × ((i : ℕ) → view t i ≡ put number payload (view s) i)
        × (length payload ≡ max_data_len → IsMapped t)
  handle_data-put m async positive fits uncut =
      let (g, t, result) = handle_data_stored m.works m.same_len async positive fits uncut in
      rw result (
        refl,
        view-stored_in payload number s g (w.clock 0) t m fits uncut,
        stored_in-IsMapped payload number s g (w.clock 0) t m fits,
      )
