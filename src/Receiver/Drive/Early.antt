-- ===== src/Receiver/Drive/Early.antt =====
-- `ReceiveFile::poll` after the last block and the first one came, in that order.
use rust_tftp.BitSets.{BitSets}
use rust_tftp.Common.{
  sym, ℕ, suc, ◌*◌, ◌+◌, ◌≤◌, ◌<◌, ◌≡◌, ◌≢◌, refl, arith, Bool, true, false, inl, inr, List, [],
  ◌∷◌, length, ltb, lt→ltb, ne→==, if◌then◌else◌,
}
use rust_tftp.Common.Outcome.{ok}
use rust_tftp.Common.Slices.{Bytes}
use rust_tftp.Common.State.{◌>>=◌, pure, attempt}
use rust_tftp.Header.Data.Wire.{padded}
use rust_tftp.Header.Types.{max_data_len, Header}
use rust_tftp.Net.{World}
use rust_tftp.Receiver.Data.Putting.{Fitted, Uncut}
use rust_tftp.Receiver.Data.Refines.{handle_data_stored, same_len-stored, stored_in}
use rust_tftp.Receiver.Data.Storing.{Works}
use rust_tftp.Receiver.Drive.{after_data, handle_headers, poll}
use rust_tftp.Receiver.Drive.Completion.{AcksSend, poll_complete}
use rust_tftp.Receiver.Storage.{Storage, ReceiveFile}
use rust_tftp.Transfer.Session.{ready}

still_seen : (b seen : Bool) → seen ≡ true → (if b then true else seen) ≡ true
still_seen b seen e = ground arith

still_out :
    (same has x : Bool) → x ≡ (if same then true else has) → same ≡ false → has ≡ false → x ≡ false
still_out same has x e f h = ground arith

module _ {bits : BitSets} (debug : Bool) where
  -- One block at the head of the headers.
  handled_first :
      (payload : Bytes) (number : ℕ) (headers : List Header) (s : ReceiveFile bits) (w : World)
      → Works s.file
      → s.file.map_len ≡ length s.file.content
      → w.stop_and_wait ≡ false
      → 0 < length payload
      → length payload ≤ max_data_len
      → Uncut number payload s
      → (g : Storage) × Fitted (number * max_data_len + length payload) s.file g
        × (handle_headers debug (Header.block (padded payload number) ∷ headers) (s, w)
            ≡ handle_headers debug headers (
              stored_in payload number s g (w.clock 0),
              record w { clock = λ n. w.clock (suc n) },
            ))
  unfolding handle_headers ◌>>=◌ attempt after_data pure
  handled_first payload number headers s w works same async positive fits uncut =
      let (g, t, result) =
        handle_data_stored debug payload number s w works same async positive fits uncut in
      (g, t, rw result refl)

  -- Where the calls of the system succeed, the lock is free and each send is answered with the
  -- length of an acknowledgement, a receiver that handles a block k with at least one byte and
  -- fewer than MAX_DATA_LEN, and then block 0 with MAX_DATA_LEN bytes, outside of stop-and-wait,
  -- with a file that is mapped whole and does not reach past the end of block k, ends without an
  -- error and still misses every other block that it missed, and its next poll returns that the
  -- transfer is complete.
  pub poll_early :
      (rounds : ℕ) (first last : Bytes) (k : ℕ) (s : ReceiveFile bits) (w : World)
      → Works s.file
      → s.file.map_len ≡ length s.file.content
      → length s.file.content ≤ k * max_data_len + length last
      → AcksSend w
      → w.stop_and_wait ≡ false
      → 0 < length last
      → length last < max_data_len
      → length first ≡ max_data_len
      → let (o, (t, v)) =
          handle_headers debug
            (Header.block (padded last k) ∷ Header.block (padded first 0) ∷ [])
            (s, w) in
        (o ≡ ok tt)
        × ((j : ℕ)
            → j ≢ 0
            → j ≢ k
            → bits.contains s.received j ≡ false
            → bits.contains t.received j ≡ false)
        × ((poll debug rounds (t, v)).0 ≡ ok (ready tt))
  unfolding max_data_len handle_headers pure
  poll_early rounds first last k s w works same small sends async positive short whole =
      let v : World = record w { clock = λ n. w.clock (suc n) } in
      let (g, fitted, came) =
        handled_first last k (Header.block (padded first 0) ∷ []) s w works same async positive
          (omega arith) (inl small) in
      let s1 : ReceiveFile bits = stored_in last k s g (w.clock 0) in
      let (h, fitted1, came1) =
        handled_first first 0 [] s1 v
          (record { answers_none = fitted.works.answers_none; maps = fitted.works.maps })
          (same_len-stored last k s.file g fitted) async (omega arith) (omega arith)
          (inr (whole, (k, refl, omega arith))) in
      let seen : s1.received_last_block ≡ true =
        rw (lt→ltb (length last) max_data_len short) refl in
      let after =
        poll_complete debug rounds 0 (stored_in first 0 s1 h (v.clock 0))
          (record v { clock = λ n. v.clock (suc n) })
          (record { free = sends.free; whole = sends.whole })
          (still_seen (ltb (length first) max_data_len) s1.received_last_block seen) refl
          (λ i below. absurd (omega arith)) in
      rw (came, came1)
        (
          refl,
          (λ j other further missing.
              still_out _ _ _ (bits.contains-insert s1.received 0 j) (ne→== 0 j λ e. other (sym e))
                (still_out _ _ _ (bits.contains-insert s.received k j)
                  (ne→== k j λ e. further (sym e)) missing)),
          after.0,
        )
