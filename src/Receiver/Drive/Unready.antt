-- ===== src/Receiver/Drive/Unready.antt =====
-- `ReceiveFile::poll` before the last block is seen.
use rust_tftp.BitSets.{BitSets}
use rust_tftp.Common.{
  ℕ, zero, suc, Bool, false, ◌≡◌, ◌≢◌, Option, none, some, ◌⊎◌, inl, inr, leb, if◌then◌else◌, List,
}
use rust_tftp.Common.Outcome.{ok}
use rust_tftp.Common.State.{◌>>=◌, pure}
use rust_tftp.Common.State.Any.{Any}
use rust_tftp.Common.State.Keeps.{
  Keeps, Keeps-bind, Keeps-lift, Keeps-if, Keeps-ignore, Keeps-pure, keeps_rules,
}
use rust_tftp.Common.State.Yields.{
  Yields, Returned, Returned-ok, Yields-bind, Yields-fail, Yields-after, yields_rules,
}
use rust_tftp.Errors.{IoError}
use rust_tftp.Header.Types.{Header}
use rust_tftp.Net.{World}
use rust_tftp.Receiver.Data.{send_ack}
use rust_tftp.Receiver.Drive.{advance_from, catch_up, complete, after_headers, await_data, poll}
use rust_tftp.Receiver.Packets.{after_try, fail_loop, give_up}
use rust_tftp.Receiver.Storage.{ReceiveFile}
use rust_tftp.Transfer.Session.{ready, not_ready, max_attempts, Method, self}
use rust_tftp.Transfer.Session.Objects.{InObject, InObject-self, InObject-update, object_rules}

module _ {bits : BitSets} (debug : Bool) where
  after_try-Yields :
      {A : Type 0} {Q : A → Type 0} (e : IoError) (rest : Method (ReceiveFile bits) IoError A)
      → Yields Any Q rest
      → (r : IoError ⊎ Option (Unit {0})) → Yields Any Q (after_try debug e rest r)
  unfolding after_try
  after_try-Yields e rest k (inr (some x)) = Yields-fail e
  after_try-Yields e rest k (inr none) = k
  after_try-Yields e rest k (inl x) = k

  fail_loop-Yields :
      {A : Type 0} {Q : A → Type 0} (rounds : ℕ) (e : IoError)
      → Yields {S = ReceiveFile bits × World} Any Q (fail_loop debug rounds e)
  unfolding fail_loop
  fail_loop-Yields zero e = search yields_rules
  fail_loop-Yields (suc rounds) e =
      Yields-after _ λ r. after_try-Yields e _ (fail_loop-Yields rounds e) r

  give_up-Yields :
      {A : Type 0} {Q : A → Type 0} (e : IoError)
      → Yields {S = ReceiveFile bits × World} Any Q (give_up debug e)
  unfolding give_up
  give_up-Yields e = fail_loop-Yields max_attempts e

  -- No block so far was the last one.
  abbrev Unfinished : ReceiveFile bits × World → Type 0
  Unfinished = InObject λ (s : ReceiveFile bits). s.received_last_block ≡ false

  send_ack-Unfinished : (n : ℕ) → Keeps Unfinished (send_ack debug n)
  unfolding send_ack
  send_ack-Unfinished n = search (keeps_rules, object_rules) depth 12

  advance_from-Unfinished : (c : Option ℕ) → Keeps Unfinished (advance_from debug c)
  unfolding advance_from
  advance_from-Unfinished none = search keeps_rules
  advance_from-Unfinished (some c) = Keeps-bind InObject-self λ s. Keeps-bind (Keeps-lift _) λ r.
      Keeps-bind (InObject-update _ λ s p. p)
        λ _. Keeps-if (leb c r) (Keeps-ignore (send_ack-Unfinished r)) (Keeps-pure tt)

  catch_up-Unfinished : Keeps Unfinished (catch_up debug)
  unfolding catch_up
  catch_up-Unfinished = search (keeps_rules, object_rules, advance_from-Unfinished) depth 12

  after_headers-Yields :
      (n : ℕ) (r : IoError ⊎ Option (List Header))
      → Yields {S = ReceiveFile bits × World} Any (λ a. a ≡ not_ready) (after_headers debug n r)
  unfolding after_headers
  after_headers-Yields n (inr (some headers)) = search yields_rules
  after_headers-Yields n (inr none) = search yields_rules
  after_headers-Yields n (inl e) = search (yields_rules, give_up-Yields) depth 8

  await_data-Yields :
      (rounds : ℕ)
      → Yields {S = ReceiveFile bits × World} Any (λ a. a ≡ not_ready) (await_data debug rounds)
  unfolding await_data
  await_data-Yields rounds = search (yields_rules, give_up-Yields, after_headers-Yields) depth 8

  -- Poll from a state after `catch_up`.
  complete-Unfinished :
      (t : ReceiveFile bits × World) → Unfinished t → complete debug t ≡ (ok false, t)
  unfolding complete ◌>>=◌ self pure
  complete-Unfinished t u = simp u.holds

  poll_after :
      (rounds : ℕ) (t : ReceiveFile bits × World)
      → Unfinished t
      → Returned
          (λ a. a ≡ not_ready)
          ((complete debug >>= λ is_complete.
              if is_complete then pure (ready tt) else await_data debug rounds)
            t).0
  unfolding ◌>>=◌
  poll_after rounds t u = rw (complete-Unfinished t u) ((await_data-Yields rounds).at t tt)

  poll-Yields : (rounds : ℕ) → Yields Unfinished (λ a. a ≡ not_ready) (poll debug rounds)
  unfolding poll
  poll-Yields rounds = Yields-bind catch_up-Unfinished λ _. record { at = poll_after rounds }

  -- Where no block so far was shorter than MAX_DATA_LEN, so that the flag of the last block is not
  -- set, poll does not return that the transfer is complete, whatever the world answers.
  pub poll_unfinished :
      (rounds : ℕ) (s : ReceiveFile bits) (w : World)
      → s.received_last_block ≡ false
      → (poll debug rounds (s, w)).0 ≢ ok (ready tt)
  poll_unfinished rounds s w u done =
      let stays : ready tt ≡ not_ready =
        Returned-ok (λ a. a ≡ not_ready) _ (ready tt)
          ((poll-Yields rounds).at (s, w) (record { holds = u })) done in
      cc
