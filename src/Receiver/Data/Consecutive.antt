-- ===== src/Receiver/Data/Consecutive.antt =====
-- `consec_recv` against the set of received blocks, in the operations on data.
use rust_tftp.BitSets.{BitSets}
use rust_tftp.Common.{
  ℕ, ◌≤◌, ◌≡◌, refl, sym, ap, ◌∙◌, Bool, true, false, Option, none, some, ◌==◌, if◌then◌else◌,
}
use rust_tftp.Common.State.{Run}
use rust_tftp.Common.State.Keeps.{
  Keeps, Keeps-if, Keeps-ignore, Keeps-pure, Keeps-bind, Keeps-lift, Keeps-attempt, Keeps-fail,
  keeps_rules,
}
use rust_tftp.Errors.{IoError}
use rust_tftp.Header.Types.{DataHeader}
use rust_tftp.Net.{World}
use rust_tftp.Receiver.Data.{send_ack, fit, store_block, ack_data, take_data, handle_data}
use rust_tftp.Receiver.Packets.{update_average}
use rust_tftp.Receiver.Storage.{Storage, ReceiveFile, on_file}
use rust_tftp.Transfer.Session.{update}
use rust_tftp.Transfer.Session.Objects.{
  InObject, InObject-world, InObject-self, InObject-update, InObject-with_lock, object_rules,
}

module _ {bits : BitSets} where
  -- All blocks up to `consec_recv` are received.
  pub record IsConsecutive (s : ReceiveFile bits) : Type 0 where
    pub has : (c : ℕ) → s.consec_recv ≡ some c → (j : ℕ) → j ≤ c → bits.contains s.received j ≡ true

  abbrev pub Good : ReceiveFile bits × World → Type 0
  Good = InObject IsConsecutive

  -- An update of other fields.
  same :
      (s t : ReceiveFile bits)
      → s.consec_recv ≡ t.consec_recv
      → s.received ≡ t.received
      → IsConsecutive s
      → IsConsecutive t
  same s t e f g = record {
    has = λ c h j le. ap (λ (r : bits.BitSet). bits.contains r j) (sym f) ∙ g.has c (e ∙ h) j le;
  }

  pub update-Good :
      (f : ReceiveFile bits → ReceiveFile bits)
      → ((s : ReceiveFile bits) → s.consec_recv ≡ (f s).consec_recv)
      → ((s : ReceiveFile bits) → s.received ≡ (f s).received)
      → Keeps {E = IoError} Good (update f)
  update-Good f e r = InObject-update f λ s g. same s (f s) (e s) (r s) g

  pub on_file-Good : {A : Type 0} (m : Run Storage IoError A) → Keeps Good (on_file m)
  unfolding on_file
  on_file-Good m = record {
    at =
        λ t g. record { holds = same t.0 (record t.0 { file = (m t.0.file).1 }) refl refl g.holds };
  }

  pub insert-Good :
      (n : ℕ)
      → Keeps {E = IoError} Good (update λ s. record s { received = bits.insert s.received n })
  insert-Good n = InObject-update _ λ s g. record {
    has = λ c e j le. bits.contains-insert s.received n j ∙ either (n == j) _ (g.has c e j le);
  }
    where
      either : (b x : Bool) → x ≡ true → (if b then true else x) ≡ true
      either true x e = refl
      either false x e = e

  pub ruleset good_rules =
      (keeps_rules, InObject-world, InObject-self, InObject-with_lock, on_file-Good, insert-Good)

  pub send_ack-Good : (debug : Bool) (n : ℕ) → Keeps Good (send_ack debug n)
  unfolding send_ack
  send_ack-Good debug n = search good_rules depth 12

  fit-Good : (h : DataHeader) (o : Option ℕ) → Keeps Good (fit h o)
  unfolding fit
  fit-Good h none = Keeps-bind (update-Good _ (λ s. refl) λ s. refl) λ _. on_file-Good _
  fit-Good h (some k) =
      Keeps-bind (update-Good _ (λ s. refl) λ s. refl) λ _. search good_rules depth 12

  store_block-Good : (h : DataHeader) → Keeps Good (store_block h)
  unfolding store_block
  store_block-Good h = search (good_rules, update-Good) depth 12

  take_data-Good : (h : DataHeader) → Keeps Good (take_data h)
  unfolding take_data
  take_data-Good h = Keeps-bind (InObject-world _) λ t.
      Keeps-bind (update-Good _ (λ s. refl) λ s. refl)
        λ _. search (good_rules, fit-Good, store_block-Good) depth 12

  ack_data-Good : (debug b : Bool) (n : ℕ) → Keeps Good (ack_data debug b n)
  unfolding ack_data
  ack_data-Good debug true n = search (good_rules, send_ack-Good)
  ack_data-Good debug false n = search good_rules

  pub handle_data-Good : (debug : Bool) (h : DataHeader) → Keeps Good (handle_data debug h)
  unfolding handle_data
  handle_data-Good debug h = search (good_rules, ack_data-Good, take_data-Good) depth 8

  pub update_average-Good : Keeps Good update_average
  unfolding update_average
  update_average-Good = Keeps-bind (InObject-world _) λ t.
      Keeps-bind InObject-self
        λ s. Keeps-bind (InObject-world _) λ u. update-Good _ (λ s. refl) λ s. refl
