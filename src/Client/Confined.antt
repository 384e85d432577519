-- ===== src/Client/Confined.antt =====
-- Which files a request changes.
use rust_tftp.BitSets.{BitSets}
use rust_tftp.Client.Files.{
  Disk, with_file, file_at, read_at, open_file, created_at, create_file, on_disk, with_object,
  with_receiver,
}
use rust_tftp.Client.Requests.{
  TftpClient, path_of, after_recv, receive_header, receive_file, handle_write_request, unwrapped,
  answer_read, handle_read_request,
}
use rust_tftp.Client.Serving.{handle_header, handle_server_request}
use rust_tftp.Common.{
  ℕ, Bool, true, Option, none, some, ◌⊎◌, inl, inr, ◌++◌, ◌≡◌, ◌≢◌, refl, sym, ap, ◌∙◌, ne→==,
}
use rust_tftp.Common.Outcome.{Outcome, ok, err, panic, hang}
use rust_tftp.Common.State.{next, caught, pure, ◌>>=◌, attempt}
use rust_tftp.Common.Slices.{Bytes}
use rust_tftp.Common.State.Keeps.{
  Keeps, Keeps-bind, Keeps-lift, Keeps-pure, Keeps-fail, Keeps-attempt, Keeps-ignore, keeps_rules,
}
use rust_tftp.Common.Text.{codes}
use rust_tftp.Errors.{IoError, TftpError, io_error}
use rust_tftp.Header.Types.{Header, read_request, write_request, RwHeader}
use rust_tftp.Net.{SocketAddr, World}
use rust_tftp.Receiver.Storage.{Storage, ReceiveFile}
use rust_tftp.Sender.Blocks.{SendFile}
use rust_tftp.Transfer.Session.{Method}
use rust_tftp.Transfer.Session.Objects.{
  InObject, InObject-world, InObject-self, InObject-update, InObject-with_lock,
}

module _ (i : ℕ) (file : Option Bytes) (resolve : Bytes → ℕ) where
  -- The bytes of the file `i`, and the file that each path names.
  pub record Has (d : Disk) : Type 0 where
    pub is_file : d.content i ≡ file
    pub is_resolve : d.resolve ≡ resolve

  abbrev pub HasFile : Disk × World → Type 0
  HasFile = InObject Has

  with_file-Has :
      (path bytes : Bytes) (d : Disk) → resolve path ≢ i → Has d → Has (with_file path bytes d)
  with_file-Has path bytes d other h =
      let names : d.resolve path ≡ resolve path = ap (λ (f : Bytes → ℕ). f path) h.is_resolve in
      record {
        is_file = rw (ne→== i (d.resolve path) λ e. other (sym names ∙ sym e)) h.is_file;
        is_resolve = h.is_resolve;
      }

  with_object-Has :
      {T E A : Type 0} (object : T) (m : Method T E A) → Keeps HasFile (with_object object m)
  unfolding with_object
  with_object-Has object m = record { at = λ t q. record { holds = q.holds } }

  open_file-Has : (path : Bytes) → Keeps HasFile (on_disk (open_file path))
  unfolding on_disk open_file
  open_file-Has path = record {
    at = λ t q. record { holds = read (t.0.open_error path) (file_at t.0 path) q.holds };
  }
    where
      read : {d : Disk} (o : Option IoError) (c : Option Bytes) → Has d → Has (read_at d o c).1
      read none none h = h
      read none (some c) h = h
      read (some e) c h = h

  module _ (path : Bytes) (other : resolve path ≢ i) where
    create_file-Has : (truncate : Bool) → Keeps HasFile (on_disk (create_file truncate path))
    unfolding on_disk create_file
    create_file-Has truncate = record {
      at = λ t q. record { holds = create t.0 _ (t.0.open_error path) q.holds };
    }
      where
        create :
            (d : Disk) (bytes : Bytes) (o : Option IoError)
            → Has d
            → Has (created_at path bytes d o).1
        create d bytes none h = with_file-Has path bytes d other h
        create d bytes (some e) h = h

    with_receiver-Has :
        {bits : BitSets} {E A : Type 0} (object : ReceiveFile bits)
        (m : Method (ReceiveFile bits) E A)
        → Keeps HasFile (with_receiver path object m)
    unfolding with_receiver
    with_receiver-Has object m = record {
      at = λ t q. record { holds = with_file-Has path _ t.0 other q.holds };
    }

    receive_file-Has :
        (bits : BitSets) (debug : Bool) (rounds : ℕ) (host : SocketAddr) (storage : Storage)
        → Keeps HasFile (receive_file bits debug rounds host path storage)
    unfolding receive_file
    receive_file-Has bits debug rounds host storage =
        Keeps-bind (InObject-update _ λ d h. with_file-Has path _ d other h)
          λ _. Keeps-bind (InObject-world _) λ s. with_receiver-Has s _

  after_recv-Has : (r : TftpError ⊎ Header) → Keeps HasFile (after_recv r)
  unfolding after_recv
  after_recv-Has (inr r) = search keeps_rules
  after_recv-Has (inl (io_error e)) = search keeps_rules
  after_recv-Has (inl _) = search keeps_rules

module _ (i : ℕ) (file : Option Bytes) (resolve : Bytes → ℕ) (bits : BitSets) (debug : Bool)
    (rounds : ℕ) where
  unwrapped-Has :
      (r : IoError ⊎ SendFile bits) → Keeps (HasFile i file resolve) (unwrapped bits debug rounds r)
  unfolding unwrapped
  unwrapped-Has (inl e) = search keeps_rules
  unwrapped-Has (inr s) = search keeps_rules

  answer_read-Has :
      (path : Bytes) (c : TftpClient) (r : IoError ⊎ Bytes)
      → Keeps (HasFile i file resolve) (answer_read bits debug rounds path c r)
  unfolding answer_read
  answer_read-Has path c (inl e) =
      Keeps-bind (Keeps-lift _)
        λ s. Keeps-bind (with_object-Has i file resolve s _) λ _. Keeps-fail e
  answer_read-Has path c (inr bytes) = Keeps-bind InObject-self λ d.
      Keeps-bind (Keeps-attempt (InObject-world _))
        λ r. Keeps-bind (unwrapped-Has r) λ s. with_object-Has i file resolve s _

  handle_read_request-Has :
      (h : RwHeader read_request) (c : TftpClient)
      → Keeps (HasFile i file resolve) (handle_read_request bits debug rounds h c)
  unfolding handle_read_request
  handle_read_request-Has h c =
      Keeps-bind (Keeps-attempt (open_file-Has i file resolve _)) λ r. answer_read-Has _ c r

  handle_write_request-Has :
      (h : RwHeader write_request) (c : TftpClient)
      → resolve (c.data_folder ++ codes "/" ++ h.filename) ≢ i
      → Keeps (HasFile i file resolve) (handle_write_request bits debug rounds h c)
  unfolding handle_write_request
  handle_write_request-Has h c other =
      Keeps-bind (create_file-Has i file resolve (path_of c h.filename) other true) λ storage.
        receive_file-Has i file resolve (path_of c h.filename) other bits debug rounds c.host_addr
          storage

  receive_header-Has : (c : TftpClient) → Keeps (HasFile i file resolve) (receive_header debug c)
  unfolding receive_header
  receive_header-Has c =
      InObject-with_lock
        (Keeps-bind (Keeps-attempt (InObject-world _)) (after_recv-Has i file resolve))
        (Keeps-pure none)

  -- What follows the header of a request.
  handled-Has :
      (c : TftpClient) (r : Outcome IoError (Option Header) × (Disk × World))
      → ((h : RwHeader write_request)
          → r.0 ≡ ok (some (Header.write h))
          → resolve (c.data_folder ++ codes "/" ++ h.filename) ≢ i)
      → HasFile i file resolve r.1
      → HasFile i file resolve (next (caught {F = IoError} r) (handle_header bits debug rounds c)).1
  unfolding handle_header pure
  handled-Has c (ok (some (Header.write h)), x) others q =
      (Keeps-ignore (handle_write_request-Has h c (others h refl))).at x q
  handled-Has c (ok (some (Header.read h)), x) others q =
      (Keeps-ignore (handle_read_request-Has h c)).at x q
  handled-Has c (ok (some (Header.ack h)), x) others q = q
  handled-Has c (ok (some (Header.block h)), x) others q = q
  handled-Has c (ok (some (Header.error h)), x) others q = q
  handled-Has c (ok (some (Header.invalid h)), x) others q = q
  handled-Has c (ok none, x) others q = q
  handled-Has c (err e, x) others q = q
  handled-Has c (panic, x) others q = q
  handled-Has c (hang, x) others q = q

-- However it ends, handle_server_request changes no file but the one that the path of the data
-- folder, a slash and the filename of the request names to the operating system, and that one only
-- where receive_header returned a write request.
pub handle_server_request-content :
    (bits : BitSets) (debug : Bool) (rounds i : ℕ) (c : TftpClient) (d : Disk) (w : World)
    → ((h : RwHeader write_request)
        → (receive_header debug c (d, w)).0 ≡ ok (some (Header.write h))
        → d.resolve (c.data_folder ++ codes "/" ++ h.filename) ≢ i)
    → (handle_server_request bits debug rounds c (d, w)).1.0.content i ≡ d.content i
unfolding handle_server_request ◌>>=◌ attempt
handle_server_request-content bits debug rounds i c d w others =
    let start : HasFile i (d.content i) d.resolve (d, w) = record {
      holds = record { is_file = refl; is_resolve = refl };
    } in
    (handled-Has i (d.content i) d.resolve bits debug rounds c (receive_header debug c (d, w))
      others
      ((receive_header-Has i (d.content i) d.resolve bits debug rounds c).at (d, w)
        start)).holds.is_file
