-- ===== src/Client/Files.antt =====
-- The file system, as the client and the server use it: a client's state beside the world.
use rust_tftp.BitSets.{BitSets}
use rust_tftp.Common.{
  ℕ, Bool, true, false, Option, none, some, ◌⊎◌, inl, inr, [], length, if◌then◌else◌, ◌==◌,
}
use rust_tftp.Common.Outcome.{Outcome, ok, err}
use rust_tftp.Common.Slices.{Bytes}
use rust_tftp.Common.State.{Run}
use rust_tftp.Errors.{IoError}
use rust_tftp.Receiver.Storage.{Storage, ReceiveFile}
use rust_tftp.Transfer.Session.{Method}

-- The files by their identity: `resolve` is the file that a path names, with its `..`, its links
-- and the working directory taken into account, which is the operating system's. `open_error` is
-- the error, if any, of an open of a path, and `missing` that of a file that is not there;
-- `answers` and `map_error` are those of the calls on the file at a path.
pub record Disk : Type 0 where
  pub resolve : Bytes → ℕ
  pub content : ℕ → Option Bytes
  pub missing : IoError
  pub open_error : Bytes → Option IoError
  pub answers : Bytes → ℕ → Option IoError
  pub map_error : Bytes → ℕ → Option IoError

abbrev pub with_file : Bytes → Bytes → Disk → Disk
with_file path bytes d = record d {
  content = λ i. if i == d.resolve path then some bytes else d.content i;
}

-- The bytes of the file that a path names.
abbrev pub file_at : Disk → Bytes → Option Bytes
file_at d path = d.content (d.resolve path)

-- `File::open`
abbrev pub read_at : Disk → Option IoError → Option Bytes → Outcome IoError Bytes × Disk
read_at d (some e) file = (err e, d)
read_at d none none = (err d.missing, d)
read_at d none (some bytes) = (ok bytes, d)

unfoldable pub open_file : Bytes → Run Disk IoError Bytes
open_file path d = read_at d (d.open_error path) (file_at d path)

-- `OpenOptions` with `create(true)` and `write(true)`: `kept` is what stands in the file then.
abbrev pub kept : Bool → Option Bytes → Bytes
kept truncate none = []
kept true (some bytes) = []
kept false (some bytes) = bytes

abbrev pub storage_at : Bytes → Bytes → Disk → Storage
storage_at path bytes d = record {
  content = bytes;
  map_len = length bytes;
  answers = d.answers path;
  map_error = d.map_error path;
}

abbrev pub created_at : Bytes → Bytes → Disk → Option IoError → Outcome IoError Storage × Disk
created_at path bytes d (some e) = (err e, d)
created_at path bytes d none = (ok (storage_at path bytes d), with_file path bytes d)

unfoldable pub create_file : Bool → Bytes → Run Disk IoError Storage
create_file truncate path d = created_at path (kept truncate (file_at d path)) d (d.open_error path)

-- What `MmapOptions::map` gives of a file.
abbrev pub mapping : Option IoError → Bytes → IoError ⊎ Bytes
mapping (some e) bytes = inl e
mapping none bytes = inr bytes

-- An operation of the files alone.
unfoldable pub on_disk : {E A : Type 0} → Run Disk E A → Method Disk E A
on_disk m (d, w) = let (o, e) = m d in (o, (e, w))

-- A method of an object that is dropped at the end.
unfoldable pub with_object : {T E A : Type 0} → T → Method T E A → Method Disk E A
with_object object m (d, w) = let (o, (t, v)) = m (object, w) in (o, (d, v))

-- A method of a receiver that is dropped at the end: what it wrote is in the file at the path.
unfoldable pub with_receiver :
    {bits : BitSets} {E A : Type 0}
    → Bytes
    → ReceiveFile bits
    → Method (ReceiveFile bits) E A
    → Method Disk E A
with_receiver path object m (d, w) =
    let (o, (t, v)) = m (object, w) in (o, (with_file path t.file.content d, v))
