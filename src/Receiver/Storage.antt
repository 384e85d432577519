-- ===== src/Receiver/Storage.antt =====
-- The file of a receiver, its mapping into memory, and the state of `ReceiveFile`.
use rust_tftp.BitSets.{BitSets}
use rust_tftp.Common.{
  ℕ, suc, ◌-◌, Bool, Option, none, some, ◌++◌, ◌∷◌, length, take, drop, replicate, leb,
  if◌then◌else◌,
}
use rust_tftp.Common.Outcome.{Outcome, ok, err, panic, hang}
use rust_tftp.Common.Slices.{Bytes, copy_into}
use rust_tftp.Common.State.{Run, ◌>>◌, modify}
use rust_tftp.Errors.{IoError}
use rust_tftp.Net.{SocketAddr}
use rust_tftp.Transfer.Session.{Method}

-- The file and its mapping: what is written through the mapping is in the file. `answers` are the
-- errors, if any, of the calls of the system to come, in order. `map_error` is the error, if any, of
-- `MmapOptions::map_mut` (the crate memmap) at a length.
pub record Storage : Type 0 where
  pub content : Bytes
  pub map_len : ℕ
  pub answers : ℕ → Option IoError
  pub map_error : ℕ → Option IoError

-- A call of the system that can fail.
abbrev pub answered : Option IoError → Storage → Outcome IoError (Unit {0}) × Storage
answered none f = (ok tt, f)
answered (some e) f = (err e, f)

unfoldable pub call : Run Storage IoError (Unit {0})
call f = answered (f.answers 0) (record f { answers = λ n. f.answers (suc n) })

-- `File::set_len` cuts the file or fills it up with zeros.
abbrev pub with_len : ℕ → Bytes → Bytes
with_len n content = take n content ++ replicate (n - length content) 0

unfoldable pub set_len : ℕ → Run Storage IoError (Unit {0})
set_len n = do call; modify λ f. record f { content = with_len n f.content }

-- `file.write(&[0])` at the start of the file.
unfoldable pub write_zero : Run Storage IoError (Unit {0})
write_zero = do call; modify λ f. record f { content = 0 ∷ drop 1 f.content }

abbrev pub mapped : Option IoError → ℕ → Storage → Outcome IoError (Unit {0}) × Storage
mapped none n f = (ok tt, record f { map_len = n })
mapped (some e) n f = (err e, f)

-- `MmapOptions::new().len(n).map_mut(&file)`
unfoldable pub map_mut : ℕ → Run Storage IoError (Unit {0})
map_mut n f = mapped (f.map_error n) n f

abbrev pub stored : Storage → Outcome IoError Bytes → Outcome IoError (Unit {0}) × Storage
stored f (ok content) = (ok tt, record f { content = content })
stored f (err e) = (err e, f)
stored f panic = (panic, f)
stored f hang = (hang, f)

-- `self.file_map[start..end].copy_from_slice(src)`
unfoldable pub write_map : ℕ → ℕ → Bytes → Run Storage IoError (Unit {0})
write_map start end src f =
    stored f (if leb end f.map_len then copy_into f.content start end src else panic)

-- The mapping is flushed, the file set to a new length and flushed, and mapped again.
unfoldable pub remap : ℕ → Run Storage IoError (Unit {0})
remap new_len = do call; set_len new_len; call; map_mut new_len

-- The socket is in the world. Times and durations are in nanoseconds.
pub record ReceiveFile (bits : BitSets) : Type 0 where
  pub file : Storage
  pub highest_block : Option ℕ
  pub received_last_block : Bool
  pub received : bits.BitSet
  pub consec_recv : Option ℕ
  pub host_addr : SocketAddr
  pub error_count : ℕ
  pub packet_time : ℕ
  pub last_time : ℕ

-- An operation of the file alone.
unfoldable pub on_file :
    {bits : BitSets} {A : Type 0} → Run Storage IoError A → Method (ReceiveFile bits) IoError A
on_file m (s, w) = let (o, f) = m s.file in (o, (record s { file = f }, w))
