-- ===== src/App/Cache.antt =====
-- The cache of the application: which file holds what was fetched from a URL.
pub mod Saved
use rust_tftp.Client.Files.{Disk, with_file, open_file, create_file, on_disk}
use rust_tftp.Common.{
  ℕ, ◌/◌, Bool, true, Option, none, some, ◌⊎◌, inl, inr, List, [], ◌∷◌, ◌++◌, ◌≡◌, if◌then◌else◌,
}
use rust_tftp.Common.Outcome.{Outcome, ok, panic}
use rust_tftp.Common.Slices.{Bytes}
use rust_tftp.Common.State.{Run, ◌>>=◌, ◌>>◌, pure, modify, lift, attempt, ignore}
use rust_tftp.Common.Text.{codes, str_eq}
use rust_tftp.Errors.{IoError}
use rust_tftp.Net.{now}
use rust_tftp.Receiver.Storage.{Storage, call}
use rust_tftp.Sender.Drive.{second}
use rust_tftp.Transfer.Session.{Method, world}

-- The crates of the application, with what they are documented to do: a `HashTrieMap` of rpds, its
-- form by bincode (none is an error), and the client of hyper. `hash` and `decimal` are the
-- standard library's `SipHasher` and `to_string`.
pub record Services : Type 1 where
  pub UrlMap : Type 0
  pub empty : UrlMap
  pub find : Bytes → UrlMap → Option Bytes
  pub insert : UrlMap → Bytes → Bytes → UrlMap
  pub serialize : UrlMap → Bytes
  pub deserialize : Bytes → Option UrlMap
  pub fetch_url : Bytes → Option Bytes
  pub hash : Bytes → ℕ
  pub decimal : ℕ → Bytes
  pub find-insert :
      (cache : UrlMap) (url file : Bytes) → find url (insert cache url file) ≡ some file

abbrev pub cache_location : Bytes
cache_location = codes "cache"

abbrev pub cached_files_location : Bytes
cached_files_location = codes "cached_files/"

-- An operation of the opened file at a path.
unfoldable pub on_storage :
    {A : Type 0} → Bytes → Storage → Run Storage IoError A → Method Disk IoError A
on_storage path storage m (d, w) = let (o, f) = m storage in (o, (with_file path f.content d, w))

-- `write_all` into an empty file
unfoldable pub write_all : Bytes → Run Storage IoError (Unit {0})
write_all dat = do call; modify λ f. record f { content = dat }

-- `.unwrap()`
unfoldable pub expect : {A : Type 0} → IoError ⊎ A → Method Disk IoError A
expect (inl e) = lift panic
expect (inr a) = pure a

unfoldable pub expect_some : {A : Type 0} → Option A → Method Disk IoError A
expect_some none = lift panic
expect_some (some a) = pure a

module _ (services : Services) where
  unfoldable pub read_cache : IoError ⊎ Bytes → Method Disk IoError services.UrlMap
  read_cache (inl e) = pure services.empty
  read_cache (inr buf) = expect_some (services.deserialize buf)

  -- `get_cache`; reading the opened file to its end does not fail.
  unfoldable pub get_cache : Method Disk IoError services.UrlMap
  get_cache = do r ← attempt (on_disk (open_file cache_location)); read_cache r

  -- `add_and_save`: a seek, a write and a flush of the emptied file.
  unfoldable pub add_and_save :
      services.UrlMap → Bytes → Bytes → Method Disk IoError services.UrlMap
  add_and_save cache url file = do
    let new = services.insert cache url file
    storage ← on_disk (create_file true cache_location)
    on_storage cache_location storage (do call; write_all (services.serialize new); call)
    pure new

  -- What `get` does with a URL that is not in the cache.
  unfoldable pub fetch_new : services.UrlMap → Bytes → Method Disk IoError Bytes
  fetch_new cache url = do
    dat ← expect_some (services.fetch_url url)
    t ← world now
    let filename = services.decimal (services.hash dat) ++ services.decimal (t / second)
    r ← attempt (on_disk (create_file true (cached_files_location ++ filename)))
    storage ← expect r
    r ← attempt (on_storage (cached_files_location ++ filename) storage (write_all dat))
    expect r
    ignore (add_and_save cache url filename)
    pure filename

  unfoldable pub get_from : services.UrlMap → Bytes → Option Bytes → Method Disk IoError Bytes
  get_from cache url (some x) = pure x
  get_from cache url none = fetch_new cache url

  -- `get`
  unfoldable pub get : Bytes → Method Disk IoError Bytes
  get url = do r ← attempt get_cache; cache ← expect r; get_from cache url (services.find url cache)
