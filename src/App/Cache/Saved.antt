-- ===== src/App/Cache/Saved.antt =====
-- A cache that is saved and read again.
use rust_tftp.App.Cache.{
  Services, cache_location, on_storage, write_all, expect_some, read_cache, get_cache, add_and_save,
}
use rust_tftp.Client.Files.{Disk, open_file, create_file, on_disk}
use rust_tftp.Common.{ℕ, none, some, ◌≡◌, refl, ==-self}
use rust_tftp.Common.Outcome.{ok}
use rust_tftp.Common.Slices.{Bytes}
use rust_tftp.Common.State.{◌>>=◌, pure, modify, attempt}
use rust_tftp.Net.{World}
use rust_tftp.Receiver.Storage.{call}

-- Where bincode reads back what it wrote, and the file of the cache can be opened and written, the
-- cache that add_and_save returns has the new file under its URL, and is the one that get_cache
-- reads then.
get_cache-add_and_save :
    (services : Services) (cache : services.UrlMap) (url file : Bytes) (d : Disk) (w : World)
    → ((m : services.UrlMap) → services.deserialize (services.serialize m) ≡ some m)
    → d.open_error cache_location ≡ none
    → ((n : ℕ) → d.answers cache_location n ≡ none)
    → let (o, (e, v)) = add_and_save services cache url file (d, w) in
      (o ≡ ok (services.insert cache url file))
      × ((get_cache services (e, v)).0 ≡ ok (services.insert cache url file))
      × (services.find url (services.insert cache url file) ≡ some file)
unfolding add_and_save get_cache on_disk on_storage create_file open_file write_all call expect_some
    read_cache ◌>>=◌ attempt pure modify
get_cache-add_and_save services cache url file d w back opened answers =
    rw (opened, answers 0, answers 1, answers 2, ==-self (d.resolve cache_location), opened, back)
      (refl, refl, services.find-insert cache url file)
