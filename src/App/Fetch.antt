-- ===== src/App/Fetch.antt =====
-- `request` of main.rs: the client that fetches one file.
use rust_tftp.BitSets.{BitSets}
use rust_tftp.Client.Files.{Disk}
use rust_tftp.Client.Requests.{TftpClient, request_file}
use rust_tftp.Client.Requests as Requests
use rust_tftp.Common.{ℕ, Bool, ◌&&◌, ◌||◌, ◌⊎◌, inl, inr, [], ◌∷◌, leb, ◌==◌, if◌then◌else◌}
use rust_tftp.Common.Outcome.{Outcome, ok, panic}
use rust_tftp.Common.Slices.{Bytes}
use rust_tftp.Common.State.{Run, ◌>>=◌, ◌>>◌, pure, modify, lift, attempt}
use rust_tftp.Common.Text.{codes}
use rust_tftp.Errors.{IoError}
use rust_tftp.Net.{SocketAddr, World}
use rust_tftp.Transfer.Session.{Method, world}

-- `(c.is_alphabetic() && c.is_ascii()) || c == '.'`, on the bytes: no byte of another character is
-- one of these.
abbrev pub is_kept : ℕ → Bool
is_kept b = leb 65 b && leb b 90 || leb 97 b && leb b 122 || b == 46

-- `dest.retain(…)`
unfoldable pub retain : Bytes → Bytes
retain [] = []
retain (b ∷ rest) = let kept = retain rest in if is_kept b then b ∷ kept else kept

-- `Err(e) => panic!(…)`, of the client and of its future.
unfoldable pub unwrapped : {A : Type 0} → IoError ⊎ A → Method Disk IoError A
unwrapped (inl e) = lift panic
unwrapped (inr a) = pure a

abbrev pub set_drop_threshold : ℕ → Run World IoError (Unit {0})
set_drop_threshold n = modify λ w. record w { drop_threshold = n }

-- `request`; `bound` is what the bind of the socket returned.
unfoldable pub fetch :
    BitSets
    → Bool
    → ℕ
    → Outcome IoError (Unit {0})
    → SocketAddr
    → Bytes
    → ℕ
    → Method Disk IoError (Unit {0})
fetch bits debug rounds bound host_addr url window_size = do
  drop_rate ← world (λ w. (ok w.drop_threshold, w))
  world (set_drop_threshold 0)
  r ← attempt (world (Requests.new bound host_addr (codes "downloaded/") window_size))
  client ← unwrapped r
  world (set_drop_threshold drop_rate)
  r ← attempt (request_file bits debug rounds url (retain url) client)
  unwrapped r

-- The end of `pmain`: the two global variables are set, and the file is fetched.
unfoldable pub start_request :
    BitSets
    → Bool
    → ℕ
    → Outcome IoError (Unit {0})
    → SocketAddr
    → Bytes
    → ℕ
    → ℕ
    → Bool
    → Method Disk IoError (Unit {0})
start_request bits debug rounds bound host_addr url window_size drop_freq stop_and_wait = do
  world (set_drop_threshold drop_freq)
  world (modify λ w. record w { stop_and_wait = stop_and_wait })
  fetch bits debug rounds bound host_addr url window_size
