-- ===== src/App/Server.antt =====
-- `server` of main.rs: it answers read requests for URLs.
use rust_tftp.App.Cache.{Services, cached_files_location, expect, get_cache, add_and_save, get}
use rust_tftp.BitSets.{BitSets}
use rust_tftp.Client.Files.{Disk}
use rust_tftp.Client.Requests as Requests
use rust_tftp.Client.Requests.{TftpClient, handle_read_request}
use rust_tftp.Common.{ℕ, zero, suc, ◌*◌, Bool, some, ◌⊎◌, inl, inr}
use rust_tftp.Common.Outcome.{Outcome, hang}
use rust_tftp.Common.State.{◌>>=◌, ◌>>◌, pure, lift, attempt, ignore}
use rust_tftp.Errors.{IoError, TftpError, connection_closed}
use rust_tftp.Header.Types.{Header}
use rust_tftp.Net.{SocketAddr, set_read_timeout, peek, recv}
use rust_tftp.Sender.Drive.{second}
use rust_tftp.Transfer.Session.{Method, world, with_lock}

module _ (services : Services) (bits : BitSets) (debug : Bool) (rounds : ℕ) where
  unfoldable pub peek_timed : Method Disk IoError (TftpError ⊎ (Header × SocketAddr))
  peek_timed =
      with_lock
        (do ignore (world (set_read_timeout (some (4 * second)))); attempt (world (peek debug)))
        (pure (inl connection_closed))

  -- `let _ = Header::recv(…)`, which takes the datagram.
  unfoldable pub take_request : SocketAddr → Method Disk IoError (Unit {0})
  take_request src = with_lock (ignore (world (recv debug src))) (pure tt)

  -- The `match header_result`; the result is the cache.
  unfoldable pub answer_request :
      TftpClient → services.UrlMap → Header → SocketAddr → Method Disk IoError services.UrlMap
  answer_request c cache (Header.read read_header) src = do
    filename ← get services read_header.filename
    r ← attempt (add_and_save services cache read_header.filename filename)
    cache ← expect r
    ignore (
        handle_read_request bits debug rounds (record read_header { filename = filename })
          (record c { host_addr = src }))
    pure cache
  answer_request c cache _ src = pure cache

  -- The body of the loop.
  unfoldable pub answer_peeked :
      TftpClient
      → services.UrlMap
      → TftpError ⊎ (Header × SocketAddr)
      → Method Disk IoError services.UrlMap
  answer_peeked c cache (inl e) = pure cache
  answer_peeked c cache (inr (header, src)) = do take_request src; answer_request c cache header src

  -- The loop; with no fuel left it is still going.
  unfoldable pub server_loop : ℕ → TftpClient → services.UrlMap → Method Disk IoError (Unit {0})
  server_loop zero c cache = lift hang
  server_loop (suc fuel) c cache = do
    header_result ← peek_timed
    cache ← answer_peeked c cache header_result
    server_loop fuel c cache

  -- `server`; `bound` is what the bind of the socket returned.
  unfoldable pub serve_urls :
      ℕ → Outcome IoError (Unit {0}) → SocketAddr → ℕ → Method Disk IoError (Unit {0})
  serve_urls fuel bound addr window_size = do
    r ← attempt (world (Requests.new bound addr cached_files_location window_size))
    c ← expect r
    r ← attempt (get_cache services)
    cache ← expect r
    server_loop fuel c cache
