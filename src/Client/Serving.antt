-- ===== src/Client/Serving.antt =====
-- `TFTPClient::serve`
use rust_tftp.BitSets.{BitSets}
use rust_tftp.Client.Files.{Disk}
use rust_tftp.Client.Requests.{
  TftpClient, receive_header, handle_write_request, handle_read_request,
}
use rust_tftp.Common.{ℕ, zero, suc, Bool, Option, some, ◌⊎◌, inl, inr}
use rust_tftp.Common.Outcome.{hang}
use rust_tftp.Common.State.{◌>>=◌, ◌>>◌, pure, lift, attempt, ignore}
use rust_tftp.Errors.{IoError, TftpError, connection_closed}
use rust_tftp.Header.Types.{Header}
use rust_tftp.Net.{SocketAddr, peek}
use rust_tftp.Transfer.Session.{Method, world, with_lock}

module _ (bits : BitSets) (debug : Bool) (rounds : ℕ) where
  -- The `match` in `handle_server_request`, which drops the results.
  unfoldable pub handle_header :
      TftpClient → IoError ⊎ Option Header → Method Disk IoError (Unit {0})
  handle_header c (inr (some (Header.write h))) =
      ignore (handle_write_request bits debug rounds h c)
  handle_header c (inr (some (Header.read h))) = ignore (handle_read_request bits debug rounds h c)
  handle_header c _ = pure tt

  -- `TFTPClient::handle_server_request`
  unfoldable pub handle_server_request : TftpClient → Method Disk IoError (Unit {0})
  handle_server_request c = do r ← attempt (receive_header debug c); handle_header c r

  -- The `match header_result`; `pool.install` returns when the request is handled.
  unfoldable pub serve_request :
      TftpClient → TftpError ⊎ (Header × SocketAddr) → Method Disk IoError (Unit {0})
  serve_request c (inr (Header.read h, src)) = handle_server_request (record c { host_addr = src })
  serve_request c (inr (Header.write h, src)) = handle_server_request (record c { host_addr = src })
  serve_request c _ = pure tt

  unfoldable pub peek_header : Method Disk IoError (TftpError ⊎ (Header × SocketAddr))
  peek_header = with_lock (attempt (world (peek debug))) (pure (inl connection_closed))

  unfoldable pub serve_once : TftpClient → Method Disk IoError (Unit {0})
  serve_once c = do header_result ← peek_header; serve_request c header_result

  -- `TFTPClient::serve`; with no fuel left the loop is still going.
  unfoldable pub serve : ℕ → TftpClient → Method Disk IoError (Unit {0})
  serve zero c = lift hang
  serve (suc fuel) c = do serve_once c; serve fuel c
