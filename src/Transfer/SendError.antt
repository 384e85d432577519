-- ===== src/Transfer/SendError.antt =====
-- `SendError` of client.rs: the future that sends one error packet.
pub mod Retry
use rust_tftp.Common.{ℕ, zero, suc, ◌+◌, not, ◌⊎◌, inl, inr, length, ltb, ◌==◌, if◌then◌else◌}
use rust_tftp.Common.Outcome.{Outcome, ok, panic, hang}
use rust_tftp.Common.Outcome.{◌>>=◌ as bind}
use rust_tftp.Common.Slices.{Bytes}
use rust_tftp.Common.State.{◌>>=◌, ◌>>◌, pure, fail, lift, attempt, infallible}
use rust_tftp.Common.Text.{codes}
use rust_tftp.Errors.{IoError}
use rust_tftp.Header.Failed
use rust_tftp.Header.Types.{ErrorHeader}
use rust_tftp.Net.{SocketAddr, other_error, send_to}
use rust_tftp.Transfer.Session.{
  Async, ready, not_ready, max_attempts, Method, world, self, update, with_lock,
}

pub record SendError : Type 0 where
  pub host_addr : SocketAddr
  pub send_attempts : ℕ
  pub raw_header : Bytes

unfoldable pub new : ErrorHeader → SocketAddr → Outcome IoError SendError
new error host_addr =
    bind (infallible (Failed.into_raw error))
      λ raw. ok (record { host_addr = host_addr; send_attempts = 0; raw_header = raw })

unfoldable pub after_send : IoError ⊎ ℕ → Method SendError IoError (Async (Unit {0}))
after_send (inr bytes_written) = do
  s ← self
  if not (bytes_written == length s.raw_header)
      then fail (other_error (codes "Failed to send all data in one UDP packet."))
      else pure (ready tt)
after_send (inl e) = do
  update (λ s. record s { send_attempts = s.send_attempts + 1 })
  s ← self
  if ltb max_attempts s.send_attempts then fail e else pure not_ready

unfoldable pub poll : Method SendError IoError (Async (Unit {0}))
poll =
    with_lock (do s ← self; r ← attempt (world (send_to s.raw_header s.host_addr)); after_send r)
      (pure not_ready)

-- The loop of `TFTPClient::handle_read_request` over `send_err.poll()`; with no fuel left it is
-- still going.
unfoldable pub send_loop : ℕ → Method SendError IoError (Unit {0})
send_loop zero = lift hang
send_loop (suc fuel) = do
  r ← attempt poll
  elim r [ inr a ↦ elim a [ ready _ ↦ pure tt | not_ready ↦ send_loop fuel ] | inl e ↦ lift panic ]
