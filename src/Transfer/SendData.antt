-- ===== src/Transfer/SendData.antt =====
-- `SendData` of client.rs: the future that sends one data packet.
use rust_tftp.Common.{ℕ, ◌+◌, not, Option, some, ◌⊎◌, inl, inr, length, ltb, ◌==◌, if◌then◌else◌}
use rust_tftp.Common.Outcome.{Outcome, ok}
use rust_tftp.Common.Outcome.{◌>>=◌ as bind}
use rust_tftp.Common.Slices.{Bytes}
use rust_tftp.Common.State.{◌>>=◌, ◌>>◌, pure, fail, attempt, infallible}
use rust_tftp.Common.Text.{codes}
use rust_tftp.Errors.{IoError}
use rust_tftp.Header.Data
use rust_tftp.Net.{SocketAddr, other_error, send_to}
use rust_tftp.Transfer.Session.{
  Async, ready, not_ready, max_attempts, Method, world, self, update, with_lock,
}

pub record SendData : Type 0 where
  pub raw_header : Bytes
  pub send_attempts : ℕ
  pub host_addr : SocketAddr
  pub block_number : ℕ

abbrev pub unsent : Bytes → ℕ → SocketAddr → SendData
unsent raw block_number host_addr = record {
  raw_header = raw;
  send_attempts = 0;
  host_addr = host_addr;
  block_number = block_number;
}

unfoldable pub new : Bytes → ℕ → SocketAddr → Outcome IoError (Option SendData)
new payload block_number host_addr =
    bind (infallible (bind (Data.new payload block_number) Data.into_raw))
      λ raw. ok (some (unsent raw block_number host_addr))

unfoldable pub new_empty : ℕ → SocketAddr → Outcome IoError SendData
new_empty block_number host_addr =
    bind (infallible (Data.into_raw (Data.new_empty block_number)))
      λ raw. ok (unsent raw block_number host_addr)

-- The arms of the `match` in `poll`.
unfoldable pub after_send : IoError ⊎ ℕ → Method SendData IoError (Async ℕ)
after_send (inr bytes_written) = do
  s ← self
  if not (bytes_written == length s.raw_header)
      then fail (other_error (codes "Failed to send all data in one UDP packet."))
      else pure (ready s.block_number)
after_send (inl e) = do
  update (λ s. record s { send_attempts = s.send_attempts + 1 })
  s ← self
  if ltb max_attempts s.send_attempts then fail e else pure not_ready

unfoldable pub poll : Method SendData IoError (Async ℕ)
poll =
    with_lock (do s ← self; r ← attempt (world (send_to s.raw_header s.host_addr)); after_send r)
      (pure not_ready)
