-- ===== src/Sender/Drive/Silent.antt =====
-- What `SendFile::receive_header` can send while it holds the lock of the socket.
use rust_tftp.BitSets.{BitSets}
use rust_tftp.Common.{◌≡◌, Bool, none, ◌⊎◌, inl, inr, List}
use rust_tftp.Common.Slices.{Bytes}
use rust_tftp.Common.State.Keeps.{Keeps, Keeps-bind, Keeps-attempt, keeps_rules}
use rust_tftp.Errors.{TftpError, io_error}
use rust_tftp.Header.Types.{Header}
use rust_tftp.Net.{SocketAddr, World}
use rust_tftp.Net.Reading.{recv-Still, set_read_timeout-Still}
use rust_tftp.Sender.Blocks.{SendFile}
use rust_tftp.Sender.Drive.{error_past_limit, resend_after, after_recv, receive_header}
use rust_tftp.Sender.Window.Quiet.{Quiet, send_window-Quiet}
use rust_tftp.Transfer.Session.Keeping.{with_lock-outbox, Keeps-world, Keeps-self, Keeps-update}

module _ {bits : BitSets} {out : List (Bytes × SocketAddr)} where
  error_past_limit-Quiet : (e : TftpError) → Keeps (Quiet bits out) (error_past_limit e)
  unfolding error_past_limit
  error_past_limit-Quiet (io_error e) = search keeps_rules
  error_past_limit-Quiet _ = search keeps_rules

  resend_after-Quiet : (e : TftpError) → Keeps (Quiet bits out) (resend_after e)
  unfolding resend_after
  resend_after-Quiet (io_error e) = search (keeps_rules, send_window-Quiet)
  resend_after-Quiet _ = search keeps_rules

  after_recv-Quiet : (r : TftpError ⊎ Header) → Keeps (Quiet bits out) (after_recv r)
  unfolding after_recv
  after_recv-Quiet (inr h) = search (keeps_rules, Keeps-update) depth 8
  after_recv-Quiet (inl e) =
      search (keeps_rules, Keeps-self, Keeps-update, error_past_limit-Quiet, resend_after-Quiet)
        depth 12

module _ {bits : BitSets} (debug : Bool) where
  -- Whatever receive_header meets, a timeout whose branch sends the window again included, it
  -- transmits nothing and leaves the lock as it found it: the lock it holds keeps the senders of
  -- the blocks from the socket.
  pub receive_header-outbox :
      (t : SendFile bits × World)
      → ((receive_header debug t).1.1.outbox ≡ t.1.outbox)
        × ((receive_header debug t).1.1.locked ≡ t.1.locked)
  unfolding receive_header
  receive_header-outbox t = with_lock-outbox _ none t λ out.
      Keeps-bind (Keeps-world (set_read_timeout-Still none)) λ _. Keeps-bind Keeps-self λ s.
        Keeps-bind (Keeps-attempt (Keeps-world (recv-Still debug s.host_addr))) after_recv-Quiet
