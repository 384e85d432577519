-- ===== src/Receiver/Packets.antt =====
-- The methods of `ReceiveFile` that read the socket or give up.
pub mod Endless
pub mod Ending
pub mod Room
use rust_tftp.BitSets.{BitSets}
use rust_tftp.Common.{
  ℕ, zero, suc, ◌+◌, ◌-◌, ◌*◌, ◌/◌, Bool, Option, none, some, ◌⊎◌, inl, inr, List, [], ◌∷◌, ◌++◌,
  length,
}
use rust_tftp.Common.Outcome.{hang}
use rust_tftp.Common.State.{Run, ◌>>=◌, ◌>>◌, pure, fail, lift, attempt}
use rust_tftp.Common.Text.{codes}
use rust_tftp.Errors.{IoError, TftpError, io_error}
use rust_tftp.Header.Types.{undefined, ErrorHeader, Header}
use rust_tftp.Net.{SocketAddr, World, other_error, now, set_read_timeout, recv, send}
use rust_tftp.Receiver.Storage.{ReceiveFile}
use rust_tftp.Transfer.Session.{max_attempts, Method, world, self, update, with_lock}

abbrev pub giving_up : Header
giving_up = Header.error (record {
  error_code = undefined;
  error_message = codes "Giving up " ++ 240 ∷ 159 ∷ 152 ∷ 158 ∷ [];
})

-- One round of the loop `while let Ok(header) = …`, with the rounds behind it.
unfoldable pub drained :
    Run World TftpError (List Header) → TftpError ⊎ Header → Run World TftpError (List Header)
drained rest (inl e) = pure []
drained rest (inr header) = do headers ← rest; pure (header ∷ headers)

-- The headers that come in one after the other: the loop ends at the first error, and with no
-- rounds left it is still going.
unfoldable pub drain : Bool → ℕ → SocketAddr → Run World TftpError (List Header)
drain debug zero from = lift hang
drain debug (suc rounds) from = do
  r ← attempt (recv debug from)
  drained (drain debug rounds from) r

abbrev pub received_after : {E : Type 0} → E ⊎ List Header → List Header
received_after (inl e) = []
received_after (inr headers) = headers

abbrev pub reversed : List Header → List Header → List Header
reversed [] out = out
reversed (header ∷ headers) out = reversed headers (header ∷ out)

module _ {bits : BitSets} where
  -- `ReceiveFile::update_average`
  unfoldable pub update_average : Method (ReceiveFile bits) IoError (Unit {0})
  update_average = do
    t ← world now
    s ← self
    let elapsed = t - s.last_time
    u ← world now
    update λ s. record s { last_time = u; packet_time = elapsed / 16 + elapsed * 15 * 15 / 16 }

module _ {bits : BitSets} (debug : Bool) where
  -- The loop of `receive_header`, which has no bound of its own: `rounds` is that of the model.
  unfoldable pub drain_socket : ℕ → SocketAddr → Method (ReceiveFile bits) TftpError (List Header)
  drain_socket rounds from = world (drain debug rounds from)

  unfoldable pub after_recv :
      ℕ → TftpError ⊎ Header → Method (ReceiveFile bits) IoError (Option (List Header))
  after_recv rounds (inr header) = do
    update_average
    world (set_read_timeout (some 250_000))
    s ← self
    r ← attempt (drain_socket rounds s.host_addr)
    pure (some (header ∷ received_after r))
  after_recv rounds (inl (io_error ioerr)) = fail ioerr
  after_recv rounds (inl _) = pure none

  -- `ReceiveFile::receive_header`
  unfoldable pub receive_header : ℕ → Method (ReceiveFile bits) IoError (Option (List Header))
  receive_header rounds =
      with_lock
        (do
          s ← self
          world (set_read_timeout (some s.packet_time))
          r ← attempt (world (recv debug s.host_addr))
          after_recv rounds r)
        (pure none)

  -- `ReceiveFile::send_error`; its argument is not used.
  unfoldable pub send_error : ErrorHeader → Method (ReceiveFile bits) IoError (Unit {0})
  send_error error_header =
      with_lock (do s ← self; world (send debug giving_up s.host_addr))
        (fail (other_error (codes "Failed to obtain UDP Socket lock")))

  -- One round of the loop of `fail`: whether the error packet was sent.
  unfoldable pub try_error : Method (ReceiveFile bits) IoError (Option (Unit {0}))
  try_error =
      with_lock (do s ← self; world (send debug giving_up s.host_addr); pure (some tt)) (pure none)

  -- `return Err(err)` where the packet was sent, and otherwise the rest of the loop.
  unfoldable pub after_try :
      {A : Type 0}
      → IoError
      → Method (ReceiveFile bits) IoError A
      → IoError ⊎ Option (Unit {0})
      → Method (ReceiveFile bits) IoError A
  after_try e rest (inr (some _)) = fail e
  after_try e rest (inr none) = rest
  after_try e rest (inl _) = rest

  -- `for i in 0..MAX_ATTEMPTS`
  unfoldable pub fail_loop : {A : Type 0} → ℕ → IoError → Method (ReceiveFile bits) IoError A
  fail_loop zero e = fail e
  fail_loop (suc rounds) e = do r ← attempt try_error; after_try e (fail_loop rounds e) r

  -- `ReceiveFile::fail`
  unfoldable pub give_up : {A : Type 0} → IoError → Method (ReceiveFile bits) IoError A
  give_up = fail_loop max_attempts
