-- ===== src/Client/Requests.antt =====
-- The methods of `TFTPClient` that transfer one file, and those that answer a request.
use rust_tftp.BitSets.{BitSets}
use rust_tftp.Client.Files.{
  Disk, with_file, open_file, create_file, mapping, on_disk, with_object, with_receiver,
}
use rust_tftp.Common.{ℕ, ◌*◌, Bool, true, false, Option, none, some, ◌⊎◌, inl, inr, ◌++◌, length}
use rust_tftp.Common.Outcome.{Outcome, panic}
use rust_tftp.Common.Outcome.{◌>>=◌ as bind}
use rust_tftp.Common.Slices.{Bytes}
use rust_tftp.Common.State.{Run, ◌>>=◌, ◌>>◌, pure, fail, lift, attempt, infallible}
use rust_tftp.Common.Text.{codes}
use rust_tftp.Errors.{IoError, TftpError, io_error}
use rust_tftp.Header.Failed
use rust_tftp.Header.Rw
use rust_tftp.Header.Types.{
  octet, read_request, write_request, RwHeader, ErrorCode, file_not_found, Header,
}
use rust_tftp.Net.{SocketAddr, World, other_error, set_read_timeout, recv, send}
use rust_tftp.Receiver.Drive as ReceiverDrive
use rust_tftp.Receiver.Drive.{open_map}
use rust_tftp.Receiver.Storage.{Storage}
use rust_tftp.Sender.Blocks.{SendFile}
use rust_tftp.Sender.Drive as SenderDrive
use rust_tftp.Sender.Drive.{second, new_server}
use rust_tftp.Transfer.SendError as SendErrors
use rust_tftp.Transfer.SendError.{SendError, send_loop}
use rust_tftp.Transfer.Session.{Method, world, self, update, with_lock}

-- The socket is in the world.
pub record TftpClient : Type 0 where
  pub host_addr : SocketAddr
  pub data_folder : Bytes
  pub window_size : ℕ

-- `TFTPClient::new`; `bound` is what `UdpSocket::bind` returned. The write timeout is not modelled.
unfoldable pub new :
    Outcome IoError (Unit {0}) → SocketAddr → Bytes → ℕ → Run World IoError TftpClient
new bound host_addr data_folder window_size = do
  lift bound
  set_read_timeout (some (4 * second))
  pure (record { host_addr = host_addr; data_folder = data_folder; window_size = window_size })

-- `self.data_folder.clone().add("/").add(…)`
abbrev pub path_of : TftpClient → Bytes → Bytes
path_of c name = c.data_folder ++ codes "/" ++ name

-- The future `send_read`.
unfoldable pub send_first : Bool → Header → SocketAddr → Method Disk IoError (Unit {0})
send_first debug header addr =
    with_lock (world (send debug header addr))
      (fail (other_error (codes "Failed to obtain UDP Socket lock.")))

-- `match Header::recv(…)`
unfoldable pub after_recv : TftpError ⊎ Header → Method Disk IoError (Option Header)
after_recv (inr r) = pure (some r)
after_recv (inl (io_error ioerr)) = fail ioerr
after_recv (inl _) = pure none

-- `TFTPClient::receive_header`
unfoldable pub receive_header : Bool → TftpClient → Method Disk IoError (Option Header)
receive_header debug c =
    with_lock (do r ← attempt (world (recv debug c.host_addr)); after_recv r) (pure none)

-- `TFTPClient::send_error`
unfoldable pub send_error : ErrorCode → TftpClient → Outcome IoError SendError
send_error error c =
    bind (infallible (Failed.new error (codes "<No description supplied>")))
      λ h. SendErrors.new h c.host_addr

-- `rounds` bounds each loop: the polls, and the datagrams that one poll of a receiver reads.
module _ (bits : BitSets) (debug : Bool) (rounds : ℕ) where
  -- `ReceiveFile::new(…)?` and `run()`, on the opened file at a path.
  unfoldable pub receive_file : SocketAddr → Bytes → Storage → Method Disk IoError (Unit {0})
  receive_file host_addr path storage = do
    update (with_file path (open_map storage).1.content)
    s ← world (ReceiverDrive.new bits debug host_addr storage)
    with_receiver path s (ReceiverDrive.run debug rounds rounds)

  -- `TFTPClient::request_file`, polled to its end.
  unfoldable pub request_file : Bytes → Bytes → TftpClient → Method Disk IoError (Unit {0})
  request_file filename destination c = do
    read_header ← lift (infallible (Rw.new read_request filename octet))
    send_first debug (Header.read read_header) c.host_addr
    storage ← on_disk (create_file false (path_of c destination))
    receive_file c.host_addr (path_of c destination) storage

  -- `TFTPClient::send_file`, polled to its end.
  unfoldable pub send_file : Bytes → TftpClient → Method Disk IoError (Unit {0})
  send_file filename c = do
    write_header ← lift (infallible (Rw.new write_request filename octet))
    send_first debug (Header.write write_header) c.host_addr
    file ← on_disk (open_file (path_of c filename))
    d ← self
    s ← world (
        SenderDrive.new bits debug c.host_addr
          (mapping (d.map_error (path_of c filename) (length file)) file) c.window_size)
    with_object s (SenderDrive.run debug rounds)

  -- `TFTPClient::handle_write_request`
  unfoldable pub handle_write_request :
      RwHeader write_request → TftpClient → Method Disk IoError (Unit {0})
  handle_write_request write_header c = do
    storage ← on_disk (create_file true (path_of c write_header.filename))
    receive_file c.host_addr (path_of c write_header.filename) storage

  -- `.unwrap()` of the sender
  unfoldable pub unwrapped : IoError ⊎ SendFile bits → Method Disk IoError (SendFile bits)
  unwrapped (inl e) = lift panic
  unwrapped (inr s) = pure s

  -- The arms of `match File::open(…)`, with what follows them.
  unfoldable pub answer_read : Bytes → TftpClient → IoError ⊎ Bytes → Method Disk IoError (Unit {0})
  answer_read path c (inl e) = do
    send_err ← lift (send_error file_not_found c)
    with_object send_err (send_loop rounds)
    fail e
  answer_read path c (inr file) = do
    d ← self
    r ← attempt (
        world (
          new_server bits debug c.host_addr (mapping (d.map_error path (length file)) file)
            c.window_size))
    s ← unwrapped r
    with_object s (SenderDrive.run debug rounds)

  -- `TFTPClient::handle_read_request`
  unfoldable pub handle_read_request :
      RwHeader read_request → TftpClient → Method Disk IoError (Unit {0})
  handle_read_request read_header c = do
    r ← attempt (on_disk (open_file (path_of c read_header.filename)))
    answer_read (path_of c read_header.filename) c r
