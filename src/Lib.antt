-- ===== src/Lib.antt =====
-- The file transfer library rust-tftp: a TFTP dialect over UDP with 24-bit block numbers, blocks of
-- 4096 bytes and a sliding window.
--
-- The parts of the program, and the files that model them:
--
--   src/header.rs, the packets. Header/Types has the types and constants. Header/Rw (RWHeader),
--     Header/Data (DataHeader), Header/Ack (AckHeader) and Header/Failed (ErrorHeader) each have
--     `new`, `from_raw` and `into_raw` under the names of the source; Header/BlockNumber is the
--     number in bytes 0, 2 and 3 of a packet. Header/Packet has `Header::into_raw_request`, and the
--     `match buf[1]` of `recv` (decode) and of `peek` (peek_decode).
--   src/header.rs, the socket. Net has `Header::recv`, `peek` and `send`, over a record World: the
--     datagrams and errors to come, what was sent, what the system answers to sends, the lock of the
--     socket, its read timeout, the clock, the random numbers, and the global variables
--     STOP_AND_WAIT and DROP_THRESHOLD.
--   src/error.rs and src/types.rs. Errors has TFTPError and the part of io::Error that is used.
--   src/client.rs, the futures SendData and SendError. Transfer/SendData and Transfer/SendError
--     have them, with the loop over SendError's poll in TFTPClient::handle_read_request as
--     send_loop, and Transfer/Session the methods of an object beside the world, with
--     `try_lock` as with_lock: a method that is called while the lock is held finds it taken.
--   src/send.rs. Sender/Blocks has the state of SendFile and get_block_n; Sender/Window has
--     send_data, send_window, handle_ack, update_average_rtt and handle_error; Sender/Drive has
--     receive_header, poll, run, init, server_init, new and new_server.
--   src/receive.rs. Receiver/Storage has the file, its mapping into memory and the state of
--     ReceiveFile; Receiver/Data has handle_data and send_ack; Receiver/Packets has
--     receive_header, update_average, send_error and fail; Receiver/Drive has poll, run, init, new
--     and receive. poll is cut into its parts: catch_up moves consec_recv, complete tests for the
--     end, await_data waits for packets, and handle_headers is the loop over them.
--   src/client.rs, TFTPClient. Client/Files has the files beside the world: a map from the identity
--     of a file to its bytes, and the file that each path names, a function that stands for the
--     operating system's resolution of `..` and links; Client/Requests has new, request_file,
--     send_file, send_error, receive_header, handle_write_request and handle_read_request, which
--     build a sender or a receiver and run it; Client/Serving has handle_server_request and serve.
--   example-tftp-app/src/main.rs. App/Args has pmain, the command line, over the parsers of the
--     standard library; App/Fetch has request, which runs the client; App/Cache has get_cache,
--     add_and_save and get, over the crates rpds, bincode and hyper; App/Server has server.
--   BitSets is the crate bit_set, a record of operations and of laws from its documentation, which
--     the sender and the receiver take as a parameter; Tests/ListBits is an instance.
--   Common has what the parts share: tests on numbers, lists, bytes of machine words, text, slices
--     (a slice or an index out of range panics), the outcomes of a call (a value, an error, a panic,
--     or no return), and computations on a state.
--   Tests applies the theorems on concrete packets, sockets and senders.
--
-- How they interact: the sender, the receiver and the client send and read packets through Net,
-- share the lock of the socket through Transfer/Session, and call the encoders and decoders of
-- Header; the client builds a sender or a receiver and runs it, and the application a client.
--
-- The children of a module state what is proved of it.
--
-- Conventions. A flag says whether the build is a debug build, in which debug_assert! is checked.
-- Strings are lists of their UTF-8 bytes, and String::from_utf8 is a test by the table of the
-- Unicode standard. Shifts of words wrap at their width; sums and products of usize are far below
-- 2^64 and are not reduced. Times are in nanoseconds, and a difference of times stops at 0. A
-- HashMap is an association list. The loops of SendFile::run, of ReceiveFile::run, of serve and
-- of send_loop, and of the application's server, are on fuel, and a run out of fuel counts as one
-- that does not return, like a read with nothing to come and no timeout; all other loops but two
-- of the receiver are structural. For send_loop a fuel of MAX_ATTEMPTS + 1 is enough while the
-- lock is free.
--
-- In the receiver, advance_consec has the fuel that is enough, one more than the limit of the bit
-- set. The loop of ReceiveFile::receive_header, drain, has no bound in the source: it goes on while
-- datagrams keep coming. Its rounds are an argument of the poll, and a run out of rounds counts as
-- one that does not return. What is to come is a finite queue, for which one round more than it has
-- events is enough; an endless stream is one that has datagrams for every number of rounds.
--
-- Not modelled either are other threads that use the socket: the lock is held or free when an
-- operation begins, and only the operation itself changes that.
--
-- Not modelled: the write timeout of the socket and the pause of serve; the tests in src/lib.rs;
-- the lines that example-tftp-app/src/main.rs prints. The mapping of a file into memory (the crate
-- memmap) is, for the sender, an argument, the bytes it gave or its error; for the receiver, what
-- is written through it is in the file at once.
pub mod Common
pub mod Errors
pub mod Header
pub mod Net
pub mod BitSets
pub mod Transfer
pub mod Sender
pub mod Receiver
pub mod Client
pub mod App
pub mod Tests
