-- ===== src/Errors.antt =====
-- src/error.rs, and the standard library's `io::Error` as the sources build and read it.
use rust_tftp.Common.{ℕ}
use rust_tftp.Common.Slices.{Bytes}

-- `io::ErrorKind`: the kinds that the sources name, and any other by a number.
pub data ErrorKind : Type 0 where
  would_block timed_out invalid_data invalid_input other : ErrorKind
  os : ℕ → ErrorKind

pub record IoError : Type 0 where
  pub kind : ErrorKind
  pub message : Bytes

-- `FromUtf8Error` is the bytes that are no UTF-8.
pub data TftpError : Type 0 where
  io_error : IoError → TftpError
  invalid_opcode : ℕ → TftpError
  invalid_filename : Bytes → TftpError
  empty_filename : TftpError
  empty_mode : TftpError
  invalid_mode : Bytes → TftpError
  invalid_header_len : TftpError
  invalid_data_len : TftpError
  invalid_string : TftpError
  connection_closed : TftpError
  wrong_host : TftpError
  invalid_unicode_string : Bytes → TftpError
