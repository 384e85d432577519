-- ===== src/Header/Types.antt =====
-- The types and constants of header.rs.
use rust_tftp.Common.{ℕ, ◌*◌, Option, none, some, if◌then◌else◌}
use rust_tftp.Common.Slices.{Bytes}
use rust_tftp.Common.Text.{codes, to_lowercase, str_eq}

-- Shut, since a buffer of this length is not to be computed in a proof.
unfoldable pub max_data_len : ℕ
max_data_len = 4 * 1024

abbrev pub data_header_len : ℕ
data_header_len = 4

unfoldable pub buff_allocation_size : ℕ
unfolding max_data_len
buff_allocation_size = max_data_len * 2

abbrev pub opcode_rrq : ℕ
opcode_rrq = 1

abbrev pub opcode_wrq : ℕ
opcode_wrq = 2

abbrev pub opcode_data : ℕ
opcode_data = 3

abbrev pub opcode_ack : ℕ
opcode_ack = 4

abbrev pub opcode_error : ℕ
opcode_error = 5

pub data RwMode : Type 0 where
  mail netascii octet : RwMode

-- `RWMode::from_str`
unfoldable pub from_str : Bytes → Option RwMode
unfolding to_lowercase str_eq
from_str src =
    let p = to_lowercase src in
    if str_eq p (codes "mail")
    then some mail
    else if str_eq p (codes "netascii")
    then some netascii
    else if str_eq p (codes "octet")
    then some octet
    else none

-- `Into<&'static [u8]> for RWMode`
unfoldable pub mode_bytes : RwMode → Bytes
mode_bytes mail = codes "mail"
mode_bytes netascii = codes "netascii"
mode_bytes octet = codes "octet"

pub data RequestType : Type 0 where
  write_request read_request : RequestType

-- `T::request_type() as u8`
abbrev pub request_opcode : RequestType → ℕ
request_opcode write_request = opcode_wrq
request_opcode read_request = opcode_rrq

-- The marker types `ReadHeader` and `WriteHeader` are the parameter.
pub record RwHeader (t : RequestType) : Type 0 where
  pub filename : Bytes
  pub mode : RwMode

-- The field `data` is `contents` here.
pub record DataHeader : Type 0 where
  pub contents : Bytes
  pub data_len : ℕ
  pub block_number : ℕ

pub record AckHeader : Type 0 where
  pub block_number : ℕ

pub data ErrorCode : Type 0 where
  undefined file_not_found access_violation disk_full : ErrorCode
  illegal_operation unknown_transfer_id file_already_exists no_such_user : ErrorCode

pub record ErrorHeader : Type 0 where
  pub error_code : ErrorCode
  pub error_message : Bytes

pub data Header : Type 0 where
  ack : AckHeader → Header
  read : RwHeader read_request → Header
  write : RwHeader write_request → Header
  block : DataHeader → Header
  error : ErrorHeader → Header
  invalid : Bytes → Header
