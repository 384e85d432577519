-- ===== src/Tests/Clients.antt =====
-- A server with one file.
use rust_tftp.Client.Confined.{handle_server_request-content}
use rust_tftp.Client.Files.{Disk}
use rust_tftp.Client.Idle.{serve_idle}
use rust_tftp.Client.Missing.{not_found_packet, handle_read_request_missing}
use rust_tftp.Client.Requests.{TftpClient, after_recv, receive_header, handle_read_request}
use rust_tftp.Client.Serving.{handle_server_request, serve}
use rust_tftp.Common.{
  ◌≤◌, true, Option, none, some, [], ◌∷◌, ◌++◌, length, if◌then◌else◌, ◌≡◌, ◌≢◌, refl, sym, ap, ◌∙◌,
  arith, ◌||◌, ◌==◌,
}
use rust_tftp.Common.Outcome.{Outcome, ok, err, hang}
use rust_tftp.Common.State.{◌>>=◌, attempt, pure}
use rust_tftp.Common.Slices.{Bytes, index}
use rust_tftp.Common.Text.{codes, str_eq, from_utf8, utf8_valid}
use rust_tftp.Errors.{IoError, os}
use rust_tftp.Header.Packet.{peek_decode, decode}
use rust_tftp.Header.Rw
use rust_tftp.Header.Types.{buff_allocation_size, octet, write_request, RwHeader, Header, from_str}
use rust_tftp.Net.{World, datagram, filled, wrote}
use rust_tftp.Net.Delivery.{recv-decode}
use rust_tftp.Transfer.Session.{with_lock, world}
use rust_tftp.Tests.ListBits.{list_bits}
use rust_tftp.Tests.Sockets.{server, world_of}

abbrev disk : Disk
disk = record {
  resolve =
      λ p. if str_eq p (codes "cache") || str_eq p (codes "files/../cache") then 1 else length p;
  content = λ i. if i == 1 then some (1 ∷ []) else none;
  missing = record { kind = os 2; message = [] };
  open_error = λ p. none;
  answers = λ p n. none;
  map_error = λ p n. none;
}

abbrev client : TftpClient
client = record { host_addr = server; data_folder = codes "files"; window_size = 2 }

-- A request to write the file `a`.
abbrev write_a : RwHeader write_request
write_a = record { filename = codes "a"; mode = octet }

abbrev write_packet : Bytes
write_packet = 0 ∷ 2 ∷ codes "a" ++ 0 ∷ codes "octet" ++ 0 ∷ []

write_decoded : decode true write_packet ≡ ok (Header.write write_a)
unfolding decode Rw.from_raw Rw.parse_request Rw.filename_loop Rw.mode_loop Rw.decode_strings index
    from_utf8 utf8_valid from_str
write_decoded = refl

write_fits : length write_packet ≤ buff_allocation_size
unfolding buff_allocation_size
write_fits = omega arith

abbrev asked : World
asked = world_of (datagram write_packet server ∷ [])

write_received : (receive_header true client (disk, asked)).0 ≡ ok (some (Header.write write_a))
unfolding receive_header after_recv with_lock world ◌>>=◌ attempt pure
write_received =
    rw
      (recv-decode true server server write_packet [] (record asked { locked = true })
        (Header.write write_a) refl refl write_fits write_decoded)
      refl

filename_of : Outcome IoError (Option Header) → Bytes
filename_of (ok (some (Header.write h))) = h.filename
filename_of _ = []

-- The cache is not the file of that name.
cache_other :
    (h : RwHeader write_request)
    → (receive_header true client (disk, asked)).0 ≡ ok (some (Header.write h))
    → disk.resolve (codes "files" ++ codes "/" ++ h.filename) ≢ 1
unfolding str_eq filename_of
cache_other h e =
    let named : codes "a" ≡ h.filename = ap filename_of (sym write_received ∙ e) in
    rw (sym named) (omega arith)

handle_server_request-content_example :
    (handle_server_request list_bits true 9 client (disk, asked)).1.0.content 1 ≡ some (1 ∷ [])
handle_server_request-content_example =
    handle_server_request-content list_bits true 9 1 client disk asked cache_other

-- A datagram with an unknown opcode.
abbrev unknown : Bytes
unknown = 0 ∷ 9 ∷ []

abbrev waiting : World
waiting = world_of (datagram unknown server ∷ [])

unknown_peeked :
    peek_decode true (filled buff_allocation_size unknown)
    ≡ ok (Header.invalid (filled buff_allocation_size unknown))
unfolding peek_decode index buff_allocation_size
unknown_peeked = refl

serve_idle_example : serve list_bits true 9 5 client (disk, waiting) ≡ (hang, (disk, waiting))
serve_idle_example =
    serve_idle list_bits true 9 client (Header.invalid (filled buff_allocation_size unknown)) server
      unknown [] disk waiting 5 refl refl unknown_peeked refl

abbrev answering : World
answering = record (world_of []) { send_results = λ n. wrote (length not_found_packet) }

handle_read_request_missing_example :
    let (o, (e, v)) =
      handle_read_request list_bits true 9
        (record { filename = codes "a"; mode = octet })
        client
        (disk, answering) in
    (o ≡ err disk.missing) × (e ≡ disk) × (v.outbox ≡ (not_found_packet, server) ∷ [])
unfolding str_eq
handle_read_request_missing_example =
    handle_read_request_missing list_bits true 8 (record { filename = codes "a"; mode = octet })
      client disk answering refl refl refl refl
