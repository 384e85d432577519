-- ===== src/Client/Missing.antt =====
-- The answer to a request for a file that is not there.
use rust_tftp.BitSets.{BitSets}
use rust_tftp.Client.Files.{Disk, open_file, on_disk, with_object}
use rust_tftp.Client.Requests.{TftpClient, path_of, send_error, answer_read, handle_read_request}
use rust_tftp.Common.{ℕ, suc, Bool, false, none, [], ◌∷◌, ◌++◌, length, ◌≡◌, refl, ==-self}
use rust_tftp.Common.Outcome.{ok, err}
use rust_tftp.Common.Slices.{Bytes}
use rust_tftp.Common.State.{◌>>=◌, pure, fail, lift, attempt}
use rust_tftp.Common.Text.{codes, contains_nul}
use rust_tftp.Header.Failed
use rust_tftp.Header.Failed.Wire.{failure, into_raw-failure}
use rust_tftp.Header.Types.{read_request, RwHeader, file_not_found}
use rust_tftp.Net.{World, wrote, send_to, answer_send}
use rust_tftp.Transfer.SendError as SendErrors
use rust_tftp.Transfer.SendError.{SendError, send_loop, after_send, poll}
use rust_tftp.Transfer.Session.{world, self, with_lock_free}

-- The packet of the error.
abbrev pub not_found_packet : Bytes
not_found_packet = failure file_not_found (codes "<No description supplied>")

abbrev unsent : TftpClient → SendError
unsent c = record { host_addr = c.host_addr; send_attempts = 0; raw_header = not_found_packet }

send_error_lem : (c : TftpClient) → send_error file_not_found c ≡ ok (unsent c)
unfolding send_error Failed.new SendErrors.new contains_nul
send_error_lem c =
    rw
      (into_raw-failure
        (record { error_code = file_not_found; error_message = codes "<No description supplied>" }))
      refl

send_loop_whole :
    (rounds : ℕ) (s : SendError) (w : World)
    → w.locked ≡ false
    → w.send_results 0 ≡ wrote (length s.raw_header)
    → send_loop (suc rounds) (s, w) ≡ (
      ok tt,
      (
        s,
        record w {
          outbox = w.outbox ++ (s.raw_header, s.host_addr) ∷ [];
          send_results = λ k. w.send_results (suc k);
          locked = false;
        },
      ),
    )
unfolding send_loop poll after_send ◌>>=◌ attempt pure self world send_to answer_send
send_loop_whole rounds s w free whole =
    rw (with_lock_free _ _ s w free, whole, ==-self (length s.raw_header))

-- A read request for a path that can be opened and has no file, with the lock free and the send
-- answered with the length of the packet, sends the error FileNotFound to the host, returns the
-- error of the open, and changes no file.
pub handle_read_request_missing :
    (bits : BitSets) (debug : Bool) (rounds : ℕ) (h : RwHeader read_request) (c : TftpClient)
    (d : Disk) (w : World)
    → d.open_error (path_of c h.filename) ≡ none
    → d.content (d.resolve (path_of c h.filename)) ≡ none
    → w.locked ≡ false
    → w.send_results 0 ≡ wrote (length not_found_packet)
    → let (o, (e, v)) = handle_read_request bits debug (suc rounds) h c (d, w) in
      (o ≡ err d.missing) × (e ≡ d) × (v.outbox ≡ w.outbox ++ (not_found_packet, c.host_addr) ∷ [])
unfolding handle_read_request answer_read open_file on_disk with_object ◌>>=◌ attempt lift fail
handle_read_request_missing bits debug rounds h c d w opened missing free whole =
    rw (opened, missing, send_error_lem c, send_loop_whole rounds (unsent c) w free whole)
      (refl, refl, refl)
