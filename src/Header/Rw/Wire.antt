-- ===== src/Header/Rw/Wire.antt =====
-- The bytes of a read or write request, and how they are read back.
use rust_tftp.Common.{
  ℕ, zero, suc, ◌+◌, ◌≤◌, Bool, true, false, not, ◌==◌, ◌≡◌, ◌≢◌, refl, sym, arith, [], ◌∷◌, ◌++◌,
  length, replicate, length-append, length-replicate, replicate-add, le→ltb, ne→==, some, inr,
}
use rust_tftp.Common.Copies.{store-append, copy_into-append, copy_into_after, store_after}
use rust_tftp.Common.Outcome.{ok, ◌>>=◌, ◌>>◌, ensure}
use rust_tftp.Common.Slices.{Bytes, index}
use rust_tftp.Common.Text.{contains_nul, utf8_valid, from_utf8}
use rust_tftp.Errors.{empty_mode}
use rust_tftp.Header.Rw.{
  from_raw, parse_request, into_raw, assert_nonzero, filename_loop, mode_loop, decode_strings,
}
use rust_tftp.Header.Rw.Loops.{filename_loop-nul, mode_loop-nul}
use rust_tftp.Header.Types.{
  RwMode, mail, netascii, octet, from_str, mode_bytes, RequestType, write_request, read_request,
  request_opcode, RwHeader,
}

-- What a filename must be for its request to be read back.
pub record IsFilename (name : Bytes) : Type 0 where
  pub ne_nil : name ≢ []
  pub no_nul : contains_nul name ≡ false
  pub utf8 : utf8_valid name ≡ true

abbrev pub request : ℕ → Bytes → Bytes → Bytes
request opcode name mode = 0 ∷ opcode ∷ (name ++ (0 ∷ (mode ++ (0 ∷ []))))

zeros_split :
    (n m : ℕ)
    → replicate (4 + n + m) zero ≡ 0 ∷ 0 ∷ (replicate n 0 ++ (0 ∷ (replicate m 0 ++ (0 ∷ []))))
zeros_split n m =
    let e : 4 + n + m ≡ suc (suc (n + suc (m + 1))) = omega arith in
    rw (e, replicate-add n (suc (m + 1)) zero, replicate-add m 1 zero)

assert_name :
    (debug : Bool) (opcode : ℕ) (name rest : Bytes)
    → IsFilename name
    → assert_nonzero debug (0 ∷ opcode ∷ (name ++ rest)) 2 ≡ ok tt
unfolding index contains_nul
assert_name false opcode name rest v = refl
assert_name true opcode [] rest v = absurd (v.ne_nil refl)
assert_name true opcode (b ∷ name) rest v = ground (arith, v.no_nul)

pub into_raw-request :
    (debug : Bool) (t : RequestType) (h : RwHeader t)
    → IsFilename h.filename
    → into_raw debug t h ≡ ok (request (request_opcode t) h.filename (mode_bytes h.mode))
unfolding into_raw
into_raw-request debug t h v =
    let op : ℕ = request_opcode t in
    let mode : Bytes = mode_bytes h.mode in
    let n : ℕ = length h.filename in
    let m : ℕ = length mode in
    let zeros : Bytes = replicate m 0 in
    let tail : Bytes = zeros ++ 0 ∷ [] in
    let names : Bytes = replicate n 0 in
    let start : Bytes = 0 ∷ op ∷ h.filename in
    let i : ℕ = 2 + n in
    rw (
      zeros_split n m,
      store-append [] (0 ∷ (names ++ 0 ∷ tail)) 0 0 0 refl,
      store-append (0 ∷ []) (names ++ 0 ∷ tail) 0 op 1 refl,
      copy_into-append (0 ∷ op ∷ []) names (0 ∷ tail) h.filename 2 (n + 2) refl
          (omega (arith, length-replicate n zero)) (sym (length-replicate n 0)),
      store-append start tail 0 0 i (omega arith),
      assert_name debug op h.filename (0 ∷ tail) v,
      copy_into_after start zeros (0 ∷ []) mode 0 (i + 1) (i + 1 + m) (omega arith)
          (omega (arith, length-replicate m zero)) (sym (length-replicate m 0)),
      store_after start mode [] 0 0 0 (i + 1 + m) (omega arith),
    )

pub from_str-mode_bytes : (m : RwMode) → from_str (mode_bytes m) ≡ some m
unfolding from_str mode_bytes
from_str-mode_bytes mail = refl
from_str-mode_bytes netascii = refl
from_str-mode_bytes octet = refl

pub mode_bytes_valid :
    (m : RwMode)
    → (contains_nul (mode_bytes m) ≡ false)
      × (utf8_valid (mode_bytes m) ≡ true)
      × (4 ≤ length (mode_bytes m))
unfolding mode_bytes utf8_valid contains_nul
mode_bytes_valid mail = (refl, refl, omega arith)
mode_bytes_valid netascii = (refl, refl, omega arith)
mode_bytes_valid octet = (refl, refl, omega arith)

pub from_utf8-valid : (bs : Bytes) → utf8_valid bs ≡ true → from_utf8 bs ≡ inr bs
unfolding from_utf8
from_utf8-valid bs h = rw h

-- The assertions of a debug build hold of a packet with the right first bytes.
pub from_raw-parse_request :
    (debug : Bool) (t : RequestType) (rest : Bytes)
    → from_raw debug t (0 ∷ request_opcode t ∷ rest) ≡ parse_request t (0 ∷ request_opcode t ∷ rest)
unfolding from_raw index
from_raw-parse_request true write_request rest = refl
from_raw-parse_request true read_request rest = refl
from_raw-parse_request false t rest = refl

pub parse_request-loops :
    (t : RequestType) (high low first : ℕ) (name : Bytes)
    → first ≢ 0
    → 3 ≤ length name
    → parse_request t (high ∷ low ∷ first ∷ name) ≡ (do
      (filename, rest) ← filename_loop (high ∷ low ∷ first ∷ name) (first ∷ name) []
      mode ← mode_loop rest []
      ensure (not (length mode == 0)) empty_mode
      decode_strings t (high ∷ low ∷ first ∷ name) (from_utf8 filename) (from_utf8 mode))
unfolding parse_request index
parse_request-loops t high low first name ne long =
    rw (le→ltb (length (high ∷ low ∷ first ∷ name)) 6 (omega arith), ne→== first 0 ne)

pub head_ne_zero : (b : ℕ) (bs : Bytes) → contains_nul (b ∷ bs) ≡ false → b ≢ 0
unfolding contains_nul
head_ne_zero b bs h = ground arith

pub decode_strings_known :
    (t : RequestType) (src name text : Bytes) (m : RwMode)
    → from_str text ≡ some m
    → decode_strings t src (inr name) (inr text) ≡ ok (record { filename = name; mode = m })
unfolding decode_strings
decode_strings_known t src name text m known = ground arith

-- Any text of a mode is accepted, and whatever stands behind its NUL.
pub from_raw-request :
    (debug : Bool) (t : RequestType) (name text rest : Bytes) (m : RwMode)
    → IsFilename name
    → contains_nul text ≡ false
    → utf8_valid text ≡ true
    → from_str text ≡ some m
    → 4 ≤ length text
    → from_raw debug t (0 ∷ request_opcode t ∷ (name ++ (0 ∷ (text ++ (0 ∷ rest)))))
      ≡ ok (record { filename = name; mode = m })
from_raw-request debug t [] text rest m v no_nul utf8 known long = absurd (v.ne_nil refl)
from_raw-request debug t (b ∷ name) text rest m v no_nul utf8 known long = rw (
  from_raw-parse_request debug t,
  parse_request-loops t 0 (request_opcode t) b (name ++ 0 ∷ (text ++ 0 ∷ rest))
      (head_ne_zero b name v.no_nul)
      (omega (arith, length-append name (0 ∷ (text ++ 0 ∷ rest)), length-append text (0 ∷ rest))),
  filename_loop-nul _ (b ∷ name) (text ++ 0 ∷ rest) [] v.no_nul,
  mode_loop-nul text rest [] no_nul,
  ne→== (length text) 0 (omega arith),
  from_utf8-valid (b ∷ name) v.utf8,
  from_utf8-valid text utf8,
  decode_strings_known t _ (b ∷ name) text m known,
)

-- A read or write request whose filename is not empty, has no NUL and is UTF-8 is encoded without
-- a panic, and decoded from its encoding to itself.
pub from_raw-into_raw_rw :
    (debug : Bool) (t : RequestType) (h : RwHeader t)
    → IsFilename h.filename
    → (into_raw debug t h >>= from_raw debug t) ≡ ok h
from_raw-into_raw_rw debug t h v =
    let text = mode_bytes_valid h.mode in
    rw (into_raw-request debug t h v) (
      from_raw-request debug t h.filename (mode_bytes h.mode) [] h.mode v text.0 text.1
        (from_str-mode_bytes h.mode) text.2)
