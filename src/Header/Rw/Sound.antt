-- ===== src/Header/Rw/Sound.antt =====
-- What is known of a packet that `RWHeader::from_raw` accepts.
use rust_tftp.Common.{
  ℕ, Bool, true, false, not, ◌==◌, ◌≡◌, ◌≢◌, refl, sym, ap, ◌∙◌, arith, [], ◌∷◌, ◌++◌, length, some,
  ltb,
}
use mathlib.Core.List.{append_assoc, append-nil}
use rust_tftp.Common.Outcome.{Outcome, ok, err, ◌>>=◌, ◌>>◌, ensure, >>=-eq-ok, ensure-eq-ok}
use rust_tftp.Common.Slices.{Bytes, index}
use rust_tftp.Common.Text.{contains_nul, utf8_valid, from_utf8}
use native.Mathlib.Decide.{ℕ_discrete}
use rust_tftp.Errors.{TftpError, invalid_filename, invalid_header_len, empty_filename, empty_mode}
use rust_tftp.Header.Rw.{
  assert_byte, from_raw, parse_request, filename_loop, mode_loop, decode_strings,
}
use rust_tftp.Header.Rw.Wire.{IsFilename}
use rust_tftp.Header.Types.{RequestType, request_opcode, RwHeader, from_str}

-- `xs` is `name`, a NUL, and `rest`.
pub record EndsAt (xs name rest : Bytes) : Type 0 where
  pub splits : xs ≡ name ++ 0 ∷ rest
  pub no_nul : contains_nul name ≡ false

EndsAt-here : (rest : Bytes) (b : ℕ) → b ≡ 0 → EndsAt (b ∷ rest) [] rest
unfolding contains_nul
EndsAt-here rest b e = record { splits = ap (λ (c : ℕ). c ∷ rest) e; no_nul = refl }

EndsAt-cons :
    {xs name rest : Bytes} (b : ℕ) → b ≢ 0 → EndsAt xs name rest → EndsAt (b ∷ xs) (b ∷ name) rest
unfolding contains_nul
EndsAt-cons b ne e = record { splits = ap (◌∷◌ b) e.splits; no_nul = ground (arith, e.no_nul) }

mode_loop_stop : (b : ℕ) (xs acc : Bytes) → b ≡ 0 → mode_loop (b ∷ xs) acc ≡ ok acc
unfolding mode_loop
mode_loop_stop b xs acc e = ground arith

mode_loop_next :
    (b : ℕ) (xs acc : Bytes) → b ≢ 0 → mode_loop (b ∷ xs) acc ≡ mode_loop xs (acc ++ b ∷ [])
unfolding mode_loop
mode_loop_next b xs acc ne = ground arith

filename_loop_stop :
    (src : Bytes) (b : ℕ) (xs acc : Bytes) → b ≡ 0 → filename_loop src (b ∷ xs) acc ≡ ok (acc, xs)
unfolding filename_loop
filename_loop_stop src b [] acc e = ground arith
filename_loop_stop src b (x ∷ xs) acc e = ground arith

filename_loop_next :
    (src : Bytes) (b x : ℕ) (xs acc : Bytes)
    → b ≢ 0
    → filename_loop src (b ∷ x ∷ xs) acc ≡ filename_loop src (x ∷ xs) (acc ++ b ∷ [])
unfolding filename_loop
filename_loop_next src b x xs acc ne = ground arith

filename_loop_last :
    (src : Bytes) (b : ℕ) (acc : Bytes)
    → b ≢ 0
    → filename_loop src (b ∷ []) acc ≡ err (invalid_filename src)
unfolding filename_loop
filename_loop_last src b acc ne = ground arith

mode_loop-EndsAt :
    (xs acc text : Bytes)
    → mode_loop xs acc ≡ ok text
    → (name rest : Bytes) × (text ≡ acc ++ name) × EndsAt xs name rest
mode_loop-EndsAt [] acc text h = unfold mode_loop in cc
mode_loop-EndsAt (b ∷ xs) acc text h = elim (ℕ_discrete b 0) [
  | yes z ↦ ([], xs, rw append-nil (cc (mode_loop_stop b xs acc z)), EndsAt-here xs b z)
  | no ne ↦
      let (name, rest, e, t) =
        mode_loop-EndsAt xs (acc ++ b ∷ []) text (sym (mode_loop_next b xs acc ne) ∙ h) in
      (b ∷ name, rest, e ∙ append_assoc acc (b ∷ []) name, EndsAt-cons b ne t)
]

filename_loop-stopped :
    (src : Bytes) (b : ℕ) (xs acc text rest : Bytes)
    → b ≡ 0
    → filename_loop src (b ∷ xs) acc ≡ ok (text, rest)
    → (name : Bytes) × (text ≡ acc ++ name) × EndsAt (b ∷ xs) name rest
filename_loop-stopped src b xs acc text rest z h =
    let e : text ≡ acc = cc (filename_loop_stop src b xs acc z) in
    let e' : xs ≡ rest = cc (filename_loop_stop src b xs acc z) in
    ([], rw append-nil e, rw e' (EndsAt-here rest b z))

filename_loop-EndsAt :
    (src xs acc text rest : Bytes)
    → filename_loop src xs acc ≡ ok (text, rest)
    → (name : Bytes) × (text ≡ acc ++ name) × EndsAt xs name rest
filename_loop-EndsAt src [] acc text rest h = unfold filename_loop in cc
filename_loop-EndsAt src (b ∷ []) acc text rest h = elim (ℕ_discrete b 0) [
  | yes z ↦ filename_loop-stopped src b [] acc text rest z h
  | no ne ↦ cc (filename_loop_last src b acc ne)
]
filename_loop-EndsAt src (b ∷ x ∷ xs) acc text rest h = elim (ℕ_discrete b 0) [
  | yes z ↦ filename_loop-stopped src b (x ∷ xs) acc text rest z h
  | no ne ↦
      let (name, e, t) =
        filename_loop-EndsAt src (x ∷ xs) (acc ++ b ∷ []) text rest
          (sym (filename_loop_next src b x xs acc ne) ∙ h) in
      (b ∷ name, e ∙ append_assoc acc (b ∷ []) name, EndsAt-cons b ne t)
]

-- How the packet `src` reads as the request `h`: `text` is the mode's, `rest` is not looked at.
pub record Reads (t : RequestType) (src : Bytes) (h : RwHeader t) : Type 0 where
  pub high : ℕ
  pub low : ℕ
  pub text : Bytes
  pub rest : Bytes
  pub is_src : src ≡ high ∷ low ∷ (h.filename ++ (0 ∷ (text ++ (0 ∷ rest))))
  pub filename_ok : IsFilename h.filename
  pub mode_ok : from_str text ≡ some h.mode

decode_strings-eq-ok :
    (t : RequestType) (src name text : Bytes) (h : RwHeader t)
    → decode_strings t src (from_utf8 name) (from_utf8 text) ≡ ok h
    → (utf8_valid name ≡ true) × (h.filename ≡ name) × (from_str text ≡ some h.mode)
unfolding decode_strings from_utf8
decode_strings-eq-ok t src name text h e = ground arith

IsFilename-head :
    (c : ℕ) (xs name rest : Bytes)
    → EndsAt (c ∷ xs) name rest
    → c ≢ 0
    → utf8_valid name ≡ true
    → IsFilename name
IsFilename-head c xs [] rest n ne valid = absurd (ne (cc (n.splits)))
IsFilename-head c xs (b ∷ name) rest n ne valid = record {
  ne_nil = λ e. cc;
  no_nul = n.no_nul;
  utf8 = valid;
}

assemble :
    (t : RequestType) (a b c : ℕ) (xs : Bytes) (h : RwHeader t) (name rest text rest' : Bytes)
    → EndsAt (c ∷ xs) name rest
    → EndsAt rest text rest'
    → c ≢ 0
    → utf8_valid name ≡ true
    → h.filename ≡ name
    → from_str text ≡ some h.mode
    → Reads t (a ∷ b ∷ c ∷ xs) h
assemble t a b c xs h name rest text rest' n m ne valid same known = record {
  high = a;
  low = b;
  text = text;
  rest = rest';
  is_src = rw (n.splits, m.splits, same);
  filename_ok = rw same (IsFilename-head c xs name rest n ne valid);
  mode_ok = known;
}

abbrev after_mode : (t : RequestType) → Bytes → Bytes → Bytes → Outcome TftpError (RwHeader t)
after_mode t src name text =
    ensure (not (length text == 0)) empty_mode
    >> decode_strings t src (from_utf8 name) (from_utf8 text)

abbrev after_name : (t : RequestType) → Bytes → Bytes × Bytes → Outcome TftpError (RwHeader t)
after_name t src (name, rest) = mode_loop rest [] >>= after_mode t src name

parse_request-Reads :
    (t : RequestType) (src : Bytes) (h : RwHeader t) → parse_request t src ≡ ok h → Reads t src h
unfolding parse_request index
parse_request-Reads t [] h e = cc
parse_request-Reads t (a ∷ []) h e = cc
parse_request-Reads t (a ∷ b ∷ []) h e = cc
parse_request-Reads t (a ∷ b ∷ c ∷ xs) h e =
    let src : Bytes = a ∷ b ∷ c ∷ xs in
    let loops : Outcome TftpError (RwHeader t) =
      filename_loop src (c ∷ xs) [] >>= after_name t src in
    let named_part : Outcome TftpError (RwHeader t) =
      ensure (not (c == 0)) empty_filename >> loops in
    let (_, e1) = ensure-eq-ok (not (ltb (length src) 6)) invalid_header_len named_part e in
    let (ne, e2) = ensure-eq-ok (not (c == 0)) empty_filename loops e1 in
    let ((name, rest), named, e3) =
      >>=-eq-ok (filename_loop src (c ∷ xs) []) (after_name t src) e2 in
    let (text, moded, e4) = >>=-eq-ok (mode_loop rest []) (after_mode t src name) e3 in
    let (_, e5) =
      ensure-eq-ok (not (length text == 0)) empty_mode
        (decode_strings t src (from_utf8 name) (from_utf8 text)) e4 in
    let (name', is_name, name_at) = filename_loop-EndsAt _ (c ∷ xs) [] name rest named in
    let (text', rest', is_text, text_at) = mode_loop-EndsAt rest [] text moded in
    let (valid, same, known) = decode_strings-eq-ok t _ name text h e5 in
    assemble t a b c xs h name' rest text' rest' name_at text_at (ground arith)
      (rw is_name at valid) (same ∙ is_name) (rw is_text at known)

-- A packet that RWHeader::from_raw accepts is two bytes, the filename of the result, a NUL, the
-- text of its mode, a NUL, and any rest, where the filename is not empty, has no NUL and is UTF-8.
pub from_raw-Reads :
    (debug : Bool) (t : RequestType) (src : Bytes) (h : RwHeader t)
    → from_raw debug t src ≡ ok h
    → Reads t src h
unfolding from_raw
from_raw-Reads true t src h e =
    let second : Outcome TftpError (RwHeader t) =
      assert_byte true src 1 (request_opcode t) >> parse_request t src in
    let (_, _, e1) = >>=-eq-ok (assert_byte true src 0 0) (λ _. second) e in
    let (_, _, e2) =
      >>=-eq-ok (assert_byte true src 1 (request_opcode t)) (λ _. parse_request t src) e1 in
    parse_request-Reads t src h e2
from_raw-Reads false t src h e = parse_request-Reads t src h e
