-- ===== src/App/Args/Options.antt =====
-- A command line that asks for a file.
use rust_tftp.App.Args.{
  Parsers, Action, request, window_arg, drop_arg, scan, asks_server, take_addresses, last_three,
  first_of, pmain,
}
use rust_tftp.Common.{
  ℕ, ◌+◌, ◌-◌, ◌<◌, ◌≡◌, refl, ap, ◌∙◌, arith, false, some, List, [], ◌∷◌, ◌++◌, length,
  length-append, drop-append, lt→ltb, le→leb, All, ◌==◌,
}
use rust_tftp.Common.Outcome.{Outcome, ok, ◌>>=◌}
use rust_tftp.Common.Slices.{Bytes, index}
use rust_tftp.Common.Text.{codes, str_eq}
use rust_tftp.Net.{SocketAddr}

-- An option with its value, as it is written and as it is read.
pub data Setting : Type 0 where
  window drops : Bytes → ℕ → Setting

-- An argument that is none of the words that the loop looks for.
pub record IsPlain (arg : Bytes) : Type 0 where
  pub not_s : str_eq arg (codes "-s") ≡ false
  pub not_help : str_eq arg (codes "--help") ≡ false
  pub not_w : str_eq arg (codes "-w") ≡ false
  pub not_d : str_eq arg (codes "-d") ≡ false

abbrev pub IsSetting : Parsers → Setting → Type 0
IsSetting parsers (window arg n) = IsPlain arg × (parsers.parse_usize arg ≡ some n) × (0 < n)
IsSetting parsers (drops arg n) = IsPlain arg × (parsers.parse_usize arg ≡ some n) × (n < 127)

abbrev pub written : List Setting → List Bytes
written [] = []
written (window arg n ∷ settings) = codes "-w" ∷ arg ∷ written settings
written (drops arg n ∷ settings) = codes "-d" ∷ arg ∷ written settings

-- The last of each kind counts.
abbrev pub window_after : List Setting → ℕ → ℕ
window_after [] n = n
window_after (window arg k ∷ settings) n = window_after settings k
window_after (drops arg k ∷ settings) n = window_after settings n

abbrev pub drops_after : List Setting → ℕ → ℕ
drops_after [] n = n
drops_after (window arg k ∷ settings) n = drops_after settings n
drops_after (drops arg k ∷ settings) n = drops_after settings k

module _ (parsers : Parsers) where
  scan_plain :
      (first arg : Bytes) (rest : List Bytes) (w d : ℕ)
      → IsPlain arg
      → scan parsers first (arg ∷ rest) w d ≡ scan parsers first rest w d
  unfolding scan
  scan_plain first arg rest w d p = rw (p.not_s, p.not_help, p.not_w, p.not_d) refl

  -- The arms of the two options with a value.
  scan_w :
      (first : Bytes) (rest : List Bytes) (w d : ℕ)
      → scan parsers first (codes "-w" ∷ rest) w d
        ≡ (window_arg parsers rest >>= λ n. scan parsers first rest n d)
  unfolding scan str_eq
  scan_w first rest w d = refl

  scan_d :
      (first : Bytes) (rest : List Bytes) (w d : ℕ)
      → scan parsers first (codes "-d" ∷ rest) w d
        ≡ (drop_arg parsers rest >>= λ n. scan parsers first rest w n)
  unfolding scan str_eq
  scan_d first rest w d = refl

  window_arg_read :
      (arg : Bytes) (rest : List Bytes) (n : ℕ)
      → parsers.parse_usize arg ≡ some n
      → 0 < n
      → window_arg parsers (arg ∷ rest) ≡ ok n
  unfolding window_arg
  window_arg_read arg rest n read positive = rw (read, lt→ltb 0 n positive)

  drop_arg_read :
      (arg : Bytes) (rest : List Bytes) (n : ℕ)
      → parsers.parse_usize arg ≡ some n
      → n < 127
      → drop_arg parsers (arg ∷ rest) ≡ ok n
  unfolding drop_arg
  drop_arg_read arg rest n read small = rw (read, lt→ltb n 127 small)

  scan-written :
      (first : Bytes) (settings : List Setting) (rest : List Bytes) (w d : ℕ)
      → All (IsSetting parsers) settings
      → scan parsers first (written settings ++ rest) w d
        ≡ scan parsers first rest (window_after settings w) (drops_after settings d)
  scan-written first [] rest w d v = refl
  scan-written first (window arg n ∷ settings) rest w d ((p, read, positive), v) =
      scan_w first (arg ∷ (written settings ++ rest)) w d
      ∙ ap
          (λ (o : Outcome Action ℕ).
            o >>= λ k. scan parsers first (arg ∷ (written settings ++ rest)) k d)
          (window_arg_read arg (written settings ++ rest) n read positive)
      ∙ scan_plain first arg (written settings ++ rest) n d p
      ∙ scan-written first settings rest n d v
  scan-written first (drops arg n ∷ settings) rest w d ((p, read, small), v) =
      scan_d first (arg ∷ (written settings ++ rest)) w d
      ∙ ap
          (λ (o : Outcome Action ℕ).
            o >>= λ k. scan parsers first (arg ∷ (written settings ++ rest)) w k)
          (drop_arg_read arg (written settings ++ rest) n read small)
      ∙ scan_plain first arg (written settings ++ rest) w n p
      ∙ scan-written first settings rest w n v

  module _ (local host url : Bytes) (a b : SocketAddr)
      (p : IsPlain local × IsPlain host × IsPlain url)
      (local_read : parsers.parse_addr local ≡ some a)
      (host_read : parsers.parse_addr host ≡ some b) where
    abbrev tail : List Bytes
    tail = local ∷ host ∷ url ∷ []

    scan-tail : (first : Bytes) (w d : ℕ) → scan parsers first tail w d ≡ ok (w, d)
    unfolding scan
    scan-tail first w d =
        scan_plain first local (host ∷ url ∷ []) w d p.0
        ∙ scan_plain first host (url ∷ []) w d p.1
        ∙ scan_plain first url [] w d p.2

    take_addresses-tail :
        (w d : ℕ) → take_addresses parsers tail w d ≡ ok (request a b url w d (w == 1))
    unfolding take_addresses index
    take_addresses-tail w d = rw (local_read, host_read)

    last_three-tail : (args : List Bytes) → last_three parsers (args ++ tail) ≡ ok tail
    unfolding last_three
    last_three-tail args =
        let n : length (args ++ tail) ≡ length args + 3 = length-append args tail in
        rw (
          le→leb 3 (length (args ++ tail)) (omega (arith, n)),
          drop-append (length (args ++ tail) - 3) args tail (omega (arith, n)),
        )

    pmain_long :
        (settings : List Setting)
        → All (IsSetting parsers) settings
        → 0 < length (written settings)
        → pmain parsers (written settings ++ tail)
          ≡ ok (
              request a b url
                (window_after settings 16)
                (drops_after settings 0)
                (window_after settings 16 == 1))
    unfolding pmain
    pmain_long settings v some_args = rw (
      lt→ltb 3 (length (written settings ++ tail))
          (omega (arith, length-append (written settings) tail)),
      scan-written (first_of parsers (written settings ++ tail)) settings tail 16 0 v,
      scan-tail (first_of parsers (written settings ++ tail)) (window_after settings 16)
          (drops_after settings 0),
      last_three-tail (written settings),
      take_addresses-tail (window_after settings 16) (drops_after settings 0),
    )

    pmain_short : pmain parsers tail ≡ ok (request a b url 16 0 false)
    unfolding pmain asks_server
    pmain_short = rw (p.0.not_s, p.1.not_s, p.2.not_s, take_addresses-tail 16 0)

    -- A command line of any number of options -w with a positive number and -d with a number below
    -- 127, in any order, and then two socket addresses and a URL, where none of the values,
    -- addresses and the URL is an option word, asks for that URL with the last window size and
    -- drop rate that are given, or 16 and 0 where none is, in stop-and-wait where the window size
    -- is 1.
    pub pmain-written :
        (settings : List Setting)
        → All (IsSetting parsers) settings
        → pmain parsers (written settings ++ tail)
          ≡ ok (
              request a b url
                (window_after settings 16)
                (drops_after settings 0)
                (window_after settings 16 == 1))
    pmain-written [] v = pmain_short
    pmain-written (window arg n ∷ settings) v = pmain_long (window arg n ∷ settings) v (omega arith)
    pmain-written (drops arg n ∷ settings) v = pmain_long (drops arg n ∷ settings) v (omega arith)
