-- ===== src/Tests/CommandLines.antt =====
-- A command line with two options.
use rust_tftp.App.Args.{Parsers, request, pmain}
use rust_tftp.App.Args.Options.{window, drops, IsPlain, pmain-written}
use rust_tftp.App.Fetch.{retain}
use rust_tftp.Common.{true, some, none, [], ◌∷◌, ◌≡◌, refl, arith, if◌then◌else◌}
use rust_tftp.Common.Outcome.{ok}
use rust_tftp.Common.Text.{codes, str_eq}
use rust_tftp.Tests.Sockets.{server}

-- Parsers that know one word each.
abbrev parsers : Parsers
parsers = record {
  parse_u16 = λ arg. none;
  parse_usize = λ arg. if str_eq arg (codes "1") then some 1 else none;
  parse_addr = λ arg. if str_eq arg (codes "here") then some server else none;
}

one-IsPlain : IsPlain (codes "1")
unfolding str_eq
one-IsPlain = record { not_s = refl; not_help = refl; not_w = refl; not_d = refl }

here-IsPlain : IsPlain (codes "here")
unfolding str_eq
here-IsPlain = record { not_s = refl; not_help = refl; not_w = refl; not_d = refl }

one_parsed : parsers.parse_usize (codes "1") ≡ some 1
unfolding str_eq
one_parsed = refl

here_parsed : parsers.parse_addr (codes "here") ≡ some server
unfolding str_eq
here_parsed = refl

pmain-written_example :
    pmain parsers (
      codes "-w"
      ∷ codes "1"
      ∷ codes "-d"
      ∷ codes "1"
      ∷ codes "here"
      ∷ codes "here"
      ∷ codes "here"
      ∷ [])
    ≡ ok (request server server (codes "here") 1 1 true)
pmain-written_example =
    pmain-written parsers (codes "here") (codes "here") (codes "here") server server
      (here-IsPlain, here-IsPlain, here-IsPlain) here_parsed here_parsed
      (window (codes "1") 1 ∷ drops (codes "1") 1 ∷ [])
      ((one-IsPlain, one_parsed, omega arith), ((one-IsPlain, one_parsed, omega arith), tt))

retained : retain (codes "http://a.b/c1") ≡ codes "httpa.bc"
unfolding retain
retained = refl
