-- ===== src/App/Args.antt =====
-- `pmain`, the command line, over the parsers of the standard library.
pub mod Options
use rust_tftp.Common.{
  ℕ, zero, suc, ◌-◌, Bool, true, false, ◌||◌, Option, none, some, List, [], ◌∷◌, ◌++◌, length, drop,
  get_elem?, leb, ltb, ◌==◌, if◌then◌else◌,
}
use rust_tftp.Common.Outcome.{Outcome, ok, err, panic, ◌>>=◌, ◌>>◌}
use rust_tftp.Common.Slices.{Bytes, index}
use rust_tftp.Common.Text.{codes, str_eq}
use rust_tftp.Net.{SocketAddr, v4, v6}

-- What is printed before the help text.
pub data Complaint : Type 0 where
  no_complaint no_server_port no_window_size no_drop_rate : Complaint
  invalid_port invalid_window_size invalid_drop_rate invalid_local_ip invalid_server :
      Bytes → Complaint

-- What the program goes on to do.
pub data Action : Type 0 where
  help : Complaint → Action
  server : SocketAddr → ℕ → Action
  request : SocketAddr → SocketAddr → Bytes → ℕ → ℕ → Bool → Action

-- `str::parse::<u16>`, `str::parse::<usize>` and `SocketAddr::from_str`; none is an error.
pub record Parsers : Type 0 where
  pub parse_u16 : Bytes → Option ℕ
  pub parse_usize : Bytes → Option ℕ
  pub parse_addr : Bytes → Option SocketAddr

-- The window size and the number of packets to drop; an early return is an error.
abbrev pub Scan : Type 0
Scan = Outcome Action (ℕ × ℕ)

module _ (parsers : Parsers) where
  -- `if let Ok(p) = args[i + 1].parse::<u16>()`; the complaint names `args[0]`.
  unfoldable pub serve_port : Bytes → Bool → ℕ → Option ℕ → Scan
  serve_port first use_ipv4 window_size none = err (help (invalid_port first))
  serve_port first true window_size (some port) =
      err (server (record { ip = v4 0; port = port }) window_size)
  serve_port first false window_size (some port) =
      err (server (record { ip = v6 0; port = port }) window_size)

  -- The arm of "-s", over the arguments behind it. Behind "--ipv4" the port is not looked for.
  unfoldable pub serve_args : Bytes → List Bytes → ℕ → Scan
  serve_args first [] window_size = err (help no_server_port)
  serve_args first (arg ∷ rest) window_size =
      if str_eq arg (codes "--ipv4")
      then (do port ← index rest 0; serve_port first true window_size (parsers.parse_u16 port))
      else serve_port first false window_size (parsers.parse_u16 arg)

  -- The value behind "-w", and behind "-d", or the early return.
  abbrev pub window_of : Bytes → Option ℕ → Outcome Action ℕ
  window_of arg none = err (help (invalid_window_size arg))
  window_of arg (some w) = if ltb 0 w then ok w else err (help (invalid_window_size arg))

  unfoldable pub window_arg : List Bytes → Outcome Action ℕ
  window_arg [] = err (help no_window_size)
  window_arg (arg ∷ rest) = window_of arg (parsers.parse_usize arg)

  abbrev pub drop_of : Bytes → Option ℕ → Outcome Action ℕ
  drop_of arg none = err (help (invalid_drop_rate arg))
  drop_of arg (some w) = if ltb w 127 then ok w else err (help (invalid_drop_rate arg))

  unfoldable pub drop_arg : List Bytes → Outcome Action ℕ
  drop_arg [] = err (help no_drop_rate)
  drop_arg (arg ∷ rest) = drop_of arg (parsers.parse_usize arg)

  -- `for i in 0..argn`, over the arguments from `i` on. A value is looked at as an argument too.
  unfoldable pub scan : Bytes → List Bytes → ℕ → ℕ → Scan
  scan first [] window_size drop_freq = ok (window_size, drop_freq)
  scan first (arg ∷ rest) window_size drop_freq =
      if str_eq arg (codes "-s")
      then serve_args first rest window_size
      else if str_eq arg (codes "--help")
      then err (help no_complaint)
      else if str_eq arg (codes "-w")
      then window_arg rest >>= (λ w. scan first rest w drop_freq)
      else if str_eq arg (codes "-d")
      then drop_arg rest >>= (λ w. scan first rest window_size w)
      else scan first rest window_size drop_freq

  -- `args.contains(&"-s".to_owned())`
  unfoldable pub asks_server : List Bytes → Bool
  asks_server [] = false
  asks_server (arg ∷ rest) = str_eq arg (codes "-s") || asks_server rest

  abbrev pub address : Complaint → Option SocketAddr → Outcome Action SocketAddr
  address c none = err (help c)
  address c (some a) = ok a

  -- `pmain` behind the loop: the last three arguments.
  unfoldable pub take_addresses : List Bytes → ℕ → ℕ → Outcome Action Action
  take_addresses args window_size drop_freq = do
    local ← index args 0
    local_addr ← address (invalid_local_ip local) (parsers.parse_addr local)
    host ← index args 1
    server_addr ← address (invalid_server host) (parsers.parse_addr host)
    url ← index args 2
    ok (request local_addr server_addr url window_size drop_freq (window_size == 1))

  -- `args.drain(0..argn - 3)`, which panics where fewer than three are left.
  unfoldable pub last_three : List Bytes → Outcome Action (List Bytes)
  last_three args = if leb 3 (length args) then ok (drop (length args - 3) args) else panic

  unfoldable pub first_of : List Bytes → Bytes
  first_of [] = []
  first_of (arg ∷ rest) = arg

  -- `pmain`, with an early return as an error.
  unfoldable pub pmain : List Bytes → Outcome Action Action
  pmain args =
      if ltb 3 (length args) || asks_server args
      then (do
        (window_size, drop_freq) ← scan (first_of args) args 16 0
        rest ← last_three args
        take_addresses rest window_size drop_freq)
      else if ltb (length args) 3
      then err (help no_complaint)
      else take_addresses args 16 0
