-- ===== src/Arg.antt =====
-- core/arg.c and core/arg.h: the command line. An argument is the list of its bytes; whether fopen
-- succeeds is a parameter. What usage prints is left out: it returns -1.
pub mod Port
mod Tests
use http_proxy.Prelude.{
  ℕ, zero, suc, Bool, true, false, ◌||◌, Option, none, some, List, [], ◌∷◌, ℤ, pos, negsuc,
  is_minus_one, ltb, if◌then◌else◌, length,
}
use http_proxy.Libc.{str_eq, atoi_int}

-- struct proxy_arg_t
pub record ProxyArg : Type 0 where
  pub port : ℤ
  pub addr : List ℕ
  pub verbose : ℕ
  pub log_file : Option (List ℕ)

-- PROXY_LOG_LEVEL_DEBUG and PROXY_LOG_LEVEL_INFO of core/log.h
abbrev pub proxy_log_level_debug : ℕ
proxy_log_level_debug = 2

abbrev pub proxy_log_level_info : ℕ
proxy_log_level_info = 3

-- The initial value of `arg`: port -1, address 127.0.0.1, no log file.
abbrev pub arg_default : ProxyArg
arg_default = record {
  port = negsuc 0;
  addr = b'1' ∷ b'2' ∷ b'7' ∷ b'.' ∷ b'0' ∷ b'.' ∷ b'0' ∷ b'.' ∷ b'1' ∷ [];
  verbose = proxy_log_level_info;
  log_file = none;
}

-- `option` is the letter: the texts that the arguments are compared with.
abbrev pub option : ℕ → List ℕ
option c = b'-' ∷ c ∷ []

-- `argv[x + 1]`: NULL behind the last argument.
abbrev pub next_arg : List (List ℕ) → Option (List ℕ)
next_arg [] = none
next_arg (a ∷ rest) = some a

abbrev pub after_next : List (List ℕ) → List (List ℕ)
after_next [] = []
after_next (a ∷ rest) = rest

-- Each parser returns true for 0.
unfoldable pub parse_addr : Option (List ℕ) → ProxyArg → Bool × ProxyArg
parse_addr none arg = (false, arg)
parse_addr (some a) arg = (true, record arg { addr = a })

unfoldable pub parse_log_file : (List ℕ → Bool) → Option (List ℕ) → ProxyArg → Bool × ProxyArg
parse_log_file fopen none arg = (false, arg)
parse_log_file fopen (some f) arg =
    if fopen f
    then (true, record arg { log_file = some f })
    else (false, record arg { log_file = none })

-- port < 1 || port > 65535
abbrev pub out_of_range : ℤ → Bool
out_of_range (pos n) = ltb n 1 || ltb 65535 n
out_of_range (negsuc n) = true

unfoldable pub parse_port : List ℕ → ProxyArg → Bool × ProxyArg
parse_port a arg =
    if out_of_range (atoi_int a)
    then (false, record arg { port = atoi_int a })
    else (true, record arg { port = atoi_int a })

-- Behind the loop.
unfoldable pub check_port : ProxyArg → Bool × ProxyArg
check_port arg = if is_minus_one arg.port then (false, arg) else (true, arg)

-- The loop over the arguments from `x` on. A round takes one argument or two, so their number is
-- enough fuel.
unfoldable pub parse_loop :
    (List ℕ → Bool) → ℕ → List (List ℕ) → ProxyArg → Option (Bool × ProxyArg)
unfolding parse_addr parse_log_file parse_port check_port
parse_loop fopen fuel [] arg = some (check_port arg)
parse_loop fopen zero (a ∷ rest) arg = none
parse_loop fopen (suc fuel) (a ∷ rest) arg =
    let (addr_ok, addr_arg) = parse_addr (next_arg rest) arg in
    let (log_ok, log_arg) = parse_log_file fopen (next_arg rest) arg in
    let (port_ok, port_arg) = parse_port a arg in
    let verbose = parse_loop fopen fuel rest (record arg { verbose = proxy_log_level_debug }) in
    let with_addr = parse_loop fopen fuel (after_next rest) addr_arg in
    let with_log = parse_loop fopen fuel (after_next rest) log_arg in
    if str_eq a (option b'v')
    then verbose
    else if str_eq a (option b'a')
    then (if addr_ok then with_addr else some (false, addr_arg))
    else if str_eq a (option b'l')
    then (if log_ok then with_log else some (false, log_arg))
    else if str_eq a (option b'h')
    then some (false, arg)
    else if port_ok
    then some (check_port port_arg)
    else some (false, port_arg)

-- proxy_parse_arg on the arguments behind argv[0]: true for 0.
unfoldable pub proxy_parse_arg :
    (List ℕ → Bool) → List (List ℕ) → ProxyArg → Option (Bool × ProxyArg)
unfolding parse_loop
proxy_parse_arg fopen args arg = parse_loop fopen (length args) args arg
