-- ===== src/Arg/Tests.antt =====
-- core/arg.c: command lines.
use http_proxy.Libc.{str_eq, atoi_int}
use http_proxy.Prelude.{ℕ, ◌≡◌, refl, Bool, true, some, List, [], ◌∷◌, pos}
use http_proxy.Arg.{proxy_log_level_debug, arg_default, option, proxy_parse_arg}
use http_proxy.Arg.Port.{Accepts, proxy_parse_arg-port}

abbrev fopen : List ℕ → Bool
fopen path = true

abbrev port_8080 : List ℕ
port_8080 = b'8' ∷ b'0' ∷ b'8' ∷ b'0' ∷ []

abbrev local : List ℕ
local = b':' ∷ b':' ∷ b'1' ∷ []

abbrev command_line : List (List ℕ)
command_line = option b'v' ∷ option b'a' ∷ local ∷ port_8080 ∷ []

parsed :
    proxy_parse_arg fopen command_line arg_default
    ≡ some (
      true,
      record arg_default { port = pos 8080; addr = local; verbose = proxy_log_level_debug },
    )
unfolding proxy_parse_arg str_eq atoi_int
parsed = refl

port_is_valid : Accepts (proxy_parse_arg fopen command_line arg_default)
port_is_valid = proxy_parse_arg-port fopen command_line arg_default refl
