-- ===== src/NetHandle.antt =====
-- core/net_handle.c: the handlers of the methods, reading the head of a message, the error answers,
-- and the list of requests that wait for their responses. A handler is a number.
pub mod Registry
pub mod Fetch
pub mod Answers
pub mod Pipeline
pub mod Nodes
pub mod Connect
pub mod Usable
pub mod Session
pub mod Request
mod Tests
use http_proxy.Prelude.{
  ℕ, zero, suc, ◌+◌, ◌*◌, ◌-◌, Bool, true, false, Option, none, some, List, [], ◌∷◌, ◌++◌, ℤ, pos,
  negsuc, ◌==◌, if◌then◌else◌,
}
use http_proxy.Prelude.Uthash.{Uthash}
use http_proxy.Libc.{str_eq}
use http_proxy.Run.{Run, Io, done, out_of_fuel, and_then}
use http_proxy.Strbuf.{Strbuf, strbuf_append}
use http_proxy.Conn.{Conn, World, is_closed, conn_close}
use http_proxy.ConnIo.{State, conn_gets, conn_write}
use http_proxy.NetData.{NetHeaderEnt, NetData, Regmatch}
use http_proxy.NetData.Parse.{Regex, net_parse_header}

-- struct net_handlers, with `method` not NULL
pub record NetHandlers : Type 0 where
  pub method : List ℕ
  pub req_handler : ℕ
  pub rsp_handler : ℕ

-- net_handle_register on `handlers`, where `none` is a slot whose method is NULL. A full table stays
-- as it is.
unfoldable pub net_handle_register :
    NetHandlers → List (Option NetHandlers) → List (Option NetHandlers)
net_handle_register h [] = []
net_handle_register h (none ∷ slots) = some h ∷ slots
net_handle_register h (some g ∷ slots) = some g ∷ net_handle_register h slots

-- method_strcmp on two strings, each without its NUL: true for 0.
unfoldable pub method_strcmp : List ℕ → List ℕ → Bool
method_strcmp [] [] = true
method_strcmp [] (b ∷ m1) = b == b' '
method_strcmp (a ∷ m0) [] = false
method_strcmp (a ∷ m0) (b ∷ m1) =
    let rest = method_strcmp m0 m1 in if b == b' ' then false else if a == b then rest else false

-- net_get_handler on a method, none for NULL.
unfoldable pub net_get_handler : List ℕ → List (Option NetHandlers) → Option NetHandlers
unfolding method_strcmp
net_get_handler method [] = none
net_get_handler method (none ∷ slots) = none
net_get_handler method (some h ∷ slots) =
    let rest = net_get_handler method slots in
    if method_strcmp h.method method then some h else rest

abbrev pub http_header_maxlen : ℕ
http_header_maxlen = 32 * 1024

-- ret <= 0
abbrev pub not_positive : ℤ → Bool
not_positive (pos n) = n == 0
not_positive (negsuc n) = true

module _ (T : Uthash str_eq NetHeaderEnt) (malloc : ℕ → List ℕ) (behind : List ℕ)
    (regexec : Regex → List ℕ → Option Regmatch) where
  -- Behind conn_gets in the loop of net_fetch_headers: the NUL, and the header line at p0.
  abbrev pub header_line : ℕ → NetData T.Table → Strbuf → Bool × NetData T.Table
  header_line p0 d b =
      net_parse_header T malloc behind regexec (record d { buf = strbuf_append malloc b 0 }) p0

  -- The loop of net_fetch_headers. A round that goes on adds a byte or more to the buffer.
  unfoldable pub fetch_loop : ℕ → NetData T.Table → Io State (ℤ × NetData T.Table)
  unfolding conn_gets net_parse_header
  fetch_loop zero d s = out_of_fuel
  fetch_loop (suc fuel) d s =
      and_then {B = ℤ × NetData T.Table} (conn_gets malloc http_header_maxlen d.buf s)
        (λ (ret, b) s'.
          let (ok, d') = header_line d.buf.len d b in
          let rest = fetch_loop fuel d' s' in
          if not_positive ret
          then done (ret, record d { buf = b }) s'
          else if ok
          then rest
          else done (negsuc 0, d') s')

  -- net_fetch_headers: its result and the data. The limit on the text is enough fuel.
  unfoldable pub net_fetch_headers : NetData T.Table → Io State (ℤ × NetData T.Table)
  unfolding fetch_loop
  net_fetch_headers d s = fetch_loop http_header_maxlen d s

  -- net_fetch_http: a start line, a NUL, and the headers.
  unfoldable pub net_fetch_http : NetData T.Table → Io State (ℤ × NetData T.Table)
  unfolding net_fetch_headers conn_gets
  net_fetch_http d s =
      and_then {B = ℤ × NetData T.Table} (conn_gets malloc http_header_maxlen d.buf s)
        (λ (ret, b) s'.
          let headers = net_fetch_headers (record d { buf = strbuf_append malloc b 0 }) s' in
          if not_positive ret then done (ret, record d { buf = b }) s' else headers)

-- `Server: http-proxy`, as the two error answers end.
abbrev pub server_line : List ℕ
server_line =
    b'S' ∷ b'e' ∷ b'r' ∷ b'v' ∷ b'e' ∷ b'r' ∷ b':' ∷ b' ' ∷ b'h' ∷ b't' ∷ b't' ∷ b'p' ∷ b'-' ∷ b'p'
    ∷ b'r' ∷ b'o' ∷ b'x' ∷ b'y' ∷ 13 ∷ 10 ∷ 13 ∷ 10 ∷ []

abbrev pub bad_request_msg : List ℕ
bad_request_msg =
    (b'H' ∷ b'T' ∷ b'T' ∷ b'P' ∷ b'/' ∷ b'1' ∷ b'.' ∷ b'1' ∷ b' ' ∷ b'4' ∷ b'0' ∷ b'0' ∷ b' ' ∷ b'B'
      ∷ b'a' ∷ b'd' ∷ b' ' ∷ b'R' ∷ b'e' ∷ b'q' ∷ b'u' ∷ b'e' ∷ b's' ∷ b't' ∷ 13 ∷ 10 ∷ [])
    ++ server_line

abbrev pub bad_gateway_msg : List ℕ
bad_gateway_msg =
    (b'H' ∷ b'T' ∷ b'T' ∷ b'P' ∷ b'/' ∷ b'1' ∷ b'.' ∷ b'1' ∷ b' ' ∷ b'5' ∷ b'0' ∷ b'2' ∷ b' ' ∷ b'B'
      ∷ b'a' ∷ b'd' ∷ b' ' ∷ b'G' ∷ b'a' ∷ b't' ∷ b'e' ∷ b'w' ∷ b'a' ∷ b'y' ∷ 13 ∷ 10 ∷ [])
    ++ server_line

unfoldable pub net_bad_request : Io State (Unit {0})
unfolding conn_write conn_close
net_bad_request (c, w) =
    if is_closed c.stat
    then done tt (c, w)
    else and_then {B = Unit {0}} (conn_write bad_request_msg (c, w))
        (λ ok (d, u). done tt (conn_close d u))

unfoldable pub net_bad_gateway : Io State (Unit {0})
unfolding conn_write
net_bad_gateway (c, w) =
    if is_closed c.stat
    then done tt (c, w)
    else and_then {B = Unit {0}} (conn_write bad_gateway_msg (c, w)) (λ ok s. done tt s)
