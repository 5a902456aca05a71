-- ===== src/NetHandle/Request/Tests.antt =====
-- Examples for the loop of net_req_handler in core/net_handle.c.
use http_proxy.Prelude.{ℕ, false, Option, none, some, List, [], ◌∷◌, ◌++◌, pos}
use http_proxy.Prelude.Uthash.{Uthash}
use http_proxy.Libc.{str_eq}
use http_proxy.Run.{Keeps}
use http_proxy.Strbuf.{strbuf_init}
use http_proxy.Conn.{Recv, got}
use http_proxy.NetData.{NetHeaderEnt, NetReq, Regmatch}
use http_proxy.NetData.Parse.{Regex}
use http_proxy.NetData.TextTable.{text_assoc}
use http_proxy.NetHandle.{NetHandlers}
use http_proxy.NetHandle.Request.{read_request}
use http_proxy.NetHandle.Request.Answered.{IsAnswered, read_request-IsAnswered}
use http_proxy.Examples.{calloc, length-calloc, conn_with, world, conn_with-IsBuffered}

abbrev get_text : List ℕ
get_text = b'G' ∷ b'E' ∷ b'T' ∷ []

abbrev slots : List (Option NetHandlers)
slots = some (record { method = get_text; req_handler = 1; rsp_handler = 2 }) ∷ none ∷ []

-- `GET /`, LF, LF.
abbrev request : List Recv
request = got (get_text ++ b' ' ∷ b'/' ∷ 10 ∷ 10 ∷ []) ∷ []

abbrev regexec : Regex → List ℕ → Option Regmatch
regexec re text = some (record { rm_so = λ i. 0; rm_eo = λ i. 0; missing = λ i. false })

abbrev table : Uthash str_eq NetHeaderEnt
table = text_assoc NetHeaderEnt

abbrev blank : NetReq (List (List ℕ × NetHeaderEnt))
blank = record {
  data0 = record { buf = strbuf_init calloc; table = [] };
  port = pos 0;
  ver_major = pos 0;
  ver_minor = pos 0;
  host = none;
  protocol = none;
  path = 0;
}

get_is_dispatched :
    Keeps
      (IsAnswered table calloc length-calloc [] regexec slots blank (conn_with request [], world))
      (λ _. Unit {0})
      (read_request table calloc [] regexec slots blank (conn_with request [], world))
get_is_dispatched =
    read_request-IsAnswered table calloc length-calloc [] regexec slots blank (conn_with request [])
      world (conn_with-IsBuffered request [])
