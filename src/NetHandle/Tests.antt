-- ===== src/NetHandle/Tests.antt =====
-- Examples for core/net_handle.c.
use http_proxy.Prelude.{ℕ, refl, inl, arith, false, Option, some, List, [], ◌∷◌, ◌++◌}
use http_proxy.Prelude.Uthash.{Uthash}
use http_proxy.Libc.{str_eq}
use http_proxy.Run.{Keeps}
use http_proxy.Strbuf.{strbuf_init}
use http_proxy.Strbuf.Laws.{strbuf_init-IsValid}
use http_proxy.Conn.{Recv, got}
use http_proxy.NetData.{NetHeaderEnt, NetData, Regmatch}
use http_proxy.NetData.Parse.{Regex}
use http_proxy.NetData.TextTable.{text_assoc}
use http_proxy.NetHandle.{net_fetch_http}
use http_proxy.NetHandle.Fetch.{IsHead, net_fetch_http-IsHead}
use http_proxy.NetHandle.Pipeline.{
  NetHandleList, NetHandleCxt, cxt_init, add_http, rsp_start, notice, rsp_next, Act, added, served,
  silent, Steps, step, stop, start, http, told, next, IsWoken, Steps-IsWoken,
}
use http_proxy.Examples.{calloc, length-calloc, conn_with, world, conn_with-IsBuffered}

abbrev get_text : List ℕ
get_text = b'G' ∷ b'E' ∷ b'T' ∷ []

-- `GET`, CR LF, `a:b`, LF, LF in two blocks.
abbrev head_blocks : List Recv
head_blocks =
    got (get_text ++ 13 ∷ []) ∷ got (10 ∷ b'a' ∷ b':' ∷ []) ∷ got (b'b' ∷ 10 ∷ 10 ∷ []) ∷ []

abbrev regexec : Regex → List ℕ → Option Regmatch
regexec re text = some (record { rm_so = λ i. 0; rm_eo = λ i. 0; missing = λ i. false })

abbrev table : Uthash str_eq NetHeaderEnt
table = text_assoc NetHeaderEnt

abbrev empty_data : NetData (List (List ℕ × NetHeaderEnt))
empty_data = record { buf = strbuf_init calloc; table = [] }

message_is_read :
    Keeps
      (IsHead table calloc length-calloc [] regexec)
      (λ _. Unit {0})
      (net_fetch_http table calloc [] regexec empty_data (conn_with head_blocks [], world))
unfolding strbuf_init
message_is_read =
    net_fetch_http-IsHead table calloc length-calloc [] regexec empty_data
      (conn_with head_blocks []) world (conn_with-IsBuffered head_blocks [])
      (strbuf_init-IsValid calloc length-calloc).0 refl

abbrev one : NetHandleList
one = record { server = 7; req = 1 }

abbrev two : NetHandleList
two = record { server = 8; req = 2 }

-- Two requests come in while the response coroutine waits; it is told and answers the first.
abbrev pipelined : List Act
pipelined = silent ∷ added one ∷ added two ∷ silent ∷ served one ∷ []

abbrev last_cxt : NetHandleCxt
last_cxt = record { head = two ∷ []; rsp_blocked = false; notices = 2 }

pipelined-Steps : Steps cxt_init pipelined last_cxt
unfolding add_http rsp_start notice rsp_next
pipelined-Steps = step _ (start _) (
    step _ (http one _) (
      step _ (http two _)
        (step _ (told _ (omega arith)) (step _ (next one (two ∷ []) _ refl refl) (stop _)))))

told_at_end : IsWoken last_cxt
told_at_end = Steps-IsWoken pipelined-Steps (λ b. inl refl)
