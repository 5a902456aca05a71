-- ===== src/NetData/Tests.antt =====
-- Examples for core/net_data.c.
use http_proxy.Prelude.{
  ℕ, ◌≡◌, refl, true, false, Option, none, some, List, [], ◌∷◌, ◌++◌, pos, arith, if◌then◌else◌,
  ◌==◌,
}
use http_proxy.Prelude.Uthash.{Uthash}
use http_proxy.Libc.{str_eq}
use http_proxy.Run.{Keeps}
use http_proxy.Strbuf.{Strbuf}
use http_proxy.Conn.{Conn, took}
use http_proxy.ConnIo.Writing.{Wrote, WroteAll}
use http_proxy.NetData.{
  NetHeaderEnt, NetData, NetReq, Regmatch, net_data_get_ent, net_data_get_ent_offset,
}
use http_proxy.NetData.Parse.{Regex, net_parse_header, host_text}
use http_proxy.NetData.Forward.{net_forward_req_header}
use http_proxy.NetData.Lookup.{net_parse_header-get_ent}
use http_proxy.NetData.Serialize.{request_text, net_forward_req_header_lem}
use http_proxy.NetData.TextTable.{text_assoc}
use http_proxy.Examples.{calloc, length-calloc, conn_with, world}

-- `Host: a` behind two bytes, with a NUL.
abbrev line_buf : Strbuf
line_buf = record {
  p = b'G' ∷ 0 ∷ b'H' ∷ b'o' ∷ b's' ∷ b't' ∷ b':' ∷ b' ' ∷ b'a' ∷ 0 ∷ [];
  len = 10;
  cap = 16;
}

abbrev table : Uthash str_eq NetHeaderEnt
table = text_assoc NetHeaderEnt

abbrev line_data : NetData (List (List ℕ × NetHeaderEnt))
line_data = record { buf = line_buf; table = [] }

abbrev line_match : Regmatch
line_match = record {
  rm_so = λ i. if i == 2 then 6 else 0;
  rm_eo = λ i. if i == 1 then 4 else 7;
  missing = λ i. false;
}

abbrev regexec : Regex → List ℕ → Option Regmatch
regexec re text = some line_match

host_is_found :
    ((net_parse_header table calloc [] regexec line_data 2).0 ≡ true)
    × (net_data_get_ent table calloc []
          (net_parse_header table calloc [] regexec line_data 2).1
          host_text
        ≡ some ((b'a' ∷ []) ++ (0 ∷ [])))
unfolding net_data_get_ent_offset
host_is_found =
    net_parse_header-get_ent table calloc [] regexec line_data line_match (b'G' ∷ 0 ∷ []) host_text
      (b' ' ∷ []) (b'a' ∷ []) [] b':' 0 refl refl refl refl refl refl (omega arith) (omega arith)
      refl

-- `G`, path `/`, HTTP/1.1, a header.
abbrev req : NetReq (List (List ℕ × NetHeaderEnt))
req = record {
  data0 = line_data;
  port = pos 80;
  ver_major = pos 1;
  ver_minor = pos 1;
  host = some 8;
  protocol = none;
  path = 8;
}

abbrev entries : List NetHeaderEnt
entries = record { key = host_text ++ 0 ∷ []; val_offset = 8 } ∷ []

abbrev server : Conn
server = conn_with [] (took 5 ∷ took 500 ∷ [])

request_is_sent :
    Keeps
      (WroteAll (request_text [] req entries) server)
      (λ s. Wrote (request_text [] req entries) server s.0)
      (net_forward_req_header calloc [] req entries (server, world))
request_is_sent = net_forward_req_header_lem calloc length-calloc [] req entries server world
