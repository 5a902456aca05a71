-- ===== src/NetHttp/Tests.antt =====
-- Examples for core/net_http.c.
use http_proxy.Prelude.{
  ℕ, ◌+◌, ◌≡◌, refl, false, Option, none, some, List, [], ◌∷◌, ◌++◌, ℤ, pos, negsuc, is_zero,
  length, map, arith,
}
use http_proxy.Prelude.Uthash.{Uthash}
use http_proxy.Libc.{c_str, str_eq, atoi_int}
use http_proxy.Run.{Run, Keeps, done, waits, out_of_fuel}
use http_proxy.Strbuf.{strbuf_append, strbuf_put, strbuf_grow}
use http_proxy.Conn.{Recv, Send, got, took}
use http_proxy.ConnIo.{Pair}
use http_proxy.ConnIo.Moving.{Passed, Moved}
use http_proxy.NetData.{NetHeaderEnt, NetData, NetReq, Regmatch, net_data_get_ent}
use http_proxy.NetData.Parse.{Regex}
use http_proxy.NetData.TextTable.{text_assoc}
use http_proxy.NetHttp.{
  is_chunked, transfer_encoding_text, content_length_text, chunked_text, net_transfer_body_http_1_1,
}
use http_proxy.NetHttp.Body.{Done, net_transfer_body-Left, net_transfer_body-length}
use http_proxy.NetHttp.Handlers.{net_connect_rsp_handler, net_http_rsp_handler}
use http_proxy.NetHttp.Relay.{Sent, OneClosed, net_connect_rsp_handler-Sent}
use http_proxy.NetHttp.Responses.{Answered, net_http_rsp_handler-Answered}
use http_proxy.Examples.{calloc, length-calloc, conn_with, world, conn_with-IsBuffered}

abbrev table : Uthash str_eq NetHeaderEnt
table = text_assoc NetHeaderEnt

-- A message with one header, whose value is all its text.
abbrev message : List ℕ → List ℕ → NetData table.Table
message key value = record {
  buf = record { p = value ++ 0 ∷ []; len = length value + 1; cap = length value + 1 };
  table = (key, record { key = key ++ 0 ∷ []; val_offset = 0 }) ∷ [];
}

abbrev takes_all : List Send
takes_all = took 100 ∷ took 100 ∷ took 100 ∷ took 100 ∷ took 100 ∷ took 100 ∷ []

-- `3`, `abc`, and the last chunk.
abbrev chunks : List Recv
chunks =
    got (b'3' ∷ 13 ∷ 10 ∷ b'a' ∷ [])
    ∷ got (b'b' ∷ b'c' ∷ 13 ∷ 10 ∷ [])
    ∷ got (b'0' ∷ 13 ∷ 10 ∷ [])
    ∷ got (13 ∷ 10 ∷ [])
    ∷ []

abbrev chunk_pair : Pair
chunk_pair = record { out = conn_with [] takes_all; inp = conn_with chunks []; world = world }

chunks_end :
    Keeps
      (Done chunk_pair)
      (λ _. Unit {0})
      (net_transfer_body_http_1_1 calloc table
        (message transfer_encoding_text chunked_text)
        chunk_pair)
chunks_end =
    net_transfer_body-Left calloc table (message transfer_encoding_text chunked_text) chunk_pair
      (conn_with-IsBuffered chunks [])

three_bytes :
    Keeps
      (λ ret q. (r : ℤ) × (ret ≡ some r) × Moved 3 chunk_pair (is_zero r) q)
      (Passed 3 chunk_pair)
      (net_transfer_body_http_1_1 calloc table (message content_length_text (b'3' ∷ [])) chunk_pair)
unfolding str_eq c_str is_chunked net_data_get_ent atoi_int
three_bytes =
    net_transfer_body-length calloc table (message content_length_text (b'3' ∷ [])) chunk_pair
      (b'3' ∷ 0 ∷ []) 2 refl refl refl refl (omega arith) (conn_with-IsBuffered chunks [])

tunnelled :
    Keeps
      (λ ret q. (ret ≡ negsuc 0) × Sent chunk_pair q × OneClosed q)
      (Sent chunk_pair)
      (net_connect_rsp_handler chunk_pair)
tunnelled = net_connect_rsp_handler-Sent chunk_pair (conn_with-IsBuffered chunks [])

-- What the first connection has been sent in the end.
abbrev sent_out : {A : Type 0} → Run Pair A → List ℕ
sent_out (done a p) = p.out.sent
sent_out (waits p) = []
sent_out out_of_fuel = []

chunks_are_copied :
    sent_out (
      net_transfer_body_http_1_1 calloc table
        (message transfer_encoding_text chunked_text)
        chunk_pair)
    ≡ b'3' ∷ 13 ∷ 10 ∷ b'a' ∷ b'b' ∷ b'c' ∷ 13 ∷ 10 ∷ b'0' ∷ 13 ∷ 10 ∷ 13 ∷ 10 ∷ []
unfolding net_transfer_body_http_1_1 str_eq c_str net_data_get_ent strbuf_append strbuf_put
    strbuf_grow
chunks_are_copied = refl

-- A pattern that finds empty parts everywhere, and never the end of a header.
abbrev regexec : Regex → List ℕ → Option Regmatch
regexec re text = some (record { rm_so = λ i. 0; rm_eo = λ i. i; missing = λ i. false })

abbrev request : NetReq table.Table
request = record {
  data0 = message content_length_text (b'3' ∷ []);
  port = pos 80;
  ver_major = pos 1;
  ver_minor = pos 1;
  host = some 0;
  protocol = none;
  path = 0;
}

-- `H`, an empty line, and three bytes.
abbrev answer : List Recv
answer = got (b'H' ∷ 10 ∷ 10 ∷ b'a' ∷ []) ∷ got (b'b' ∷ b'c' ∷ []) ∷ []

abbrev answer_pair : Pair
answer_pair = record { out = conn_with [] takes_all; inp = conn_with answer []; world = world }

response_ends :
    Keeps Answered
      (λ _. Unit {0})
      (net_http_rsp_handler table calloc [] regexec (map (λ (k, h). h)) request answer_pair)
response_ends =
    net_http_rsp_handler-Answered table calloc length-calloc [] regexec (map (λ (k, h). h)) request
      answer_pair (conn_with-IsBuffered answer [])
