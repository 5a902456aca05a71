-- ===== src/NetHttp/Handlers.antt =====
-- core/net_http.c: the handlers of responses, and of requests. What net_connect_to_server returns is
-- given as a list, its results in order; what HASH_ITER visits is an argument.
use http_proxy.Prelude.{
  ℕ, zero, suc, ◌+◌, ◌*◌, Bool, false, not, Option, none, some, List, [], ◌∷◌, ℤ, pos, negsuc,
  is_zero, ltb, if◌then◌else◌, length, drop,
}
use http_proxy.Prelude.Uthash.{Uthash}
use http_proxy.Libc.{c_str, str_eq}
use http_proxy.Run.{Io, done, waits, out_of_fuel, and_then}
use http_proxy.Mem.{RefCall}
use http_proxy.Conn.{Conn, ConnEndpoint, World, conn_close}
use http_proxy.ConnIo.{State, Pair, stream, conn_copy, on_out, on_inp}
use http_proxy.NetData.{NetHeaderEnt, NetReq, NetRsp, Regmatch, net_data_init}
use http_proxy.NetData.Parse.{Regex, net_parse_rsp}
use http_proxy.NetData.Forward.{net_forward_rsp_header}
use http_proxy.NetHandle.{net_fetch_http, net_bad_gateway}
use http_proxy.NetHandle.Pipeline.{NetHandleCxt}
use http_proxy.NetHttp.{net_transfer_body_http_1_1}

-- What log_http_req is called with; `host` is none where its offset is -1.
pub record HttpLog : Type 0 where
  pub ep : ConnEndpoint
  pub host : Option (List ℕ)
  pub path : List ℕ
  pub tx : ℤ

-- 64*1024
abbrev pub relay_len : ℕ
relay_len = 64 * 1024

-- rsp.ver_major*100 + rsp.ver_minor > 100
abbrev pub is_above_1_0 : ℤ → ℤ → Bool
is_above_1_0 (pos a) (pos b) = ltb 100 (a * 100 + b)
is_above_1_0 (pos a) (negsuc b) = ltb (101 + b) (a * 100)
is_above_1_0 (negsuc a) (pos b) = ltb (200 + a * 100) b
is_above_1_0 (negsuc a) (negsuc b) = false

abbrev pub close : Io State (Unit {0})
close (c, w) = done tt (conn_close c w)

-- `while (1)` around conn_copy, until that fails. A round consumes 64*1024 bytes.
unfoldable pub relay_loop : ℕ → Io Pair (Unit {0})
unfolding conn_copy
relay_loop zero p = out_of_fuel
relay_loop (suc fuel) p =
    and_then {B = Unit {0}} (conn_copy relay_len p)
      (λ ok q. let rest = relay_loop fuel q in if ok then rest else done tt q)

unfoldable pub relay : Io Pair (Unit {0})
unfolding relay_loop stream
relay p = relay_loop (suc (length (stream p.inp))) p

unfoldable pub net_connect_rsp_handler : Io Pair ℤ
unfolding relay
net_connect_rsp_handler p = and_then {B = ℤ} (relay p) (λ _ q. done (negsuc 0) q)

-- The state that a handler of requests works on: the connections that it gave up, each with a
-- mem_decref, and the calls of mem_incref and mem_decref on the server that it uses and on the request.
pub record ReqState (Table : Type 0) : Type 0 where
  pub cxt : NetHandleCxt
  pub client : Conn
  pub server : Option Conn
  pub given_up : List Conn
  pub server_refs : List RefCall
  pub req : NetReq Table
  pub req_refs : List RefCall
  pub world : World

-- A call on the client, and one on the server `c` and the client.
abbrev pub on_client : {T A : Type 0} → Io State A → Io (ReqState T) A
on_client m s = elim (m (s.client, s.world)) [
  | done a (c, w) ↦ done a (record s { client = c; world = w })
  | waits (c, w) ↦ waits (record s { client = c; world = w })
  | out_of_fuel ↦ out_of_fuel
]

abbrev pub on_both : {T A : Type 0} → Conn → Io Pair A → Io (ReqState T) A
on_both c m s = elim (m (record { out = c; inp = s.client; world = s.world })) [
  | done a p ↦ done a (record s { server = some p.out; client = p.inp; world = p.world })
  | waits p ↦ waits (record s { server = some p.out; client = p.inp; world = p.world })
  | out_of_fuel ↦ out_of_fuel
]

-- "HTTP/1.1 200 OK\r\n\r\n"
abbrev pub connect_ok_msg : List ℕ
connect_ok_msg =
    b'H' ∷ b'T' ∷ b'T' ∷ b'P' ∷ b'/' ∷ b'1' ∷ b'.' ∷ b'1' ∷ b' ' ∷ b'2' ∷ b'0' ∷ b'0' ∷ b' ' ∷ b'O'
    ∷ b'K' ∷ 13 ∷ 10 ∷ 13 ∷ 10 ∷ []

module _ (T : Uthash str_eq NetHeaderEnt) (malloc : ℕ → List ℕ) (behind : List ℕ)
    (regexec : Regex → List ℕ → Option Regmatch) (entries : T.Table → List NetHeaderEnt) where
  -- The response cannot be had: the server is closed, and the client told.
  abbrev pub no_response : ℤ → Io Pair (Option (ℤ × Option HttpLog))
  no_response ret p =
      and_then {B = Option (ℤ × Option HttpLog)} (on_inp close p)
        (λ _ q. and_then (on_out net_bad_gateway q) (λ _ t. done (some (ret, none)) t))

  -- The result and the entry of the log, when the response has been passed on.
  abbrev pub logged : NetReq T.Table → NetRsp T.Table → ℤ → Io Pair (Option (ℤ × Option HttpLog))
  logged req rsp ret p =
      let text = req.data0.buf.p in
      let entry : HttpLog = record {
        ep = p.out.ep;
        host = elim req.host [ none ↦ none | some h ↦ some (c_str (drop h text)) ];
        path = c_str (drop req.path text);
        tx = p.out.tx;
      } in
      done (some (if is_zero ret then rsp.code else ret, some entry)) p

  -- The same, where net_transfer_body_HTTP_1_1 is not undefined.
  abbrev pub logged_if :
      NetReq T.Table → NetRsp T.Table → Option ℤ → Io Pair (Option (ℤ × Option HttpLog))
  logged_if req rsp none p = done none p
  logged_if req rsp (some ret) p = logged req rsp ret p

  -- The body of a response: with HTTP/1.0 all that comes until the server closes.
  unfoldable pub rsp_body : NetReq T.Table → NetRsp T.Table → Io Pair (Option (ℤ × Option HttpLog))
  unfolding net_transfer_body_http_1_1 relay conn_close
  rsp_body req rsp p =
      if is_above_1_0 rsp.ver_major rsp.ver_minor
      then and_then {B = Option (ℤ × Option HttpLog)}
          (net_transfer_body_http_1_1 malloc T rsp.data0 p) (λ ret q. logged_if req rsp ret q)
      else and_then {B = Option (ℤ × Option HttpLog)} (relay p) (λ _ q.
        and_then (on_out close q)
          (λ _ t. and_then (on_inp close t) (λ _ u'. logged req rsp (pos 0) u')))

  -- net_http_rsp_handler: `out` is the client and `inp` the server; `req` is the request at the head
  -- of the list. The result is none where the behaviour is undefined.
  unfoldable pub net_http_rsp_handler : NetReq T.Table → Io Pair (Option (ℤ × Option HttpLog))
  unfolding net_fetch_http net_parse_rsp net_forward_rsp_header rsp_body net_bad_gateway conn_close
      net_data_init
  net_http_rsp_handler req p =
      and_then {B = Option (ℤ × Option HttpLog)}
        (on_inp (net_fetch_http T malloc behind regexec (net_data_init T malloc []))
          (record p { out = record p.out { tx = pos 0 } }))
        (λ (ret, d) q.
          let (parsed, rsp) = net_parse_rsp T malloc behind regexec (record {
            data0 = d;
            code = pos 0;
            ver_major = pos 0;
            ver_minor = pos 0;
            http_msg = 0;
          }) in
          let forward =
            and_then {B = Option (ℤ × Option HttpLog)}
              (on_out (net_forward_rsp_header malloc behind rsp (entries rsp.data0.table)) q)
              (λ ok t. if ok then rsp_body req rsp t else done (some (negsuc 0, none)) t) in
          if not (is_zero ret)
          then no_response ret q
          else if not parsed
          then no_response (negsuc 0) q
          else forward)
