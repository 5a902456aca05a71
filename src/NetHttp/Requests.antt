-- ===== src/NetHttp/Requests.antt =====
-- core/net_http.c: net_http_req_handler and net_connect_req_handler.
use http_proxy.Prelude.{
  ℕ, Option, none, some, List, [], ◌∷◌, ◌++◌, ℤ, negsuc, is_zero, if◌then◌else◌,
}
use http_proxy.Prelude.Uthash.{Uthash}
use http_proxy.Libc.{str_eq}
use http_proxy.Run.{Io, done, waits, and_then}
use http_proxy.Mem.{incref, decref}
use http_proxy.Conn.{Conn}
use http_proxy.ConnIo.{conn_write, on_out}
use http_proxy.NetData.{NetHeaderEnt, NetReq, net_data_get_ent, net_data_set_ent_offset}
use http_proxy.NetData.Parse.{host_text}
use http_proxy.NetData.Forward.{net_forward_req_header}
use http_proxy.NetHandle.{net_bad_gateway}
use http_proxy.NetHandle.Pipeline.{NetHandleList, add_http, add_connect}
use http_proxy.NetHttp.{net_transfer_body_http_1_1}
use http_proxy.NetHttp.Handlers.{ReqState, on_client, on_both, connect_ok_msg, relay}

-- mem_decref (server, conn_done)
abbrev pub decref_server : {T : Type 0} → ReqState T → ReqState T
decref_server s = record s { server_refs = s.server_refs ++ decref ∷ [] }

-- The server of a request that could not be sent is given up.
abbrev pub give_up : {T : Type 0} → ReqState T → ReqState T
give_up s = record s {
  server = none;
  given_up = s.given_up ++ elim s.server [ none ↦ [] | some c ↦ c ∷ [] ];
}

-- A new node of the list: it owns its server and its request.
abbrev pub queue : {T : Type 0} → NetHandleList → ReqState T → ReqState T
queue p s = record s {
  server_refs = s.server_refs ++ incref ∷ [];
  req_refs = s.req_refs ++ incref ∷ [];
}

module _ (T : Uthash str_eq NetHeaderEnt) (malloc : ℕ → List ℕ) (behind : List ℕ)
    (entries : T.Table → List NetHeaderEnt) where
  -- `if (net_data_get_ent (req->data, "Host") == NULL)`; an offset of -1 for the host is none.
  unfoldable pub set_host : NetReq T.Table → NetReq T.Table
  unfolding net_data_get_ent net_data_set_ent_offset
  set_host q = elim (net_data_get_ent T malloc behind q.data0 host_text) [
    | some v ↦ q
    | none ↦ elim q.host [
      | none ↦ q
      | some h ↦ record q { data0 = net_data_set_ent_offset T malloc behind q.data0 host_text h }
    ]
  ]

  -- The first loop of net_http_req_handler, with the results that net_connect_to_server still has to
  -- give: the server that has taken the head of the request, none where there is no server left.
  unfoldable pub connect_loop : List (Option Conn) → Io (ReqState T.Table) (Option Conn)
  unfolding set_host net_forward_req_header net_bad_gateway
  connect_loop [] s = waits s
  connect_loop (none ∷ servers) s =
      and_then {B = Option Conn} (on_client net_bad_gateway s) (λ _ t. done none t)
  connect_loop (some c ∷ servers) s =
      let q = set_host s.req in
      and_then {B = Option Conn}
        (on_both c (on_out (net_forward_req_header malloc behind q (entries q.data0.table)))
          (record s { req = q; server_refs = [] }))
        (λ ok t.
          let rest = connect_loop servers (give_up t) in if ok then done t.server t else rest)

  -- The end of net_http_req_handler, behind net_transfer_body_HTTP_1_1.
  unfoldable pub body_sent : Option ℤ → Io (ReqState T.Table) (Option ℤ)
  unfolding net_bad_gateway
  body_sent none s = done none s
  body_sent (some ret) s =
      let failed =
        and_then {B = Option ℤ} (on_client net_bad_gateway s)
          (λ _ t. done (some ret) (decref_server t)) in
      if is_zero ret then done (some ret) (decref_server s) else failed

  -- net_http_req_handler; `p` is the new node of the list. The result is none where the behaviour of
  -- net_transfer_body_HTTP_1_1 is undefined.
  unfoldable pub net_http_req_handler :
      NetHandleList → List (Option Conn) → Io (ReqState T.Table) (Option ℤ)
  unfolding connect_loop add_http net_transfer_body_http_1_1 body_sent
  net_http_req_handler p servers s = and_then {B = Option ℤ} (connect_loop servers s) (λ server t.
      elim server [
        | none ↦ done (some (negsuc 0)) t
        | some c ↦
            let queued = queue p t in
            and_then {B = Option ℤ}
              (on_both c (net_transfer_body_http_1_1 malloc T t.req.data0)
                (record queued { cxt = add_http p t.cxt }))
              body_sent
      ])

  -- net_connect_req_handler; `servers` is what its one call of net_connect_to_server returns, if it
  -- has returned.
  unfoldable pub net_connect_req_handler :
      NetHandleList → Option (Option Conn) → Io (ReqState T.Table) ℤ
  unfolding add_connect conn_write relay net_bad_gateway
  net_connect_req_handler p none s =
      waits (record s { req = record s.req { host = some s.req.path } })
  net_connect_req_handler p (some none) s =
      and_then {B = ℤ}
        (on_client net_bad_gateway (record s { req = record s.req { host = some s.req.path } }))
        (λ _ t. done (negsuc 0) t)
  net_connect_req_handler p (some (some c)) s =
      let t = queue p (record s {
        req = record s.req { host = some s.req.path };
        server = some c;
        cxt = add_connect p s.cxt;
      }) in
      and_then {B = ℤ} (on_client (conn_write connect_ok_msg) t) (λ ok u'.
        let failed =
          and_then {B = ℤ} (on_client net_bad_gateway u')
            (λ _ v. done (negsuc 0) (decref_server v)) in
        let tunnel =
          and_then {B = ℤ} (on_both c relay u') (λ _ v. done (negsuc 0) (decref_server v)) in
        if ok then tunnel else failed)
