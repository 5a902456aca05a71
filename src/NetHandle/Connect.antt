-- ===== src/NetHandle/Connect.antt =====
-- core/net_handle.c, net_connect_to_server, over the pool of core/conn.c. What net_dns_lookup_a
-- returns is an argument, and so are the answers that each of its addresses meets.
use http_proxy.Prelude.{
  ℕ, Bool, ◌||◌, Option, none, some, List, [], ◌∷◌, suc_ℤ, ◌==◌, if◌then◌else◌,
}
use http_proxy.Prelude.Uthash.{Uthash}
use http_proxy.Conn.{ConnEndpoint, is_closed}
use http_proxy.ConnPool.{ep_eq, Pool, Connect, decref_conn, conn_get_by_endpoint}
use http_proxy.ConnPool.Node.{upd}

-- struct addrinfo: the family and the bytes of the address.
pub record AddrInfo : Type 0 where
  pub ai_family : ℕ
  pub ai_addr : List ℕ

-- What one address meets: whether the program exits, and what conn_get_by_endpoint is answered.
pub record Answers : Type 0 where
  pub exiting : Bool
  pub conn : ℕ
  pub socket : Option ℕ
  pub nonblocking : Bool
  pub connect : Connect
  pub failed : Bool

abbrev pub af_inet : ℕ
af_inet = 2

abbrev pub af_inet6 : ℕ
af_inet6 = 10

module _ (T : Uthash ep_eq ℕ) where
  -- cxt->pool, whose entries are servers by their endpoints, and the connections.
  pub record Servers : Type 0 where
    pub cxt_pool : T.Table
    pub pool : Pool T.Table

  -- mem_incref (server)
  abbrev pub incref_conn : ℕ → Pool T.Table → Pool T.Table
  incref_conn c p = record p { refs = upd p.refs c (suc_ℤ (p.refs c)) }

  -- From the global pool on: the server, none where there is none for this endpoint.
  unfoldable pub from_global : ConnEndpoint → Answers → Servers → Option ℕ × Servers
  unfolding conn_get_by_endpoint decref_conn
  from_global ep a s =
      let (got, p) =
        conn_get_by_endpoint T ep a.conn a.socket a.nonblocking a.connect a.failed s.pool in
      elim got [
        | none ↦ (none, record s { pool = p })
        | some c ↦
            let p₁ = if is_closed (p.stat c) then decref_conn T c p else p in
            (some c, record { cxt_pool = T.add s.cxt_pool ep c; pool = incref_conn c p₁ })
      ]

  -- A known address: the connection of cxt->pool, unless it is closed.
  unfoldable pub from_pools : ConnEndpoint → Answers → Servers → Option ℕ × Servers
  unfolding from_global decref_conn
  from_pools ep a s = elim (T.find s.cxt_pool ep) [
    | none ↦ from_global ep a s
    | some c ↦
        if is_closed (s.pool.stat c)
        then from_global ep a
            (record { cxt_pool = T.del s.cxt_pool ep; pool = decref_conn T c s.pool })
        else (some c, record s { pool = incref_conn c s.pool })
  ]

  -- The loop over the addresses.
  unfoldable pub addr_loop : ℕ → List (AddrInfo × Answers) → Option ℕ → Servers → Option ℕ × Servers
  unfolding from_pools
  addr_loop port [] server s = (server, s)
  addr_loop port ((rp, a) ∷ rest) server s =
      let ep : ConnEndpoint = record { family = rp.ai_family; port = port; addr = rp.ai_addr } in
      let r = from_pools ep a s in
      let skipped = addr_loop port rest server s in
      let next = addr_loop port rest none r.1 in
      if a.exiting
      then (server, s)
      else if (rp.ai_family == af_inet) || (rp.ai_family == af_inet6)
      then elim r.0 [ none ↦ next | some c ↦ (some c, r.1) ]
      else skipped

  -- `found` is what net_dns_lookup_a gives, none where it fails.
  unfoldable pub net_connect_to_server :
      Option (List (AddrInfo × Answers)) → ℕ → Servers → Option ℕ × Servers
  unfolding addr_loop
  net_connect_to_server none port s = (none, s)
  net_connect_to_server (some res) port s = addr_loop port res none s
