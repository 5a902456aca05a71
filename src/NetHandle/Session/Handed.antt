-- ===== src/NetHandle/Session/Handed.antt =====
-- core/net_handle.c, net_connect_to_server: the connection that it takes from the pool of free
-- connections of core/conn.c, if any, said apart from the counts.
use http_proxy.Prelude.{ℕ, ◌||◌, Option, none, some, List, [], ◌∷◌, ◌==◌, if◌then◌else◌}
use http_proxy.Prelude.Uthash.{Uthash}
use http_proxy.Conn.{ConnEndpoint, is_closed}
use http_proxy.ConnPool.{ep_eq, decref_conn, conn_addrpool_try_get_and_del}
use http_proxy.NetHandle.Connect.{AddrInfo, Answers, Servers, af_inet, af_inet6, from_pools}

module _ (T : Uthash ep_eq ℕ) where
  -- The free connection of this endpoint.
  abbrev pub free_of : ConnEndpoint → Servers T → Option ℕ
  free_of ep s = (conn_addrpool_try_get_and_del T ep s.pool).0

  -- Once the closed server of this endpoint has left cxt->pool.
  abbrev pub shut_left : ConnEndpoint → ℕ → Servers T → Servers T
  shut_left ep c s = record { cxt_pool = T.del s.cxt_pool ep; pool = decref_conn T c s.pool }

  -- For one address: a server of cxt->pool that is open is taken first.
  unfoldable pub handed_one : ConnEndpoint → Servers T → Option ℕ
  handed_one ep s = elim (T.find s.cxt_pool ep) [
    | none ↦ free_of ep s
    | some c ↦ if is_closed (s.pool.stat c) then free_of ep (shut_left ep c s) else none
  ]

  -- For the addresses in turn, up to the first that gives a server.
  unfoldable pub handed : ℕ → List (AddrInfo × Answers) → Servers T → Option ℕ
  unfolding handed_one from_pools
  handed port [] s = none
  handed port ((rp, a) ∷ rest) s =
      let ep : ConnEndpoint = record { family = rp.ai_family; port = port; addr = rp.ai_addr } in
      let r = from_pools T ep a s in
      let skipped = handed port rest s in
      let next = handed port rest r.1 in
      if a.exiting
      then none
      else if (rp.ai_family == af_inet) || (rp.ai_family == af_inet6)
      then elim r.0 [ none ↦ next | some c ↦ handed_one ep s ]
      else skipped
