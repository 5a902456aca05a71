-- ===== src/NetHandle/Usable.antt =====
-- core/net_handle.c, net_connect_to_server: the server that it returns can be used.
use http_proxy.Prelude.{
  by_test, ℕ, ◌≡◌, refl, sym, ap, ◌∙◌, inl, inr, Bool, true, false, ◌||◌, Option, none, some, List,
  [], ◌∷◌, ◌==◌, Option-cases,
}
use http_proxy.Prelude.Uthash.{Uthash}
use http_proxy.Conn.{ConnEndpoint, conn_used, conn_free_stat, conn_closed, is_closed}
use http_proxy.ConnPool.{
  ep_eq, Pool, Connect, connected, in_progress, refused, decref_conn, conn_addrpool_try_get_and_del,
  conn_get_by_endpoint,
}
use http_proxy.ConnPool.Node.{upd}
use http_proxy.ConnPool.Chain.{upd_self}
use http_proxy.ConnPool.Order.{ep_eq_iff}
use http_proxy.NetHandle.Connect.{
  AddrInfo, Answers, Servers, af_inet, af_inet6, from_global, from_pools, addr_loop,
  net_connect_to_server,
}

module _ (T : Uthash ep_eq ℕ) where
  -- A connection that is returned is not closed.
  abbrev pub Opened : Option ℕ × Pool T.Table → Type 0
  Opened (none, p) = Unit {0}
  Opened (some c, p) = is_closed (p.stat c) ≡ false

  fresh-Opened :
      (ep : ConnEndpoint) (conn : ℕ) (socket : Option ℕ) (nonblocking : Bool) (answer : Connect)
      (failed : Bool) (p : Pool T.Table)
      → (conn_addrpool_try_get_and_del T ep p).0 ≡ none
      → Opened (conn_get_by_endpoint T ep conn socket nonblocking answer failed p)
  unfolding conn_get_by_endpoint
  fresh-Opened ep conn none nonblocking answer failed p e = rw (e, conn_get_by_endpoint) tt
  fresh-Opened ep conn (some fd) false answer failed p e = rw (e, conn_get_by_endpoint) tt
  fresh-Opened ep conn (some fd) true refused failed p e = rw (e, conn_get_by_endpoint) tt
  fresh-Opened ep conn (some fd) true connected failed p e =
      rw (e, conn_get_by_endpoint)
        (ap is_closed (
          upd_self (upd (conn_addrpool_try_get_and_del T ep p).1.stat conn conn_closed) conn
            conn_free_stat))
  fresh-Opened ep conn (some fd) true in_progress true p e = rw (e, conn_get_by_endpoint) tt
  fresh-Opened ep conn (some fd) true in_progress false p e =
      rw (e, conn_get_by_endpoint)
        (ap is_closed (
          upd_self (upd (conn_addrpool_try_get_and_del T ep p).1.stat conn conn_closed) conn
            conn_free_stat))

  pub new-Opened :
      (ep : ConnEndpoint) (a : Answers) (p : Pool T.Table)
      → Opened (conn_get_by_endpoint T ep a.conn a.socket a.nonblocking a.connect a.failed p)
  unfolding conn_get_by_endpoint
  new-Opened ep a p = elim (Option-cases (conn_addrpool_try_get_and_del T ep p).0) [
    | inl e ↦ fresh-Opened ep a.conn a.socket a.nonblocking a.connect a.failed p e
    | inr (c, e) ↦
        rw (e, conn_get_by_endpoint)
          (ap is_closed (upd_self (conn_addrpool_try_get_and_del T ep p).1.stat c conn_used))
  ]

  -- The server is open, and cxt->pool has it for an endpoint with this port.
  abbrev pub Usable : ℕ → Option ℕ × Servers T → Type 0
  Usable port (none, s) = Unit {0}
  Usable port (some c, s) =
      (ep : ConnEndpoint) × (ep.port ≡ port)
      × (T.find s.cxt_pool ep ≡ some c)
      × (is_closed (s.pool.stat c) ≡ false)

  pub open_of :
      (o : Option ℕ) (p : Pool T.Table) (c : ℕ)
      → o ≡ some c
      → Opened (o, p)
      → is_closed (p.stat c) ≡ false
  open_of none p c e h = absurd (cc)
  open_of (some d) p c e h =
      ap (λ (o : Option ℕ). elim o [ none ↦ false | some x ↦ is_closed (p.stat x) ]) (sym e) ∙ h

  got_or_next :
      (port : ℕ) (r next : Option ℕ × Servers T)
      → Usable port r
      → Usable port next
      → Usable port (elim r.0 [ none ↦ next | some c ↦ (some c, r.1) ])
  got_or_next port (none, s) next h k = k
  got_or_next port (some c, s) next h k = h

  found_added :
      (t : T.Table) (ep : ConnEndpoint) (c : ℕ)
      → T.find t ep ≡ none
      → T.find (T.add t ep c) ep ≡ some c
  found_added t ep c absent = T.find-add t ep ep c absent ∙ rw ((ep_eq_iff ep ep).1 refl) refl

  from_global-Usable :
      (ep : ConnEndpoint) (a : Answers) (s : Servers T)
      → T.find s.cxt_pool ep ≡ none
      → Usable ep.port (from_global T ep a s)
  unfolding from_global
  from_global-Usable ep a s absent =
      let r = conn_get_by_endpoint T ep a.conn a.socket a.nonblocking a.connect a.failed s.pool in
      let opened : Opened r = new-Opened ep a s.pool in
      elim (Option-cases r.0) [
        | inl e ↦ rw (e, from_global) tt
        | inr (c, e) ↦
            let live = open_of r.0 r.1 c e opened in
            rw (e, from_global) (rw live (ep, refl, found_added s.cxt_pool ep c absent, live))
      ]

  from_pools-Usable :
      (ep : ConnEndpoint) (a : Answers) (s : Servers T) → Usable ep.port (from_pools T ep a s)
  unfolding from_pools
  from_pools-Usable ep a s = elim (Option-cases (T.find s.cxt_pool ep)) [
    | inl absent ↦ rw (absent, from_pools) (from_global-Usable ep a s absent)
    | inr (c, e) ↦
        rw (e, from_pools)
          (by_test (Usable ep.port) (is_closed (s.pool.stat c))
            (λ shut.
              from_global-Usable ep a
                (record { cxt_pool = T.del s.cxt_pool ep; pool = decref_conn T c s.pool })
                (T.find-del s.cxt_pool ep ep ∙ rw ((ep_eq_iff ep ep).1 refl) refl))
            (λ live. (ep, refl, e, live)))
  ]

  addr_loop-Usable :
      (port : ℕ) (res : List (AddrInfo × Answers)) (s : Servers T)
      → Usable port (addr_loop T port res none s)
  unfolding addr_loop
  addr_loop-Usable port [] s = tt
  addr_loop-Usable port ((rp, a) ∷ rest) s =
      let ep : ConnEndpoint = record { family = rp.ai_family; port = port; addr = rp.ai_addr } in
      let r = from_pools T ep a s in
      by_test (Usable port) a.exiting (λ _. tt)
        (λ _.
          by_test (Usable port) ((rp.ai_family == af_inet) || (rp.ai_family == af_inet6))
            (λ _.
              got_or_next port r (addr_loop T port rest none r.1) (from_pools-Usable ep a s)
                (addr_loop-Usable port rest r.1))
            (λ _. addr_loop-Usable port rest s))

  -- Whatever the addresses are and whatever the calls for each of them answer: a server that
  -- net_connect_to_server returns is not closed, and the pool of the client's context has it under an
  -- endpoint with the port asked for.
  pub net_connect_to_server-Usable :
      (found : Option (List (AddrInfo × Answers))) (port : ℕ) (s : Servers T)
      → Usable port (net_connect_to_server T found port s)
  unfolding net_connect_to_server
  net_connect_to_server-Usable none port s = tt
  net_connect_to_server-Usable (some res) port s = addr_loop-Usable port res s
