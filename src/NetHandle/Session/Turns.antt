-- ===== src/NetHandle/Session/Turns.antt =====
-- core/net_handle.c: what the two coroutines of a client do to the owners of connections and requests.
use http_proxy.Prelude.{
  ℕ, ◌+◌, ◌≡◌, sym, subst, Option, none, some, List, ◌∷◌, ℤ, suc_ℤ, pred_ℤ, arith, by_test, times,
}
use http_proxy.Prelude.Uthash.{Uthash, Entries, values}
use http_proxy.Conn.{ConnEndpoint, is_closed}
use http_proxy.ConnPool.{ep_eq, Pool}
use http_proxy.ConnPool.Node.{upd}
use http_proxy.NetHandle.Connect.{incref_conn}
use http_proxy.NetHandle.Pipeline.{NetHandleList}
use http_proxy.NetHandle.Session.{
  is_100, Session, with_pool, decref_req, release, enqueue, dequeue, forget, rsp_after,
}
use http_proxy.NetHandle.Session.Counts.{IsCount, incref-IsCount, hold-IsCount, unhold-IsCount}
use http_proxy.NetHandle.Session.Owners.{
  servers_of, Elsewhere, conn_owners, req_owners, refs-decref, Owned, enqueue-Owned, forget-Owned,
  dequeue-Owned,
}

module _ (T : Uthash ep_eq ℕ) (I : Entries T) where
  -- What the two coroutines do to the owners between two waits. `pooled` is HASH_ADD of
  -- net_connect_to_server, `forgot` its HASH_DEL; `held` and its kin are what code outside does.
  pub data Turn : Elsewhere → Session T → Elsewhere → Session T → Type 0 where
    queued : (p : NetHandleList) (o : Elsewhere) (s : Session T) → Turn o s o (enqueue T p s)
    pooled :
        (ep : ConnEndpoint) (c : ℕ) (o : Elsewhere) (s : Session T)
        → T.find s.servers.cxt_pool ep ≡ none
        → Turn o s o (record s {
          servers = record {
            cxt_pool = T.add s.servers.cxt_pool ep c;
            pool = incref_conn T c s.servers.pool;
          };
        })
    forgot :
        (ep : ConnEndpoint) (c : ℕ) (o : Elsewhere) (s : Session T)
        → T.find s.servers.cxt_pool ep ≡ some c
        → Turn o s o (forget T ep c s)
    answered :
        (h : NetHandleList) (rest : List NetHandleList) (ret : ℤ) (o : Elsewhere) (s s' : Session T)
        → s.head ≡ h ∷ rest
        → T.find s.servers.cxt_pool (s.servers.pool.ep h.server) ≡ some h.server
        → rsp_after T h rest ret s ≡ some s'
        → Turn o s o s'
    held :
        (c : ℕ) (o : Elsewhere) (s : Session T)
        → Turn o s
            (record o { conns = upd o.conns c (suc_ℤ (o.conns c)) })
            (with_pool T (incref_conn T c s.servers.pool) s)
    released :
        (c : ℕ) (o : Elsewhere) (s : Session T)
        → Turn o s (record o { conns = upd o.conns c (pred_ℤ (o.conns c)) }) (release T c s)
    req_held :
        (r : ℕ) (o : Elsewhere) (s : Session T)
        → Turn o s
            (record o { reqs = upd o.reqs r (suc_ℤ (o.reqs r)) })
            (record s { req_refs = upd s.req_refs r (suc_ℤ (s.req_refs r)) })
    req_released :
        (r : ℕ) (o : Elsewhere) (s : Session T)
        → Turn o s (record o { reqs = upd o.reqs r (pred_ℤ (o.reqs r)) }) (decref_req T r s)
    changed :
        (p : Pool T.Table) (o : Elsewhere) (s : Session T)
        → p.refs ≡ s.servers.pool.refs
        → Turn o s o (with_pool T p s)

  pub data Turns : Elsewhere → Session T → Elsewhere → Session T → Type 0 where
    stop : (o : Elsewhere) (s : Session T) → Turns o s o s
    turn :
        {o₁ o₂ o₃ : Elsewhere} {s₁ s₂ s₃ : Session T}
        → Turn o₁ s₁ o₂ s₂
        → Turns o₂ s₂ o₃ s₃
        → Turns o₁ s₁ o₃ s₃

  -- What comes out, where there is something.
  abbrev Kept : Elsewhere → Option (Session T) → Type 0
  Kept o none = Unit {0}
  Kept o (some s) = Owned T I o s

  -- A round keeps the counts where the pool has the server of the first request.
  rsp_after-Kept :
      (h : NetHandleList) (rest : List NetHandleList) (ret : ℤ) (o : Elsewhere) (s : Session T)
      → s.head ≡ h ∷ rest
      → T.find s.servers.cxt_pool (s.servers.pool.ep h.server) ≡ some h.server
      → Owned T I o s
      → Kept o (rsp_after T h rest ret s)
  unfolding rsp_after forget
  rsp_after-Kept h rest ret o s e found k =
      let ep = s.servers.pool.ep h.server in
      let gone = forget T ep h.server s in
      by_test (Kept o) (is_closed (s.servers.pool.stat h.server))
        (λ _.
          subst
            (λ (f : Option ℕ).
              Kept o (elim f [ none ↦ none | some t ↦ some (dequeue T h rest gone) ]))
            (sym found)
            (dequeue-Owned T I h rest o gone e (forget-Owned T I ep h.server o s found k)))
        (λ _. by_test (Kept o) (is_100 ret) (λ _. k) (λ _. dequeue-Owned T I h rest o s e k))

  pooled-Owned :
      (ep : ConnEndpoint) (c : ℕ) (o : Elsewhere) (s : Session T)
      → T.find s.servers.cxt_pool ep ≡ none
      → Owned T I o s
      → Owned T I o (record s {
        servers = record {
          cxt_pool = T.add s.servers.cxt_pool ep c;
          pool = incref_conn T c s.servers.pool;
        };
      })
  pooled-Owned ep c o s e k = (
    incref-IsCount s.servers.pool.refs o.conns (conn_owners T I s)
        (λ x.
          times x (values (I.entries (T.add s.servers.cxt_pool ep c)))
          + times x (servers_of s.head))
        c (λ x. omega (arith, I.entries-add s.servers.cxt_pool ep c x e)) k.0,
    k.1,
  )

  Turn-Owned :
      {o o' : Elsewhere} {s s' : Session T} → Turn o s o' s' → Owned T I o s → Owned T I o' s'
  unfolding release decref_req
  Turn-Owned (queued p o s) k = enqueue-Owned T I p o s k
  Turn-Owned (pooled ep c o s e) k = pooled-Owned ep c o s e k
  Turn-Owned (forgot ep c o s e) k = forget-Owned T I ep c o s e k
  Turn-Owned (answered h rest ret o s s' e found done) k =
      subst (Kept o) done (rsp_after-Kept h rest ret o s e found k)
  Turn-Owned (held c o s) k =
      (hold-IsCount s.servers.pool.refs o.conns (conn_owners T I s) c k.0, k.1)
  Turn-Owned (released c o s) k = (
    subst (λ (f : ℕ → ℤ). IsCount f (upd o.conns c (pred_ℤ (o.conns c))) (conn_owners T I s))
        (sym (refs-decref T c s.servers.pool))
        (unhold-IsCount s.servers.pool.refs o.conns (conn_owners T I s) c k.0),
    k.1,
  )
  Turn-Owned (req_held r o s) k = (k.0, hold-IsCount s.req_refs o.reqs (req_owners T I s) r k.1)
  Turn-Owned (req_released r o s) k =
      (k.0, unhold-IsCount s.req_refs o.reqs (req_owners T I s) r k.1)
  Turn-Owned (changed p o s e) k =
      (subst (λ (f : ℕ → ℤ). IsCount f o.conns (conn_owners T I s)) (sym e) k.0, k.1)

  pub Turns-Owned :
      {o o' : Elsewhere} {s s' : Session T} → Turns o s o' s' → Owned T I o s → Owned T I o' s'
  Turns-Owned (stop o s) k = k
  Turns-Owned (turn t ts) k = Turns-Owned ts (Turn-Owned t k)
