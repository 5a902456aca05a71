-- ===== src/NetHandle/Session/Owners.antt =====
-- core/net_handle.c: the counts of owners while the two coroutines of a client run.
use http_proxy.Prelude.{
  ℕ, ◌+◌, ◌≡◌, refl, sym, ap, subst, ◌∙◌, some, List, [], ◌∷◌, ◌++◌, ℤ, pred_ℤ, is_zero, arith,
  by_test, times, times-append, times-cons,
}
use http_proxy.Prelude.Uthash.{Uthash, Entries, values}
use http_proxy.Conn.{ConnEndpoint, is_closed}
use http_proxy.ConnPool.{ep_eq, Pool, close_conn, conn_done, decref_conn}
use http_proxy.ConnPool.Node.{upd}
use http_proxy.NetHandle.Pipeline.{NetHandleList}
use http_proxy.NetHandle.Session.{Session, decref_req, release, enqueue, dequeue, forget}
use http_proxy.NetHandle.Session.Counts.{IsCount, incref-IsCount, decref-IsCount}

abbrev pub servers_of : List NetHandleList → List ℕ
servers_of [] = []
servers_of (h ∷ l) = h.server ∷ servers_of l

abbrev pub reqs_of : List NetHandleList → List ℕ
reqs_of [] = []
reqs_of (h ∷ l) = h.req ∷ reqs_of l

-- How often each connection and each request is held outside the list and cxt->pool.
pub record Elsewhere : Type 0 where
  pub conns : ℕ → ℤ
  pub reqs : ℕ → ℤ

module _ (T : Uthash ep_eq ℕ) where
  pub refs-close : (c : ℕ) (p : Pool T.Table) → (close_conn T c p).refs ≡ p.refs
  unfolding close_conn
  refs-close c p =
      by_test (λ (q : Pool T.Table). q.refs ≡ p.refs) (is_closed (p.stat c)) (λ _. refl) (λ _. refl)

  refs-done : (c : ℕ) (p : Pool T.Table) → (conn_done T c p).refs ≡ p.refs
  unfolding close_conn conn_done
  refs-done c p =
      by_test (λ (q : Pool T.Table). q.refs ≡ p.refs) (is_closed (p.stat c)) (λ _. refl)
        (λ _. refs-close c p)

  pub refs-decref :
      (c : ℕ) (p : Pool T.Table) → (decref_conn T c p).refs ≡ upd p.refs c (pred_ℤ (p.refs c))
  unfolding decref_conn
  refs-decref c p =
      let refs = upd p.refs c (pred_ℤ (p.refs c)) in
      by_test (λ (q : Pool T.Table). q.refs ≡ refs) (is_zero (pred_ℤ (p.refs c)))
        (λ _. refs-done c (record p { refs = refs })) (λ _. refl)

  pub IsCount-decref :
      (c : ℕ) (p : Pool T.Table) (others : ℕ → ℤ) (own own' : ℕ → ℕ)
      → ((x : ℕ) → own x ≡ own' x + times x (c ∷ []))
      → IsCount p.refs others own
      → IsCount (decref_conn T c p).refs others own'
  IsCount-decref c p others own own' less k =
      subst (λ (f : ℕ → ℤ). IsCount f others own') (sym (refs-decref c p))
        (decref-IsCount p.refs others own own' c less k)

module _ (T : Uthash ep_eq ℕ) (I : Entries T) where
  -- The owners of a connection in cxt->pool and in the list, and those of a request in the list.
  abbrev pub conn_owners : Session T → ℕ → ℕ
  conn_owners s x = times x (values (I.entries s.servers.cxt_pool)) + times x (servers_of s.head)

  abbrev pub req_owners : Session T → ℕ → ℕ
  req_owners s x = times x (reqs_of s.head)

  -- Every count is the number of owners.
  abbrev pub Owned : Elsewhere → Session T → Type 0
  Owned o s =
      IsCount s.servers.pool.refs o.conns (conn_owners s) × IsCount s.req_refs o.reqs (req_owners s)

  servers-append : (l m : List NetHandleList) → servers_of (l ++ m) ≡ servers_of l ++ servers_of m
  servers-append [] m = refl
  servers-append (h ∷ l) m = ap (◌∷◌ h.server) (servers-append l m)

  reqs-append : (l m : List NetHandleList) → reqs_of (l ++ m) ≡ reqs_of l ++ reqs_of m
  reqs-append [] m = refl
  reqs-append (h ∷ l) m = ap (◌∷◌ h.req) (reqs-append l m)

  pub enqueue-Owned :
      (p : NetHandleList) (o : Elsewhere) (s : Session T) → Owned o s → Owned o (enqueue T p s)
  unfolding enqueue
  enqueue-Owned p o s k = (
    incref-IsCount s.servers.pool.refs o.conns (conn_owners s) (conn_owners (enqueue T p s))
        p.server
        (λ x. omega (
          arith,
          ap (times x) (servers-append s.head (p ∷ [])),
          times-append x (servers_of s.head) (p.server ∷ []),
        ))
        k.0,
    incref-IsCount s.req_refs o.reqs (req_owners s) (req_owners (enqueue T p s)) p.req
        (λ x.
          ap (times x) (reqs-append s.head (p ∷ [])) ∙ times-append x (reqs_of s.head) (p.req ∷ []))
        k.1,
  )

  pub forget-Owned :
      (ep : ConnEndpoint) (c : ℕ) (o : Elsewhere) (s : Session T)
      → T.find s.servers.cxt_pool ep ≡ some c
      → Owned o s
      → Owned o (forget T ep c s)
  unfolding forget
  forget-Owned ep c o s e k = (
    IsCount-decref T c s.servers.pool o.conns (conn_owners s) (conn_owners (forget T ep c s))
        (λ x. omega (arith, I.entries-del s.servers.cxt_pool ep c x e)) k.0,
    k.1,
  )

  pub dequeue-Owned :
      (h : NetHandleList) (rest : List NetHandleList) (o : Elsewhere) (s : Session T)
      → s.head ≡ h ∷ rest
      → Owned o s
      → Owned o (dequeue T h rest s)
  unfolding dequeue release decref_req
  dequeue-Owned h rest o s e k = (
    IsCount-decref T h.server s.servers.pool o.conns (conn_owners s)
        (conn_owners (dequeue T h rest s))
        (λ x. omega (
          arith,
          ap (λ (l : List NetHandleList). times x (servers_of l)) e,
          times-cons x h.server (servers_of rest),
        ))
        k.0,
    decref-IsCount s.req_refs o.reqs (req_owners s) (req_owners (dequeue T h rest s)) h.req
        (λ x.
          ap (λ (l : List NetHandleList). times x (reqs_of l)) e
          ∙ times-cons x h.req (reqs_of rest))
        k.1,
  )
