-- ===== src/NetHandle/Session/Leaving.antt =====
-- core/net_handle.c: the end of net_req_handler, after which nothing of a client is held.
use http_proxy.Prelude.{
  ℕ, ◌+◌, ◌≡◌, refl, sym, ap, subst, ◌∙◌, List, [], ◌∷◌, ℤ, pred_ℤ, add_ℤ, arith, times, times-cons,
}
use http_proxy.Prelude.Uthash.{Uthash, Entries, values}
use http_proxy.Conn.{ConnEndpoint}
use http_proxy.ConnPool.{ep_eq, close_conn}
use http_proxy.ConnPool.Node.{upd}
use http_proxy.NetHandle.Pipeline.{NetHandleList}
use http_proxy.NetHandle.Session.{
  Session, with_pool, decref_req, release, forget, release_list, close_entries, req_done,
}
use http_proxy.NetHandle.Session.Counts.{IsCount, decref-IsCount, unhold-IsCount, recount-IsCount}
use http_proxy.NetHandle.Session.Owners.{
  servers_of, reqs_of, Elsewhere, refs-decref, refs-close, IsCount-decref, Owned,
}
use http_proxy.NetHandle.Session.Turns.{Turns, Turns-Owned}

module _ (T : Uthash ep_eq ℕ) where
  -- What the loop over cxt->pool leaves as it is.
  abbrev SameList : Session T → Session T → Type 0
  SameList s s' = (s'.head ≡ s.head) × (s'.client ≡ s.client) × (s'.req_refs ≡ s.req_refs)

  close_entries_lem :
      (es : List (ConnEndpoint × ℕ)) (others : ℕ → ℤ) (s : Session T)
      → IsCount s.servers.pool.refs others (λ x. times x (values es) + times x (servers_of s.head))
      → IsCount (close_entries T es s).servers.pool.refs others (λ x. times x (servers_of s.head))
        × SameList s (close_entries T es s)
  unfolding close_entries forget times
  close_entries_lem [] others s k = (
    recount-IsCount s.servers.pool.refs others
        (λ x. times x (values {K = ConnEndpoint} []) + times x (servers_of s.head))
        (λ x. times x (servers_of s.head)) (λ x. let z : times x [] ≡ 0 = refl in omega (arith, z))
        k,
    (refl, refl, refl),
  )
  close_entries_lem ((ep, c) ∷ es) others s k =
      let p = close_conn T c s.servers.pool in
      let own = λ (x : ℕ). times x (values es) + times x (servers_of s.head) in
      close_entries_lem es others (forget T ep c (with_pool T p s)) (
        IsCount-decref T c p others (λ x. times x (c ∷ values es) + times x (servers_of s.head)) own
          (λ x. omega (arith, times-cons x c (values es)))
          (subst
            (λ (f : ℕ → ℤ).
              IsCount f others (λ x. times x (c ∷ values es) + times x (servers_of s.head)))
            (sym (refs-close T c s.servers.pool)) k))

  release_list_lem :
      (l : List NetHandleList) (o : Elsewhere) (s : Session T)
      → IsCount s.servers.pool.refs o.conns (λ x. times x (servers_of l))
      → IsCount s.req_refs o.reqs (λ x. times x (reqs_of l))
      → IsCount (release_list T l s).servers.pool.refs o.conns (λ x. 0)
        × IsCount (release_list T l s).req_refs o.reqs (λ x. 0)
        × ((release_list T l s).client ≡ s.client)
  unfolding release_list release decref_req times
  release_list_lem [] o s c r = (c, r, refl)
  release_list_lem (h ∷ l) o s c r =
      release_list_lem l o (decref_req T h.req (release T h.server s))
        (IsCount-decref T h.server s.servers.pool o.conns (λ x. times x (h.server ∷ servers_of l))
          (λ x. times x (servers_of l)) (λ x. times-cons x h.server (servers_of l)) c)
        (decref-IsCount s.req_refs o.reqs (λ x. times x (h.req ∷ reqs_of l))
          (λ x. times x (reqs_of l)) h.req (λ x. times-cons x h.req (reqs_of l)) r)

  -- Every count is what code elsewhere holds, once the client has been given up.
  abbrev pub AllReturned : Elsewhere → ℕ → Session T → Type 0
  AllReturned o client s =
      ((x : ℕ) → s.servers.pool.refs x ≡ upd o.conns client (pred_ℤ (o.conns client)) x)
      × ((x : ℕ) → s.req_refs x ≡ o.reqs x)

module _ (T : Uthash ep_eq ℕ) (I : Entries T) where
  req_done_lem :
      (o : Elsewhere) (s : Session T) → Owned T I o s → AllReturned T o s.client (req_done T I s)
  unfolding req_done release
  req_done_lem o s k =
      let es = I.entries s.servers.cxt_pool in
      let s₁ = close_entries T es s in
      let (c, (h, e, r)) = close_entries_lem T es o.conns s k.0 in
      let (c₂, r₂, e₂) =
        release_list_lem T s₁.head o s₁
          (subst
            (λ (l : List NetHandleList).
              IsCount s₁.servers.pool.refs o.conns (λ x. times x (servers_of l)))
            (sym h) c)
          (λ x.
            ap (λ (f : ℕ → ℤ). f x) r
            ∙ k.1 x
            ∙ ap (λ (l : List NetHandleList). add_ℤ (o.reqs x) (times x (reqs_of l))) (sym h)) in
      let last = release_list T s₁.head s₁ in
      (
        λ x.
            ap (λ (f : ℕ → ℤ). f x) (refs-decref T s₁.client last.servers.pool)
            ∙ unhold-IsCount last.servers.pool.refs o.conns (λ y. 0) s₁.client c₂ x
            ∙ ap (λ (c : ℕ). upd o.conns c (pred_ℤ (o.conns c)) x) e,
        r₂,
      )

  -- However the two coroutines of a client have run, with every request and every connection put in
  -- the list and in cxt->pool, taken out, and answered in any order, the end of net_req_handler gives
  -- back each hold of the list and of cxt->pool, once, and one hold on the client: every
  -- count is then what code elsewhere holds. Each round of net_rsp_handler must find the
  -- server that it has served in cxt->pool.
  pub req_done-AllReturned :
      {o o' : Elsewhere} {s s' : Session T}
      → Turns T I o s o' s'
      → Owned T I o s
      → AllReturned T o' s'.client (req_done T I s')
  req_done-AllReturned {o' = o'} {s' = s'} ts k = req_done_lem o' s' (Turns-Owned T I ts k)
