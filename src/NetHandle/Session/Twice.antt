-- ===== src/NetHandle/Session/Twice.antt =====
-- core/net_handle.c: two requests for one server, which closes its connection after the first.
use http_proxy.Prelude.{
  ℕ, ◌≡◌, refl, ap, ◌∙◌, Bool, true, Option, none, some, List, ◌∷◌, ℤ, pred_ℤ, is_zero, by_test,
  if◌then◌else◌,
}
use http_proxy.Prelude.Uthash.{Uthash}
use http_proxy.Conn.{ConnEndpoint, is_closed}
use http_proxy.ConnPool.{ep_eq, Pool, conn_done, decref_conn}
use http_proxy.ConnPool.Node.{upd}
use http_proxy.ConnPool.Order.{ep_eq_iff}
use http_proxy.NetHandle.Pipeline.{NetHandleList}
use http_proxy.NetHandle.Session.{Session, decref_req, release, dequeue, forget, rsp_after}

module _ (T : Uthash ep_eq ℕ) where
  -- The connection is closed, and the pool's connections have the same endpoints as before.
  abbrev StaysClosed : ℕ → (ℕ → ConnEndpoint) → Pool T.Table → Type 0
  StaysClosed c ep p = (is_closed (p.stat c) ≡ true) × (p.ep ≡ ep)

  done-StaysClosed :
      (c : ℕ) (p : Pool T.Table)
      → is_closed (p.stat c) ≡ true
      → StaysClosed c p.ep (conn_done T c p)
  unfolding conn_done
  done-StaysClosed c p shut =
      by_test (StaysClosed c p.ep) (is_closed (p.stat c)) (λ _. (shut, refl)) (λ live. absurd (cc))

  decref-StaysClosed :
      (c : ℕ) (p : Pool T.Table)
      → is_closed (p.stat c) ≡ true
      → StaysClosed c p.ep (decref_conn T c p)
  unfolding decref_conn
  decref-StaysClosed c p shut =
      let p₁ : Pool T.Table = record p { refs = upd p.refs c (pred_ℤ (p.refs c)) } in
      by_test (StaysClosed c p.ep) (is_zero (pred_ℤ (p.refs c))) (λ _. done-StaysClosed c p₁ shut)
        (λ _. (shut, refl))

  -- A round on a closed server, whose entry the pool has, and has not.
  pub closed_found :
      (h : NetHandleList) (rest : List NetHandleList) (ret : ℤ) (s : Session T) (t : ℕ)
      → is_closed (s.servers.pool.stat h.server) ≡ true
      → T.find s.servers.cxt_pool (s.servers.pool.ep h.server) ≡ some t
      → rsp_after T h rest ret s
        ≡ some (dequeue T h rest (forget T (s.servers.pool.ep h.server) h.server s))
  unfolding rsp_after
  closed_found h rest ret s t shut found =
      let next = dequeue T h rest (forget T (s.servers.pool.ep h.server) h.server s) in
      by_test (λ (o : Option (Session T)). o ≡ some next) (is_closed (s.servers.pool.stat h.server))
        (λ _. ap (λ (f : Option ℕ). elim f [ none ↦ none | some u ↦ some next ]) found)
        (λ live. absurd (cc))

  closed_missing :
      (h : NetHandleList) (rest : List NetHandleList) (ret : ℤ) (s : Session T)
      → is_closed (s.servers.pool.stat h.server) ≡ true
      → T.find s.servers.cxt_pool (s.servers.pool.ep h.server) ≡ none
      → rsp_after T h rest ret s ≡ none
  unfolding rsp_after
  closed_missing h rest ret s shut missing = rw (shut, rsp_after) (rw (missing, rsp_after) refl)

  -- The pool after the first of the two rounds.
  after_closed :
      (h : NetHandleList) (rest : List NetHandleList) (s : Session T)
      → is_closed (s.servers.pool.stat h.server) ≡ true
      → StaysClosed h.server s.servers.pool.ep
          (dequeue T h rest (forget T (s.servers.pool.ep h.server) h.server s)).servers.pool
  unfolding dequeue forget release decref_req
  after_closed h rest s shut =
      let (a, b) = decref-StaysClosed h.server s.servers.pool shut in
      let (c, d) = decref-StaysClosed h.server (decref_conn T h.server s.servers.pool) a in
      (c, d ∙ b)

  -- Where two requests in a row wait for the same server, and it has closed its connection by the end of
  -- the first response, the round for the first one takes it off the list and out of cxt->pool, and
  -- the round for the second one, whatever rsp_handler returns there, hands HASH_DEL a
  -- NULL entry. The premise is that cxt->pool had an entry for the endpoint. (core/net_handle.c:240)
  pub rsp_after-twice :
      (h h₂ : NetHandleList) (rest : List NetHandleList) (ret ret₂ : ℤ) (s : Session T) (t : ℕ)
      → h₂.server ≡ h.server
      → is_closed (s.servers.pool.stat h.server) ≡ true
      → T.find s.servers.cxt_pool (s.servers.pool.ep h.server) ≡ some t
      → (s' : Session T) × (rsp_after T h (h₂ ∷ rest) ret s ≡ some s')
        × (s'.head ≡ h₂ ∷ rest)
        × (rsp_after T h₂ rest ret₂ s' ≡ none)
  unfolding dequeue forget
  rsp_after-twice h h₂ rest ret ret₂ s t same shut found =
      let ep = s.servers.pool.ep h.server in
      let s' = dequeue T h (h₂ ∷ rest) (forget T ep h.server s) in
      let (c, e) = after_closed h (h₂ ∷ rest) s shut in
      let at : s'.servers.pool.ep h₂.server ≡ ep =
        ap s'.servers.pool.ep same ∙ ap (λ (f : ℕ → ConnEndpoint). f h.server) e in
      let self : ep_eq ep ep ≡ true = (ep_eq_iff ep ep).1 refl in
      let gone : T.find (T.del s.servers.cxt_pool ep) ep ≡ none =
        T.find-del s.servers.cxt_pool ep ep
        ∙ ap (λ (b : Bool). if b then none else T.find s.servers.cxt_pool ep) self in
      (
        s',
        closed_found h (h₂ ∷ rest) ret s t shut found,
        refl,
        closed_missing h₂ rest ret₂ s' (ap (λ (c : ℕ). is_closed (s'.servers.pool.stat c)) same ∙ c)
            (ap (λ (k : ConnEndpoint). T.find s'.servers.cxt_pool k) at ∙ gone),
      )
