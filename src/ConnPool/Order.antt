-- ===== src/ConnPool/Order.antt =====
-- core/conn.c: the lists of free connections under conn_addrpool_add, conn_addrpool_del and
-- conn_addrpool_try_get_and_del.
use http_proxy.Prelude.{
  ℕ, ◌≡◌, refl, sym, subst, ap, ◌∙◌, ◌⊎◌, ◌↔◌, inl, inr, true, false, Option, none, some, List, [],
  ◌∷◌, ◌++◌, arith, ◌==◌,
}
use http_proxy.Prelude.Uthash.{Uthash}
use http_proxy.Libc.Laws.{str_eq_iff}
use http_proxy.Conn.{ConnEndpoint}
use http_proxy.ConnPool.Node.{Links, push_front, put_alone, unlink}
use http_proxy.ConnPool.Chain.{NotIn, Apart, IsChain, last, push_front-IsChain, unlink-IsChain}
use http_proxy.ConnPool.Others.{unlink-other}
use http_proxy.ConnPool.{
  ep_eq, Pool, close_conn, conn_done, decref_conn, conn_addrpool_add, conn_addrpool_del,
  conn_addrpool_try_get_and_del,
}

pub ep_eq_iff : (a b : ConnEndpoint) → (ep_eq a b ≡ true) ↔ (a ≡ b)
unfolding ep_eq
ep_eq_iff a b = ground (arith, str_eq_iff a.addr b.addr)

module _ (T : Uthash ep_eq ℕ) where
  -- The endpoint has a pool with these nodes, or it has none and `head` will be its pool.
  abbrev pub Lists : Pool T.Table → ConnEndpoint → ℕ → ℕ → List ℕ → Type 0
  Lists p e head h l =
      ((T.find p.table e ≡ some h) × IsChain p.links h l)
      ⊎ ((T.find p.table e ≡ none) × (h ≡ head) × (l ≡ []))

  -- The connection comes back, no longer in a list, and the list is `l`.
  abbrev pub ComesBack : ℕ → ℕ → List ℕ → Option ℕ × Pool T.Table → Type 0
  ComesBack conn h l (r, p) = (r ≡ some conn) × (p.apool conn ≡ none) × IsChain p.links h l

  take_first :
      (p : Pool T.Table) (e : ConnEndpoint) (conn h elem : ℕ) (l : List ℕ)
      → T.find p.table e ≡ some h
      → p.elem_conn elem ≡ conn
      → IsChain p.links h (elem ∷ l)
      → ComesBack conn h l (conn_addrpool_try_get_and_del T e p)
  unfolding conn_addrpool_try_get_and_del
  take_first p e conn h elem l found same c =
      rw (found, conn_addrpool_try_get_and_del)
        (rw c.chain.0 (ap some same, ground arith, (unlink-IsChain p.links h elem [] l c).1))

  first_added :
      (p : Pool T.Table) (conn elem head : ℕ)
      → T.find p.table (p.ep conn) ≡ none
      → (elem == head) ≡ false
      → ComesBack conn head []
          (conn_addrpool_try_get_and_del T (p.ep conn) (conn_addrpool_add T conn elem head p))
  unfolding conn_addrpool_add
  first_added p conn elem head missing out =
      let p' = conn_addrpool_add T conn elem head p in
      let links : p'.links ≡ put_alone head elem p.links = rw (missing, conn_addrpool_add) refl in
      let here : T.find p'.table (p.ep conn) ≡ some head =
        rw (missing, conn_addrpool_add)
          (T.find-add p.table (p.ep conn) (p.ep conn) head missing
            ∙ rw ((ep_eq_iff (p.ep conn) (p.ep conn)).1 refl) refl) in
      let same : p'.elem_conn elem ≡ conn = rw (missing, conn_addrpool_add) (ground arith) in
      take_first p' (p.ep conn) conn head elem [] here same (
        subst (λ (k : Links). IsChain k head (elem ∷ [])) (sym links)
          (record { chain = (ground arith, ground arith, ground arith); distinct = ground arith }))

  -- A connection that conn_addrpool_add has put into the pool is the next that
  -- conn_addrpool_try_get_and_del returns for its endpoint, whether the endpoint had a pool before or
  -- not; and the list of the others is then what it was.
  pub try_get-add :
      (p : Pool T.Table) (conn elem head h : ℕ) (l : List ℕ)
      → Lists p (p.ep conn) head h l
      → NotIn elem (h ∷ l)
      → ComesBack conn h l
          (conn_addrpool_try_get_and_del T (p.ep conn) (conn_addrpool_add T conn elem head p))
  unfolding conn_addrpool_add
  try_get-add p conn elem head h l (inl (found, c)) out =
      let p' = conn_addrpool_add T conn elem head p in
      let links : p'.links ≡ push_front h elem p.links = rw (found, conn_addrpool_add) refl in
      let here : T.find p'.table (p.ep conn) ≡ some h = rw (found, conn_addrpool_add) found in
      let same : p'.elem_conn elem ≡ conn = rw (found, conn_addrpool_add) (ground arith) in
      take_first p' (p.ep conn) conn h elem l here same (
        subst (λ (k : Links). IsChain k h (elem ∷ l)) (sym links)
          (push_front-IsChain p.links h elem l c out))
  try_get-add p conn elem head h l (inr (missing, e, f)) out =
      let r = conn_addrpool_try_get_and_del T (p.ep conn) (conn_addrpool_add T conn elem head p) in
      let o : (elem == head) ≡ false = ap (λ (x : ℕ). elem == x) (sym e) ∙ out.0 in
      subst (λ (x : ℕ). ComesBack conn x l r) (sym e)
        (subst (λ (x : List ℕ). ComesBack conn head x r) (sym f)
          (first_added p conn elem head missing o))

  links-decref : (p : Pool T.Table) (conn : ℕ) → (decref_conn T conn p).links ≡ p.links
  unfolding decref_conn conn_done close_conn
  links-decref p conn = ground arith

  -- conn_addrpool_del takes a connection out of the list of its pool, wherever it stands in it, without
  -- a NULL pointer on its way, and every list that shares no node with this one stays as it is.
  pub conn_addrpool_del-IsChain :
      (p : Pool T.Table) (conn elem h : ℕ) (l m : List ℕ)
      → p.apool conn ≡ some elem
      → IsChain p.links h (l ++ (elem ∷ m))
      → (p' : Pool T.Table) × (conn_addrpool_del T conn p ≡ some p')
        × IsChain p'.links h (l ++ m)
        × ((g : ℕ) (j : List ℕ)
            → Apart (h ∷ (l ++ (elem ∷ m))) (g ∷ j)
            → IsChain p.links g j
            → IsChain p'.links g j)
  unfolding conn_addrpool_del
  conn_addrpool_del-IsChain p conn elem h l m node c =
      let (back, c') = unlink-IsChain p.links h elem l m c in
      let p₁ : Pool T.Table = record p { links = unlink (last h l) elem p.links } in
      let e = links-decref p₁ conn in
      (
        decref_conn T conn p₁,
        rw (node, conn_addrpool_del) (rw back refl),
        subst (λ (k : Links). IsChain k h (l ++ m)) (sym e) c',
        λ g j apart o.
            subst (λ (k : Links). IsChain k g j) (sym e)
              (unlink-other p.links h elem l m g j c apart o),
      )
