-- ===== src/ConnPool/Done/Released.antt =====
-- core/conn.c, conn_module_done: every connection of the pool is given up once.
use http_proxy.Prelude.{
  ℕ, zero, suc, ◌+◌, ◌≤◌, ◌≡◌, refl, sym, ap, subst, ◌∙◌, by_test, true, false, Option, none, some,
  List, [], ◌∷◌, ℤ, pred_ℤ, is_zero, arith, length, times, times-cons,
}
use http_proxy.Prelude.Uthash.{Uthash, Entries}
use http_proxy.Conn.{ConnEndpoint, is_closed}
use http_proxy.ConnPool.{ep_eq, Pool, close_conn, conn_done, decref_conn}
use http_proxy.ConnPool.Node.{Links, upd}
use http_proxy.ConnPool.Chain.{Chain}
use http_proxy.ConnPool.Done.{done_nodes, done_pools, conn_module_done}
use http_proxy.NetHandle.Session.Counts.{IsCount, recount-IsCount}
use http_proxy.NetHandle.Session.Owners.{IsCount-decref}

module _ (T : Uthash ep_eq ℕ) where
  -- The pointers and the connections of the nodes are as before.
  abbrev pub SameNodes : Pool T.Table → Pool T.Table → Type 0
  SameNodes s t = (t.links ≡ s.links) × (t.elem_conn ≡ s.elem_conn)

  close-SameNodes : (c : ℕ) (s : Pool T.Table) → SameNodes s (close_conn T c s)
  unfolding close_conn
  close-SameNodes c s =
      by_test (SameNodes s) (is_closed (s.stat c)) (λ _. (refl, refl)) (λ _. (refl, refl))

  done-SameNodes : (c : ℕ) (s : Pool T.Table) → SameNodes s (conn_done T c s)
  unfolding conn_done
  done-SameNodes c s =
      by_test (SameNodes s) (is_closed (s.stat c)) (λ _. (refl, refl)) (λ _. close-SameNodes c s)

  decref-SameNodes : (c : ℕ) (s : Pool T.Table) → SameNodes s (decref_conn T c s)
  unfolding decref_conn
  decref-SameNodes c s =
      let s₁ : Pool T.Table = record s { refs = upd s.refs c (pred_ℤ (s.refs c)) } in
      by_test (SameNodes s) (is_zero (pred_ℤ (s.refs c))) (λ _. done-SameNodes c s₁)
        (λ _. (refl, refl))

  -- The connections of nodes.
  abbrev pub conns_of : (ℕ → ℕ) → List ℕ → List ℕ
  conns_of conn [] = []
  conns_of conn (x ∷ l) = conn x ∷ conns_of conn l

  -- What the loop over a list comes to: each of its connections is given up, and `own` is left.
  abbrev Released : Pool T.Table → (ℕ → ℤ) → (ℕ → ℕ) → Option (Pool T.Table) → Type 0
  Released s others own o =
      (t : Pool T.Table) × (o ≡ some t) × SameNodes s t × IsCount t.refs others own

  at_end : (fuel : ℕ) (s : Pool T.Table) → done_nodes T fuel none s ≡ some s
  unfolding done_nodes
  at_end zero s = refl
  at_end (suc fuel) s = refl

  done_nodes-Released :
      (fuel : ℕ) (a : ℕ) (l : List ℕ) (s : Pool T.Table) (others : ℕ → ℤ) (own : ℕ → ℕ)
      → length l ≤ fuel
      → Chain s.links.next s.links.prev a l
      → IsCount s.refs others (λ x. times x (conns_of s.elem_conn l) + own x)
      → Released s others own (done_nodes T fuel (s.links.next a) s)
  unfolding done_nodes times
  done_nodes-Released fuel a [] s others own few c k = (
    s,
    ap (λ (o : Option ℕ). done_nodes T fuel o s) c ∙ at_end fuel s,
    (refl, refl),
    recount-IsCount s.refs others (λ x. times x (conns_of s.elem_conn []) + own x) own
        (λ x. let z : times x [] ≡ 0 = refl in omega (arith, z)) k,
  )
  done_nodes-Released zero a (x ∷ l) s others own few c k = absurd (omega arith)
  done_nodes-Released (suc fuel) a (x ∷ l) s others own few (e, b, c) k =
      let s₁ = decref_conn T (s.elem_conn x) s in
      let (p, q) = decref-SameNodes (s.elem_conn x) s in
      let less =
        IsCount-decref T (s.elem_conn x) s others
          (λ y. times y (conns_of s.elem_conn (x ∷ l)) + own y)
          (λ y. times y (conns_of s.elem_conn l) + own y)
          (λ y. omega (arith, times-cons y (s.elem_conn x) (conns_of s.elem_conn l))) k in
      let (t, f, (p', q'), m) =
        done_nodes-Released fuel x l s₁ others own (omega arith)
          (subst (λ (links : Links). Chain links.next links.prev x l) (sym p) c)
          (subst (λ (conn : ℕ → ℕ). IsCount s₁.refs others (λ y. times y (conns_of conn l) + own y))
            (sym q) less) in
      (
        t,
        ap (λ (o : Option ℕ). done_nodes T (suc fuel) o s) e
            ∙ ap (λ (links : Links). done_nodes T fuel (links.next x) s₁) (sym p)
            ∙ f,
        (p' ∙ p, q' ∙ q),
        m,
      )

  -- The lists behind the heads of pools, one for each, and each within the fuel.
  abbrev pub Pools : Links → ℕ → List (ConnEndpoint × ℕ) → List (List ℕ) → Type 0
  Pools links fuel [] [] = Unit {0}
  Pools links fuel [] (l ∷ ls) = true ≡ false
  Pools links fuel (e ∷ es) [] = true ≡ false
  Pools links fuel (e ∷ es) (l ∷ ls) =
      (length l ≤ fuel) × Chain links.next links.prev e.1 l × Pools links fuel es ls

  -- How often a connection stands in the lists.
  abbrev pub total : (ℕ → ℕ) → List (List ℕ) → ℕ → ℕ
  total conn [] x = 0
  total conn (l ∷ ls) x = times x (conns_of conn l) + total conn ls x

  abbrev AllReleased : (ℕ → ℤ) → Option (Pool T.Table) → Type 0
  AllReleased others o = (t : Pool T.Table) × (o ≡ some t) × ((x : ℕ) → t.refs x ≡ others x)

  done_pools-AllReleased :
      (fuel : ℕ) (es : List (ConnEndpoint × ℕ)) (ls : List (List ℕ)) (s : Pool T.Table)
      (others : ℕ → ℤ)
      → Pools s.links fuel es ls
      → IsCount s.refs others (total s.elem_conn ls)
      → AllReleased others (done_pools T fuel es s)
  unfolding done_pools
  done_pools-AllReleased fuel [] [] s others c k = (s, refl, k)
  done_pools-AllReleased fuel [] (l ∷ ls) s others c k = absurd (cc)
  done_pools-AllReleased fuel (e ∷ es) [] s others c k = absurd (cc)
  done_pools-AllReleased fuel (e ∷ es) (l ∷ ls) s others (few, c, cs) k =
      let (t, f, (p, q), m) =
        done_nodes-Released fuel e.1 l s others (total s.elem_conn ls) few c k in
      let next : Pool T.Table = record t { table = T.del t.table e.0 } in
      let go : Option (Pool T.Table) → Option (Pool T.Table) = λ o. elim o [
        | none ↦ none
        | some u ↦ done_pools T fuel es (record u { table = T.del u.table e.0 })
      ] in
      let (t₂, f₂, m₂) =
        done_pools-AllReleased fuel es ls next others
          (subst (λ (links : Links). Pools links fuel es ls) (sym p) cs)
          (subst (λ (conn : ℕ → ℕ). IsCount t.refs others (total conn ls)) (sym q) m) in
      (t₂, ap go f ∙ f₂, m₂)

module _ (T : Uthash ep_eq ℕ) (I : Entries T) where
  -- Where the lists of the pool are chains no longer than the fuel, conn_module_done comes to the end of each, and
  -- gives up each of its connections as often as the lists have it: the counts of owners
  -- that are left are those of owners elsewhere.
  pub conn_module_done-AllReleased :
      (fuel : ℕ) (ls : List (List ℕ)) (s : Pool T.Table) (others : ℕ → ℤ)
      → Pools T s.links fuel (I.entries s.table) ls
      → IsCount s.refs others (total T s.elem_conn ls)
      → (t : Pool T.Table) × (conn_module_done T I fuel s ≡ some t)
        × ((x : ℕ) → t.refs x ≡ others x)
  unfolding conn_module_done
  conn_module_done-AllReleased fuel ls s others c k =
      let (t, f, m) = done_pools-AllReleased T fuel (I.entries s.table) ls s others c k in
      let go : Option (Pool T.Table) → Option (Pool T.Table) =
        λ o. elim o [ none ↦ none | some u ↦ some (record u { table = T.empty }) ] in
      (record t { table = T.empty }, ap go f, m)
