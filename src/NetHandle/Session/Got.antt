-- ===== src/NetHandle/Session/Got.antt =====
-- core/conn.c, conn_get_by_endpoint: the counts of owners of the connections.
use http_proxy.Prelude.{
  ℕ, ◌+◌, ◌≡◌, refl, sym, ap, subst, inl, inr, Bool, true, false, Option, none, some, [], ◌∷◌, ℤ,
  pos, pred_ℤ, arith, times, Option-cases,
}
use http_proxy.Prelude.Uthash.{Uthash}
use http_proxy.Conn.{ConnEndpoint}
use http_proxy.ConnPool.{
  ep_eq, Pool, Connect, connected, in_progress, refused, conn_addrpool_try_get_and_del,
  conn_get_by_endpoint,
}
use http_proxy.ConnPool.Node.{upd}
use http_proxy.NetHandle.Connect.{Answers}
use http_proxy.NetHandle.Session.Counts.{IsCount, move-IsCount, fresh-IsCount, one_self, none_other}

-- One owner more of `c`.
abbrev pub and_one : (ℕ → ℕ) → ℕ → ℕ → ℕ
and_one own c x = own x + times x (c ∷ [])

-- The holds elsewhere, less one on this connection.
abbrev pub less : Option ℕ → (ℕ → ℤ) → ℕ → ℤ
less none others = others
less (some c) others = upd others c (pred_ℤ (others c))

module _ (T : Uthash ep_eq ℕ) where
  -- What conn_get_by_endpoint leaves: the counts as before, with a hold on what it returns, which is
  -- the one of the pool of free connections where `free` has come from there.
  abbrev pub Got : (ℕ → ℤ) → (ℕ → ℕ) → Option ℕ → Option ℕ × Pool T.Table → Type 0
  Got others own free (none, p) = IsCount p.refs others own
  Got others own free (some c, p) = IsCount p.refs (less free others) (and_one own c)

  refs-try_get :
      (ep : ConnEndpoint) (p : Pool T.Table)
      → (conn_addrpool_try_get_and_del T ep p).1.refs ≡ p.refs
  unfolding conn_addrpool_try_get_and_del
  refs-try_get ep p = elim (Option-cases (T.find p.table ep)) [
    | inl e ↦ rw (e, conn_addrpool_try_get_and_del) refl
    | inr (h, e) ↦ elim (Option-cases (p.links.next h)) [
      | inl f ↦ rw (e, conn_addrpool_try_get_and_del) (rw f refl)
      | inr (x, f) ↦ rw (e, conn_addrpool_try_get_and_del) (rw f refl)
    ]
  ]

  module _ (ep : ConnEndpoint) (p : Pool T.Table) (others : ℕ → ℤ) (own : ℕ → ℕ)
      (k : IsCount p.refs others own) where
    p₁ : Pool T.Table
    p₁ = (conn_addrpool_try_get_and_del T ep p).1

    same : IsCount p₁.refs others own
    unfolding p₁
    same = subst (λ (f : ℕ → ℤ). IsCount f others own) (sym (refs-try_get ep p)) k

    -- A connection that is made.
    made :
        (conn : ℕ)
        → others conn ≡ pos 0
        → own conn ≡ 0
        → IsCount (upd p₁.refs conn (pos 1)) others (and_one own conn)
    made conn out here =
        fresh-IsCount p₁.refs others own (and_one own conn) conn 1 out
          (omega (arith, one_self conn, here)) (λ x miss. omega (arith, none_other conn x miss))
          same

    -- A connection that is made and freed again.
    unmade :
        (conn : ℕ)
        → others conn ≡ pos 0
        → own conn ≡ 0
        → IsCount (upd (upd p₁.refs conn (pos 1)) conn (pos 0)) others own
    unmade conn out here =
        fresh-IsCount (upd p₁.refs conn (pos 1)) others (and_one own conn) own conn 0 out here
          (λ x miss. omega (arith, none_other conn x miss)) (made conn out here)

    fresh-Got :
        (conn : ℕ) (socket : Option ℕ) (nonblocking : Bool) (answer : Connect) (failed : Bool)
        → others conn ≡ pos 0
        → own conn ≡ 0
        → (conn_addrpool_try_get_and_del T ep p).0 ≡ none
        → Got others own none (conn_get_by_endpoint T ep conn socket nonblocking answer failed p)
    unfolding conn_get_by_endpoint p₁
    fresh-Got conn none nonblocking answer failed out here e = rw (e, conn_get_by_endpoint) same
    fresh-Got conn (some fd) false answer failed out here e = rw (e, conn_get_by_endpoint) same
    fresh-Got conn (some fd) true refused failed out here e = rw (e, conn_get_by_endpoint) same
    fresh-Got conn (some fd) true connected failed out here e =
        rw (e, conn_get_by_endpoint) (made conn out here)
    fresh-Got conn (some fd) true in_progress true out here e =
        rw (e, conn_get_by_endpoint) (unmade conn out here)
    fresh-Got conn (some fd) true in_progress false out here e =
        rw (e, conn_get_by_endpoint) (made conn out here)

    pub get-Got :
        (a : Answers)
        → others a.conn ≡ pos 0
        → own a.conn ≡ 0
        → Got others own
            (conn_addrpool_try_get_and_del T ep p).0
            (conn_get_by_endpoint T ep a.conn a.socket a.nonblocking a.connect a.failed p)
    unfolding conn_get_by_endpoint p₁
    get-Got a out here = elim (Option-cases (conn_addrpool_try_get_and_del T ep p).0) [
      | inl e ↦ rw e (fresh-Got a.conn a.socket a.nonblocking a.connect a.failed out here e)
      | inr (c, e) ↦
          rw (e, conn_get_by_endpoint)
            (move-IsCount p₁.refs others own (and_one own c) c (λ x. refl) same)
    ]

  pub Got-none :
      (others : ℕ → ℤ) (own : ℕ → ℕ) (free : Option ℕ) (r : Option ℕ × Pool T.Table)
      → r.0 ≡ none
      → Got others own free r
      → IsCount r.1.refs others own
  Got-none others own free (none, p) e g = g
  Got-none others own free (some c, p) e g = absurd (cc)

  pub Got-some :
      (others : ℕ → ℤ) (own : ℕ → ℕ) (free : Option ℕ) (r : Option ℕ × Pool T.Table) (c : ℕ)
      → r.0 ≡ some c
      → Got others own free r
      → IsCount r.1.refs (less free others) (and_one own c)
  Got-some others own free (none, p) c e g = absurd (cc)
  Got-some others own free (some d, p) c e g =
      let to : Option ℕ → ℕ = λ o. elim o [ none ↦ c | some x ↦ x ] in
      subst (λ (x : ℕ). IsCount p.refs (less free others) (and_one own x)) (ap to e) g
