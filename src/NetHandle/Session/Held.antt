-- ===== src/NetHandle/Session/Held.antt =====
-- core/net_handle.c, net_connect_to_server: the counts of owners of the connections.
use http_proxy.Prelude.{
  ℕ, ◌+◌, ◌≤◌, ◌≡◌, refl, ◌∙◌, Bool, true, false, if◌then◌else◌, inl, inr, ◌||◌, Option, none, some,
  List, [], ◌∷◌, ◌==◌, ℤ, pos, arith, times, Option-cases,
}
use http_proxy.Prelude.Uthash.{Uthash, Entries, values}
use http_proxy.Conn.{ConnEndpoint, is_closed}
use http_proxy.ConnPool.{ep_eq, conn_get_by_endpoint}
use http_proxy.ConnPool.Order.{ep_eq_iff}
use http_proxy.NetHandle.Connect.{
  AddrInfo, Answers, Servers, incref_conn, af_inet, af_inet6, from_global, from_pools, addr_loop,
  net_connect_to_server,
}
use http_proxy.NetHandle.Usable.{new-Opened, open_of}
use http_proxy.NetHandle.Session.Counts.{IsCount, incref-IsCount}
use http_proxy.NetHandle.Session.Owners.{IsCount-decref}
use http_proxy.NetHandle.Session.Got.{and_one, less, get-Got, Got-none, Got-some}
use http_proxy.NetHandle.Session.Handed.{free_of, shut_left, handed_one, handed}

module _ (T : Uthash ep_eq ℕ) (I : Entries T) where
  -- The owners of a connection in cxt->pool.
  abbrev pub owners : Servers T → ℕ → ℕ
  owners s x = times x (values (I.entries s.cxt_pool))

  -- The counts are right: with a hold on the server that is returned, and where that is `free` one hold
  -- less elsewhere; where none is, cxt->pool has no more than `bound`.
  abbrev pub Held : (ℕ → ℤ) → (ℕ → ℕ) → Option ℕ → Option ℕ × Servers T → Type 0
  Held others bound free (none, s) =
      IsCount s.pool.refs others (owners s) × ((x : ℕ) → owners s x ≤ bound x)
  Held others bound free (some c, s) = IsCount s.pool.refs (less free others) (and_one (owners s) c)

  -- What malloc gives is owned by nobody.
  abbrev pub IsFresh : (ℕ → ℤ) → (ℕ → ℕ) → Answers → Type 0
  IsFresh others own a = (others a.conn ≡ pos 0) × (own a.conn ≡ 0)

  abbrev pub AllFresh : (ℕ → ℤ) → (ℕ → ℕ) → List (AddrInfo × Answers) → Type 0
  AllFresh others own [] = Unit {0}
  AllFresh others own (e ∷ rest) = IsFresh others own e.1 × AllFresh others own rest

  AllFresh-mono :
      (others : ℕ → ℤ) (own own' : ℕ → ℕ) (res : List (AddrInfo × Answers))
      → ((x : ℕ) → own' x ≤ own x)
      → AllFresh others own res
      → AllFresh others own' res
  AllFresh-mono others own own' [] below f = tt
  AllFresh-mono others own own' ((rp, a) ∷ rest) below f =
      ((f.0.0, omega (arith, below a.conn, f.0.1)), AllFresh-mono others own own' rest below f.1)

  Held-mono :
      (others : ℕ → ℤ) (bound more : ℕ → ℕ) (free : Option ℕ) (r : Option ℕ × Servers T)
      → ((x : ℕ) → bound x ≤ more x)
      → Held others bound free r
      → Held others more free r
  Held-mono others bound more free (none, s) below h = (h.0, λ x. omega (arith, below x, h.1 x))
  Held-mono others bound more free (some c, s) below h = h

  Held-if :
      (others : ℕ → ℤ) (bound : ℕ → ℕ) (b : Bool) (free₁ free₂ : Option ℕ)
      (r₁ r₂ : Option ℕ × Servers T)
      → (b ≡ true → Held others bound free₁ r₁)
      → (b ≡ false → Held others bound free₂ r₂)
      → Held others bound (if b then free₁ else free₂) (if b then r₁ else r₂)
  Held-if others bound true free₁ free₂ r₁ r₂ f g = f refl
  Held-if others bound false free₁ free₂ r₁ r₂ f g = g refl

  from_global-Held :
      (ep : ConnEndpoint) (a : Answers) (s : Servers T) (others : ℕ → ℤ)
      → T.find s.cxt_pool ep ≡ none
      → IsFresh others (owners s) a
      → IsCount s.pool.refs others (owners s)
      → Held others (owners s) (free_of T ep s) (from_global T ep a s)
  unfolding from_global
  from_global-Held ep a s others absent (out, here) k =
      let r = conn_get_by_endpoint T ep a.conn a.socket a.nonblocking a.connect a.failed s.pool in
      let free = free_of T ep s in
      let g = get-Got T ep s.pool others (owners s) k a out here in
      elim (Option-cases r.0) [
        | inl e ↦ rw (e, from_global) (Got-none T others (owners s) free r e g, λ x. omega arith)
        | inr (c, e) ↦
            let live = open_of T r.0 r.1 c e (new-Opened T ep a s.pool) in
            let more = λ (x : ℕ). times x (values (I.entries (T.add s.cxt_pool ep c))) in
            let one_more : (x : ℕ) → and_one more c x ≡ and_one (owners s) c x + times x (c ∷ []) =
              λ x. omega (arith, I.entries-add s.cxt_pool ep c x absent) in
            rw (e, from_global)
              (rw live (
                incref-IsCount r.1.refs (less free others) (and_one (owners s) c) (and_one more c) c
                  one_more (Got-some T others (owners s) free r c e g)))
      ]

  from_pools-Held :
      (ep : ConnEndpoint) (a : Answers) (s : Servers T) (others : ℕ → ℤ)
      → IsFresh others (owners s) a
      → IsCount s.pool.refs others (owners s)
      → Held others (owners s) (handed_one T ep s) (from_pools T ep a s)
  unfolding from_pools handed_one
  from_pools-Held ep a s others (out, here) k = elim (Option-cases (T.find s.cxt_pool ep)) [
    | inl absent ↦
        rw (absent, from_pools, handed_one) (from_global-Held ep a s others absent (out, here) k)
    | inr (c, e) ↦
        let s' = shut_left T ep c s in
        let fewer : (x : ℕ) → owners s x ≡ owners s' x + times x (c ∷ []) =
          λ x. I.entries-del s.cxt_pool ep c x e in
        rw (e, from_pools, handed_one)
          (Held-if others (owners s) (is_closed (s.pool.stat c)) (free_of T ep s') none
            (from_global T ep a s') (some c, record s { pool = incref_conn T c s.pool })
            (λ shut.
              Held-mono others (owners s') (owners s) (free_of T ep s') (from_global T ep a s')
                (λ x. omega (arith, fewer x))
                (from_global-Held ep a s' others
                  (T.find-del s.cxt_pool ep ep ∙ rw ((ep_eq_iff ep ep).1 refl) refl)
                  (out, omega (arith, fewer a.conn, here))
                  (IsCount-decref T c s.pool others (owners s) (owners s') fewer k)))
            (λ live.
              incref-IsCount s.pool.refs others (owners s) (and_one (owners s) c) c (λ x. refl) k))
  ]

  got_or_next :
      (others : ℕ → ℤ) (bound : ℕ → ℕ) (free later : Option ℕ) (r next : Option ℕ × Servers T)
      → Held others bound free r
      → (r.0 ≡ none → Held others bound free r → Held others bound later next)
      → Held others bound
          (elim r.0 [ none ↦ later | some c ↦ free ])
          (elim r.0 [ none ↦ next | some c ↦ (some c, r.1) ])
  got_or_next others bound free later (none, s) next h k = k refl h
  got_or_next others bound free later (some c, s) next h k = h

  none-Held :
      (others : ℕ → ℤ) (bound : ℕ → ℕ) (free : Option ℕ) (r : Option ℕ × Servers T)
      → r.0 ≡ none
      → Held others bound free r
      → IsCount r.1.pool.refs others (owners r.1) × ((x : ℕ) → owners r.1 x ≤ bound x)
  none-Held others bound free (none, s) e h = h
  none-Held others bound free (some c, s) e h = absurd (cc)

  addr_loop-Held :
      (port : ℕ) (res : List (AddrInfo × Answers)) (s : Servers T) (others : ℕ → ℤ)
      → AllFresh others (owners s) res
      → IsCount s.pool.refs others (owners s)
      → Held others (owners s) (handed T port res s) (addr_loop T port res none s)
  unfolding addr_loop handed
  addr_loop-Held port [] s others f k = (k, λ x. omega arith)
  addr_loop-Held port ((rp, a) ∷ rest) s others f k =
      let ep : ConnEndpoint = record { family = rp.ai_family; port = port; addr = rp.ai_addr } in
      let r = from_pools T ep a s in
      let later = handed T port rest r.1 in
      let next = addr_loop T port rest none r.1 in
      let skipped = handed T port rest s in
      let skip = addr_loop T port rest none s in
      let known = (rp.ai_family == af_inet) || (rp.ai_family == af_inet6) in
      let free = elim r.0 as (λ _. Option ℕ) [ none ↦ later | some c ↦ handed_one T ep s ] in
      let found = elim r.0 as (λ _. Option ℕ × Servers T) [
        | none ↦ next
        | some c ↦ (some c, r.1)
      ] in
      Held-if others (owners s) a.exiting none (if known then free else skipped) (none, s)
        (if known then found else skip) (λ _. (k, λ x. omega arith))
        (λ _.
          Held-if others (owners s) known free skipped found skip
            (λ _.
              got_or_next others (owners s) (handed_one T ep s) later r next
                (from_pools-Held ep a s others f.0 k)
                (λ e h.
                  let (m, below) = none-Held others (owners s) (handed_one T ep s) r e h in
                  Held-mono others (owners r.1) (owners s) later next below (
                    addr_loop-Held port rest r.1 others
                      (AllFresh-mono others (owners s) (owners r.1) rest below f.1) m)))
            (λ _. addr_loop-Held port rest s others f.1 k))

  -- The addresses to try, with what malloc gives for each.
  abbrev pub FoundFresh : (ℕ → ℤ) → (ℕ → ℕ) → Option (List (AddrInfo × Answers)) → Type 0
  FoundFresh others own none = Unit {0}
  FoundFresh others own (some res) = AllFresh others own res

  -- The connection that comes from the pool of free connections.
  abbrev pub handed_of : Option (List (AddrInfo × Answers)) → ℕ → Servers T → Option ℕ
  handed_of none port s = none
  handed_of (some res) port s = handed T port res s

  -- Whatever the addresses are and whatever is answered for each, net_connect_to_server keeps the
  -- counts of owners right: where it returns a server, its caller has one hold on it and each entry of
  -- cxt->pool one on its server, and the holds elsewhere are as before, less that of the pool of free
  -- connections exactly where the server has been taken from there; where it returns none, each entry
  -- has one hold, those elsewhere are as before, and cxt->pool has no connection more often than before.
  -- What malloc gives for a new connection must be held by nobody.
  pub net_connect_to_server-Held :
      (found : Option (List (AddrInfo × Answers))) (port : ℕ) (s : Servers T) (others : ℕ → ℤ)
      → FoundFresh others (owners s) found
      → IsCount s.pool.refs others (owners s)
      → Held others (owners s) (handed_of found port s) (net_connect_to_server T found port s)
  unfolding net_connect_to_server
  net_connect_to_server-Held none port s others f k = (k, λ x. omega arith)
  net_connect_to_server-Held (some res) port s others f k = addr_loop-Held port res s others f k
