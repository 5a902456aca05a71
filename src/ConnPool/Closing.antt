-- ===== src/ConnPool/Closing.antt =====
-- core/conn.c: the descriptor of a connection that is given up.
use http_proxy.Prelude.{
  ℕ, ◌≡◌, refl, ap, ◌∙◌, inl, inr, Bool-cases, true, false, List, [], ◌∷◌, ◌++◌, ℤ, pos, pred_ℤ,
  is_zero,
}
use mathlib.Core.List.{append_assoc}
use http_proxy.Prelude.Uthash.{Uthash}
use http_proxy.Conn.{is_closed}
use http_proxy.ConnPool.Node.{upd}
use http_proxy.ConnPool.{
  ep_eq, Pool, PoolCall, pull_del, close_fd, close_conn, conn_done, decref_conn,
}

-- Taking a descriptor out of epoll and closing it.
abbrev pub pull_and_close : ℕ → List PoolCall
pull_and_close fd = pull_del fd ∷ close_fd fd ∷ []

module _ (T : Uthash ep_eq ℕ) where
  calls-done :
      (p : Pool T.Table) (conn : ℕ)
      → (conn_done T conn p).calls ≡ p.calls ++ pull_and_close (p.fd conn)
  unfolding conn_done close_conn
  calls-done p conn = elim (Bool-cases (is_closed (p.stat conn))) [
    | inl shut ↦ simp (shut, conn_done)
    | inr live ↦ simp (live, conn_done, close_conn)
  ]

  calls-decref :
      (p : Pool T.Table) (conn : ℕ)
      → p.refs conn ≡ pos 1
      → (decref_conn T conn p).calls ≡ p.calls ++ pull_and_close (p.fd conn)
  unfolding decref_conn
  calls-decref p conn one =
      let e : is_zero (pred_ℤ (p.refs conn)) ≡ true = ap (λ (n : ℤ). is_zero (pred_ℤ n)) one in
      let p₁ : Pool T.Table = record p { refs = upd p.refs conn (pred_ℤ (p.refs conn)) } in
      rw (e, decref_conn) (calls-done p₁ conn)

  calls-close :
      (p : Pool T.Table) (conn : ℕ)
      → is_closed (p.stat conn) ≡ false
      → ((close_conn T conn p).calls ≡ p.calls ++ pull_and_close (p.fd conn))
        × ((close_conn T conn p).fd conn ≡ p.fd conn)
        × ((close_conn T conn p).refs conn ≡ p.refs conn)
  unfolding close_conn
  calls-close p conn live = rw (live, close_conn) (refl, refl, refl)

  -- A connection that conn_close has closed is closed a second time when its last owner gives it up
  -- with conn_done, although its descriptor may belong to another connection by then; a connection
  -- that was not closed before is closed once. (core/conn.c:61)
  pub decref-close :
      (p : Pool T.Table) (conn : ℕ)
      → is_closed (p.stat conn) ≡ false
      → p.refs conn ≡ pos 1
      → ((decref_conn T conn (close_conn T conn p)).calls
          ≡ p.calls ++ (pull_and_close (p.fd conn) ++ pull_and_close (p.fd conn)))
        × ((decref_conn T conn p).calls ≡ p.calls ++ pull_and_close (p.fd conn))
  unfolding decref_conn conn_done close_conn
  decref-close p conn live one =
      let (c, f, r) = calls-close p conn live in
      (
        calls-decref (close_conn T conn p) conn (r ∙ one)
            ∙ ap (λ (x : List PoolCall). x ++ pull_and_close ((close_conn T conn p).fd conn)) c
            ∙ append_assoc p.calls (pull_and_close (p.fd conn))
                (pull_and_close ((close_conn T conn p).fd conn))
            ∙ ap (λ (n : ℕ). p.calls ++ (pull_and_close (p.fd conn) ++ pull_and_close n)) f,
        calls-decref p conn one,
      )
