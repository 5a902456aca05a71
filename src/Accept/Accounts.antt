-- ===== src/Accept/Accounts.antt =====
-- core/conn.c, conn_accept_handler: what becomes of the descriptors that accept gives.
use http_proxy.Prelude.{ℕ, ◌+◌, ◌≡◌, Bool, Option, none, some, List, [], ◌∷◌, ◌++◌, map, pos, times}
use http_proxy.Async.{Code, Coroutine, async_resume}
use http_proxy.Accept.{
  ConnNotice, AcceptCall, pull_add, close_fd, release_conn, Accepted, start_paused,
  conn_async_final,
}

-- The descriptors that calls of one kind are made with.
unfoldable pub pick : (AcceptCall → Option ℕ) → List AcceptCall → List ℕ
pick f [] = []
pick f (c ∷ calls) = elim (f c) [ none ↦ pick f calls | some fd ↦ fd ∷ pick f calls ]

abbrev pub is_close : AcceptCall → Option ℕ
is_close (close_fd fd) = some fd
is_close _ = none

abbrev pub is_add : AcceptCall → Option ℕ
is_add (pull_add fd) = some fd
is_add _ = none

abbrev pub is_release : AcceptCall → Option ℕ
is_release (release_conn fd) = some fd
is_release _ = none

-- None of these calls.
abbrev IsSilent : List AcceptCall → Type 0
IsSilent calls =
    (pick is_close calls ≡ []) × (pick is_add calls ≡ []) × (pick is_release calls ≡ [])

module _ (notice_at : ℕ → ConnNotice) where
  -- Of the connections waiting, the first ones have been taken: each of their descriptors has been closed
  -- or registered, and the hold on each registered connection has been given back.
  abbrev pub Accounted : List Accepted → Bool × List AcceptCall → Type 0
  Accounted waiting r =
      (taken : List Accepted) × (rest : List Accepted) × (waiting ≡ taken ++ rest)
      × ((x : ℕ)
          → (times x (pick is_close r.1) + times x (pick is_add r.1)
              ≡ times x (map (λ (a : Accepted). a.fd) taken))
            × (times x (pick is_release r.1) ≡ times x (pick is_add r.1)))

  abbrev resumed : Code → Coroutine
  resumed code = async_resume (start_paused code) (pos 0)

  abbrev first : Accepted → Bool × List AcceptCall
  first a = conn_async_final notice_at (resumed a.req)
