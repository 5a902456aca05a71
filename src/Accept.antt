-- ===== src/Accept.antt =====
-- core/conn.c: conn_accept_handler, and how its coroutines are continued: conn_async_final,
-- conn_epoll_handler and conn_event_handler. A conn_notice is what its address leads to. The fields of the
-- new struct conn are left out.
pub mod Registered
pub mod Accounts
mod Tests
use http_proxy.Prelude.{
  ℕ, Bool, true, false, not, Option, none, some, List, [], ◌∷◌, ◌++◌, ℤ, pos, negsuc, is_zero, ◌==◌,
  if◌then◌else◌,
}
use http_proxy.NetPull.{Flags, proxy_epoll_err}
use http_proxy.Async.{
  AsyncStat, async_init_stat, async_running, async_pause, async_finish, AsyncYieldType, yield_none,
  conn_io_will_block, conn_wait_for_event, Code, Coroutine, async_init, async_resume,
}

-- union conn_notice_u
pub record ConnNotice : Type 0 where
  pub fd : ℕ
  pub flag : ℕ
  pub eid : ℕ

-- The calls that leave this part: the handlers set for the coroutine, its context given back, and what
-- conn_accept_handler does with descriptors and connections.
pub data AcceptCall : Type 0 where
  pull_set : ℕ → ℕ → AcceptCall
  event_set : ℕ → AcceptCall
  decref_cxt : AcceptCall
  keep_accept : ℕ → AcceptCall
  pull_del : ℕ → AcceptCall
  pull_add : ℕ → AcceptCall
  close_fd : ℕ → AcceptCall
  release_conn : ℕ → AcceptCall

-- What accept answers, with the two coroutines that run on the connection: the code of req_handler and
-- that of rsp_handler.
pub record Accepted : Type 0 where
  pub fd : ℕ
  pub nonblocking : Bool
  pub known_family : Bool
  pub req : Code
  pub rsp : Code

-- req_handler and rsp_handler, none for NULL; a function is a number.
pub record ConnHandlers : Type 0 where
  pub req_handler : Option ℕ
  pub rsp_handler : Option ℕ

unfoldable pub conn_set_req_handler : ℕ → ConnHandlers → ConnHandlers
conn_set_req_handler handler c = record c { req_handler = some handler }

unfoldable pub conn_set_rsp_handler : ℕ → ConnHandlers → ConnHandlers
conn_set_rsp_handler handler c = record c { rsp_handler = some handler }

-- A new context, paused in front of its code.
abbrev pub start_paused : Code → Coroutine
start_paused code = record { cxt = record async_init { stat = async_pause }; rest = λ _. code }

module _ (notice_at : ℕ → ConnNotice) where
  -- The switch of conn_async_final; yield_data is never NULL there.
  abbrev pub set_for : Option AsyncYieldType → Option ℕ → List AcceptCall
  set_for (some conn_io_will_block) (some d) = pull_set (notice_at d).fd (notice_at d).flag ∷ []
  set_for (some conn_wait_for_event) (some d) = event_set (notice_at d).eid ∷ []
  set_for (some yield_none) d = []
  set_for (some conn_io_will_block) none = []
  set_for (some conn_wait_for_event) none = []
  set_for none d = []

  -- conn_async_final: true for 0, and the calls.
  unfoldable pub conn_async_final : Coroutine → Bool × List AcceptCall
  conn_async_final c = elim c.cxt.stat [
    | async_init_stat ↦ (false, decref_cxt ∷ [])
    | async_running ↦ (false, decref_cxt ∷ [])
    | async_finish ↦ (false, decref_cxt ∷ [])
    | async_pause ↦ (true, set_for c.cxt.yield_type c.cxt.yield_data)
  ]

  unfoldable pub conn_epoll_handler : Flags → Coroutine → Coroutine × List AcceptCall
  unfolding async_resume conn_async_final proxy_epoll_err
  conn_epoll_handler events c =
      let c' = async_resume c (if proxy_epoll_err events then negsuc 0 else pos 0) in
      (c', (conn_async_final c').1)

  -- `data1` is 0 for NULL.
  unfoldable pub conn_event_handler : ℕ → Coroutine → Coroutine × List AcceptCall
  unfolding async_resume conn_async_final
  conn_event_handler data1 c =
      let c' = async_resume c (if data1 == 0 then pos 1 else pos 0) in (c', (conn_async_final c').1)

  -- The loop of conn_accept_handler, with the connections that accept still has to give; then it fails,
  -- with EAGAIN or another error. The result is true for 0.
  unfoldable pub accept_loop : List Accepted → Bool → Bool × List AcceptCall
  unfolding async_resume conn_async_final async_init
  accept_loop [] again = (again, [])
  accept_loop (a ∷ waiting) again =
      let (req_left, req_calls) = conn_async_final (async_resume (start_paused a.req) (pos 0)) in
      let rsp_calls = (conn_async_final (async_resume (start_paused a.rsp) (pos 0))).1 in
      let rest = accept_loop waiting again in
      if not a.nonblocking
      then (false, close_fd a.fd ∷ [])
      else if not a.known_family
      then (false, close_fd a.fd ∷ [])
      else if not req_left
      then (true, pull_add a.fd ∷ req_calls ++ release_conn a.fd ∷ [])
      else (rest.0, pull_add a.fd ∷ req_calls ++ release_conn a.fd ∷ rsp_calls ++ rest.1)

  -- conn_accept_handler on the listening socket `sfd`.
  unfoldable pub conn_accept_handler : Flags → ℕ → List Accepted → Bool → Bool × List AcceptCall
  unfolding accept_loop proxy_epoll_err
  conn_accept_handler events sfd waiting again =
      let (ok, calls) = accept_loop waiting again in
      if proxy_epoll_err events then (false, pull_del sfd ∷ []) else (ok, keep_accept sfd ∷ calls)
