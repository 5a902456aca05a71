-- ===== src/Accept/Registered.antt =====
-- core/conn.c, conn_epoll_handler and conn_event_handler: a coroutine is continued, and what it waits for
-- next is set, or its context is given back.
use http_proxy.Prelude.{
  ℕ, ◌≡◌, refl, Option, none, some, List, [], ◌∷◌, ℤ, pos, negsuc, ◌==◌, if◌then◌else◌,
}
use http_proxy.NetPull.{Flags, proxy_epoll_err}
use http_proxy.Async.{
  async_pause, AsyncYieldType, yield_none, conn_io_will_block, conn_wait_for_event, Code, yields,
  returns, Coroutine, switch, async_resume,
}
use http_proxy.Async.Resume.{after, StandsAt}
use http_proxy.Accept.{
  ConnNotice, AcceptCall, pull_set, event_set, decref_cxt, conn_async_final, conn_epoll_handler,
  conn_event_handler,
}

module _ (notice_at : ℕ → ConnNotice) where
  -- The calls that are due where a code stands: the descriptor or the event that it waits for, or the
  -- context of a code that has returned.
  unfoldable pub calls_for : Option (AsyncYieldType × (ℕ × (ℤ → Code))) → List AcceptCall
  calls_for none = decref_cxt ∷ []
  calls_for (some (conn_io_will_block, (d, next))) =
      pull_set (notice_at d).fd (notice_at d).flag ∷ []
  calls_for (some (conn_wait_for_event, (d, next))) = event_set (notice_at d).eid ∷ []
  calls_for (some (yield_none, (d, next))) = []

  abbrev pub StandsWith :
      Option (AsyncYieldType × (ℕ × (ℤ → Code))) → Coroutine × List AcceptCall → Type 0
  StandsWith o (c, calls) = StandsAt o c × (calls ≡ calls_for o)

  switch-StandsWith :
      (code : Code) (c : Coroutine)
      → StandsWith (after code []) (switch code c, (conn_async_final notice_at (switch code c)).1)
  unfolding switch after conn_async_final calls_for
  switch-StandsWith returns c = (refl, refl)
  switch-StandsWith (yields conn_io_will_block d next) c = ((refl, refl, refl, refl), refl)
  switch-StandsWith (yields conn_wait_for_event d next) c = ((refl, refl, refl, refl), refl)
  switch-StandsWith (yields yield_none d next) c = ((refl, refl, refl, refl), refl)

  resume-StandsWith :
      (c : Coroutine) (v : ℤ)
      → c.cxt.stat ≡ async_pause
      → StandsWith
          (after (c.rest v) [])
          (async_resume c v, (conn_async_final notice_at (async_resume c v)).1)
  unfolding async_resume
  resume-StandsWith c v e = rw (e, async_resume) (switch-StandsWith (c.rest v) _)

  -- A paused coroutine is continued by each of the two handlers with -1 or 0, and with 1 or 0. Behind
  -- that it stands where its code stands after this value, and exactly one call has been made: the
  -- handler for the descriptor or the event that it then waits for is set, or, where the code has
  -- returned, its context is given back; none if it yields for no reason.
  pub handlers-StandsWith :
      (events : Flags) (data1 : ℕ) (c : Coroutine)
      → c.cxt.stat ≡ async_pause
      → StandsWith
          (after (c.rest (if proxy_epoll_err events then negsuc 0 else pos 0)) [])
          (conn_epoll_handler notice_at events c)
        × StandsWith
            (after (c.rest (if data1 == 0 then pos 1 else pos 0)) [])
            (conn_event_handler notice_at data1 c)
  unfolding conn_epoll_handler conn_event_handler
  handlers-StandsWith events data1 c e = (
    resume-StandsWith c (if proxy_epoll_err events then negsuc 0 else pos 0) e,
    resume-StandsWith c (if data1 == 0 then pos 1 else pos 0) e,
  )
