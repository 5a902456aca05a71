-- ===== src/NetPull.antt =====
-- core/net_pull.c and core/net_pull.h: the table of descriptors with their handlers, and the
-- dispatch of the events that epoll_wait reports. A handler with its data is one number; a NULL
-- handler is `none`. The results of epoll_create and epoll_ctl are arguments.
pub mod Table
pub mod Dispatch
mod Tests
use http_proxy.Prelude.{
  ℕ, zero, suc, ◌+◌, Bool, true, false, ◌||◌, Option, none, some, List, [], ◌∷◌, ◌++◌, map, ℤ, pos,
  suc_ℤ, pred_ℤ, is_zero, ◌==◌, if◌then◌else◌,
}
use http_proxy.Prelude.Uthash.{Uthash}

-- The bits of `events` that the code looks at; EPOLLERR, EPOLLHUP and EPOLLRDHUP are errors.
pub record Flags : Type 0 where
  pub epollin : Bool
  pub epollout : Bool
  pub epollerr : Bool
  pub epollhup : Bool
  pub epollrdhup : Bool

-- proxy_epoll_err of core/net_utils.c
unfoldable pub proxy_epoll_err : Flags → Bool
proxy_epoll_err ev = ev.epollerr || (ev.epollhup || ev.epollrdhup)

-- struct net_handler_t, less its key
pub record NetHandler : Type 0 where
  pub h_read : Option ℕ
  pub h_write : Option ℕ
  pub h_err : Option ℕ

-- struct epoll_event, as epoll_wait fills it in
pub record EpollEvent : Type 0 where
  pub fd : ℕ
  pub events : Flags

-- A call of a handler, with the event that it is given.
pub record Invocation : Type 0 where
  pub handler : ℕ
  pub event : EpollEvent

-- What a handler does to this component: the calls of net_pull_add (with the result of epoll_ctl),
-- net_pull_set_handler and net_pull_del (likewise).
pub data PullCall : Type 0 where
  add : ℕ → Option ℕ → Bool → PullCall
  set_handler : ℕ → Bool → Bool → Option ℕ → PullCall
  del : ℕ → Bool → PullCall

abbrev pub next_calls : List (List PullCall) → List PullCall
next_calls [] = []
next_calls (cs ∷ script) = cs

abbrev pub later_calls : List (List PullCall) → List (List PullCall)
later_calls [] = []
later_calls (cs ∷ script) = script

-- The state of a dispatch: the handlers called so far, and what later handlers will do.
pub record Trace : Type 0 where
  pub log : List Invocation
  pub script : List (List PullCall)

module _ (T : Uthash ◌==◌ NetHandler) where
  pub record Pull : Type 0 where
    pub handlers : T.Table
    pub epoll_open : Bool
    pub fd_cnt : ℤ

  abbrev pub init : Pull
  init = record { handlers = T.empty; epoll_open = false; fd_cnt = pos 0 }

  -- net_pull_init: true for 0.
  unfoldable pub net_pull_init : Bool → Pull → Bool × Pull
  net_pull_init created s = (created, record s { epoll_open = created })

  -- net_pull_add, with the outcome of epoll_ctl: true for 0.
  unfoldable pub net_pull_add : ℕ → Option ℕ → Bool → Pull → Bool × Pull
  net_pull_add fd h_err ctl s =
      if ctl
      then elim (T.find s.handlers fd) [
        | none ↦
            let h : NetHandler = record { h_read = none; h_write = none; h_err = h_err } in
            (true, record s { handlers = T.add s.handlers fd h; fd_cnt = suc_ℤ s.fd_cnt })
        | some h ↦ (true, record s { fd_cnt = suc_ℤ s.fd_cnt })
      ]
      else (false, s)

  -- net_pull_set_handler: the flag's EPOLLIN and EPOLLOUT say which handlers are set.
  unfoldable pub net_pull_set_handler : ℕ → Bool → Bool → Option ℕ → Pull → Bool × Pull
  net_pull_set_handler fd inp out handler s = elim (T.find s.handlers fd) [
    | none ↦ (false, s)
    | some h ↦
        let h' : NetHandler = record {
          h_read = if inp then handler else h.h_read;
          h_write = if out then handler else h.h_write;
          h_err = h.h_err;
        } in
        (true, record s { handlers = T.update s.handlers fd h' })
  ]

  -- net_pull_del, with the outcome of epoll_ctl.
  unfoldable pub net_pull_del : ℕ → Bool → Pull → Bool × Pull
  net_pull_del fd ctl s = elim (T.find s.handlers fd) [
    | none ↦ (false, s)
    | some h ↦
        if ctl
        then (true, record s { handlers = T.del s.handlers fd; fd_cnt = pred_ℤ s.fd_cnt })
        else (false, s)
  ]

  unfoldable pub do_call : PullCall → Pull → Pull
  unfolding net_pull_add net_pull_set_handler net_pull_del
  do_call (add fd h ctl) s = (net_pull_add fd h ctl s).1
  do_call (set_handler fd inp out h) s = (net_pull_set_handler fd inp out h s).1
  do_call (del fd ctl) s = (net_pull_del fd ctl s).1

  unfoldable pub do_calls : List PullCall → Pull → Pull
  unfolding do_call
  do_calls [] s = s
  do_calls (c ∷ cs) s = do_calls cs (do_call c s)

  -- `if (nh.h) nh.h (ev, nh.d)`
  unfoldable pub invoke : Option ℕ → EpollEvent → Trace × Pull → Trace × Pull
  unfolding do_calls
  invoke none ev (t, s) = (t, s)
  invoke (some h) ev (t, s) = (
    record {
      log = t.log ++ record { handler = h; event = ev } ∷ [];
      script = later_calls t.script;
    },
    do_calls (next_calls t.script) s,
  )

  -- One round of the loop of net_pull_work: the entry is copied, its read and write handlers are
  -- cleared in the table, and the handlers of the copy are called.
  unfoldable pub handle_event : EpollEvent → Trace × Pull → Trace × Pull
  unfolding invoke
  handle_event ev (t, s) = elim (T.find s.handlers ev.fd) [
    | none ↦ (t, s)
    | some nh ↦
        let cleared : NetHandler = record { h_read = none; h_write = none; h_err = nh.h_err } in
        let s₀ = record s { handlers = T.update s.handlers ev.fd cleared } in
        invoke nh.h_write ev (
          invoke nh.h_read ev
            (invoke (if proxy_epoll_err ev.events then nh.h_err else none) ev (t, s₀)))
  ]

  unfoldable pub handle_events : List EpollEvent → Trace × Pull → Trace × Pull
  unfolding handle_event
  handle_events [] r = r
  handle_events (ev ∷ evs) r = handle_events evs (handle_event ev r)

  -- net_pull_work: `wait` is what epoll_wait returns, none for -1. The result is true for 0.
  unfoldable pub net_pull_work : Option (List EpollEvent) → Trace × Pull → Bool × Trace × Pull
  unfolding handle_events
  net_pull_work wait (t, s) =
      if s.epoll_open
      then (if is_zero s.fd_cnt then (false, t, s) else elim wait [
        | none ↦ (false, t, s)
        | some evs ↦ let (t', s') = handle_events evs (t, s) in (true, t', s')
      ])
      else (false, t, s)

  -- The loop of net_pull_done over the copied entries, in the order of HASH_ITER, with a close event.
  unfoldable pub close_all : List (ℕ × NetHandler) → Flags → Trace × Pull → Trace × Pull
  unfolding invoke
  close_all [] fl r = r
  close_all ((fd, nh) ∷ rest) fl r =
      let ev : EpollEvent = record { fd = fd; events = fl } in
      close_all rest fl (invoke nh.h_write ev (invoke nh.h_read ev (invoke nh.h_err ev r)))

  -- net_pull_done on a table that HASH_ITER lists as `entries`: the table is cleared before the
  -- handlers run; the descriptors closed come first in the result. fd_cnt stays as it is.
  unfoldable pub net_pull_done : List (ℕ × NetHandler) → Trace × Pull → List ℕ × (Trace × Pull)
  unfolding close_all
  net_pull_done [] (t, s) = ([], (t, s))
  net_pull_done (e ∷ es) (t, s) =
      (map (λ x. x.0) (e ∷ es), close_all (e ∷ es) closing (t, record s { handlers = T.empty }))
    where
      closing : Flags
      closing = record {
        epollin = false;
        epollout = false;
        epollerr = true;
        epollhup = false;
        epollrdhup = false;
      }
