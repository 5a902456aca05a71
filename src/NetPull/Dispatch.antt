-- ===== src/NetPull/Dispatch.antt =====
-- core/net_pull.c: which handlers the loop of net_pull_work calls.
use http_proxy.Prelude.{
  ℕ, ◌≡◌, refl, sym, ap, ◌∙◌, Bool, true, false, Option, none, some, List, [], ◌∷◌, ◌++◌, arith,
  ◌==◌, if◌then◌else◌,
}
use mathlib.Core.List.{append_assoc, append-nil}
use http_proxy.Prelude.Uthash.{Uthash}
use http_proxy.NetPull.{
  proxy_epoll_err, NetHandler, EpollEvent, Invocation, PullCall, next_calls, later_calls, Trace,
  Pull, do_calls, invoke, handle_event,
}

-- The call of a handler, if there is one.
abbrev pub calls : Option ℕ → EpollEvent → List Invocation
calls none ev = []
calls (some h) ev = record { handler = h; event = ev } ∷ []

-- The handlers that an event is due to: the error handler on an error, then the read handler, then
-- the write handler, whichever of EPOLLIN and EPOLLOUT it carries.
abbrev pub due : NetHandler → EpollEvent → List Invocation
due nh ev =
    (if proxy_epoll_err ev.events then calls nh.h_err ev else [])
    ++ (calls nh.h_read ev ++ calls nh.h_write ev)

module _ (T : Uthash ◌==◌ NetHandler) where
  log-invoke :
      (h : Option ℕ) (ev : EpollEvent) (r : Trace × Pull T)
      → (invoke T h ev r).0.log ≡ r.0.log ++ calls h ev
  unfolding invoke
  log-invoke none ev (t, s) = sym (append-nil t.log)
  log-invoke (some h) ev (t, s) = refl

  calls-if :
      (b : Bool) (h : Option ℕ) (ev : EpollEvent)
      → calls (if b then h else none) ev ≡ (if b then calls h ev else [])
  calls-if true h ev = refl
  calls-if false h ev = refl

  -- For an event on a registered descriptor the handlers called are those that its entry holds when
  -- the event is taken up, in order, whatever the handlers do to the table while they run.
  pub log-handle_event :
      (ev : EpollEvent) (t : Trace) (s : Pull T) (nh : NetHandler)
      → T.find s.handlers ev.fd ≡ some nh
      → (handle_event T ev (t, s)).0.log ≡ t.log ++ due nh ev
  unfolding handle_event
  log-handle_event ev t s nh f =
      let e = if proxy_epoll_err ev.events then calls nh.h_err ev else [] in
      let r = calls nh.h_read ev in
      let w = calls nh.h_write ev in
      let first =
        log-invoke (if proxy_epoll_err ev.events then nh.h_err else none) ev _
        ∙ ap (◌++◌ t.log) (calls-if (proxy_epoll_err ev.events) nh.h_err ev) in
      rw (f, handle_event)
        (log-invoke nh.h_write ev _
          ∙ ap (λ (l : List Invocation). l ++ w)
              (log-invoke nh.h_read ev _ ∙ ap (λ (l : List Invocation). l ++ r) first)
          ∙ append_assoc (t.log ++ e) r w
          ∙ append_assoc t.log e (r ++ w))

  abbrev pub cleared : NetHandler → NetHandler
  cleared nh = record { h_read = none; h_write = none; h_err = nh.h_err }

  invoke_silent :
      (h : Option ℕ) (ev : EpollEvent) (r : Trace × Pull T)
      → r.0.script ≡ []
      → ((invoke T h ev r).1 ≡ r.1) × ((invoke T h ev r).0.script ≡ [])
  unfolding invoke do_calls
  invoke_silent none ev (t, s) e = (refl, e)
  invoke_silent (some h) ev (t, s) e =
      (ap (λ (x : List (List PullCall)). do_calls T (next_calls x) s) e, ap later_calls e)

  -- With handlers that register nothing new, the entry has lost its read and write handlers.
  find-handle_event :
      (ev : EpollEvent) (t : Trace) (s : Pull T) (nh : NetHandler)
      → T.find s.handlers ev.fd ≡ some nh
      → t.script ≡ []
      → T.find (handle_event T ev (t, s)).1.handlers ev.fd ≡ some (cleared nh)
  unfolding handle_event
  find-handle_event ev t s nh f e =
      let s₀ = record s { handlers = T.update s.handlers ev.fd (cleared nh) } in
      let h = if proxy_epoll_err ev.events then nh.h_err else none in
      let (a, a') = invoke_silent h ev (t, s₀) e in
      let (b, b') = invoke_silent nh.h_read ev (invoke T h ev (t, s₀)) a' in
      let (c, _) = invoke_silent nh.h_write ev (invoke T nh.h_read ev (invoke T h ev (t, s₀))) b' in
      rw (f, handle_event)
        (ap (λ (p : Pull T). T.find p.handlers ev.fd) (c ∙ b ∙ a)
          ∙ T.find-update s.handlers ev.fd ev.fd nh _ f
          ∙ self ev.fd)
    where
      self :
          (x : ℕ)
          → ◌≡◌ {A = Option NetHandler}
              (if x == x then some (cleared nh) else T.find s.handlers ev.fd)
              (some (cleared nh))
      self x = ground arith

  -- Read and write handlers are called once: a second event on the same descriptor, after handlers
  -- that registered nothing, reaches the error handler only, and only if it is an error.
  pub handle_event-once :
      (ev ev' : EpollEvent) (t : Trace) (s : Pull T) (nh : NetHandler)
      → T.find s.handlers ev.fd ≡ some nh
      → t.script ≡ []
      → ev'.fd ≡ ev.fd
      → (handle_event T ev' (handle_event T ev (t, s))).0.log
        ≡ (t.log ++ due nh ev) ++ (if proxy_epoll_err ev'.events then calls nh.h_err ev' else [])
  handle_event-once ev ev' t s nh f e same =
      let (t', s') = handle_event T ev (t, s) in
      log-handle_event ev' t' s' (cleared nh)
        (ap (λ (x : ℕ). T.find s'.handlers x) same ∙ find-handle_event ev t s nh f e)
      ∙ ap (λ (l : List Invocation). l ++ due (cleared nh) ev') (log-handle_event ev t s nh f)
      ∙ ap (◌++◌ (t.log ++ due nh ev)) (append-nil _)
