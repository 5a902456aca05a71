-- ===== src/Accept/Tests.antt =====
-- Examples for conn_accept_handler and the handlers of coroutines in core/conn.c.
use http_proxy.Prelude.{
  ℕ, ◌≡◌, refl, Bool, true, false, List, [], ◌∷◌, pos, negsuc, is_zero, ◌==◌, if◌then◌else◌,
}
use http_proxy.NetPull.{Flags, proxy_epoll_err}
use http_proxy.Async.{conn_io_will_block, conn_wait_for_event, Code, yields, returns, Coroutine}
use http_proxy.Async.Resume.{after}
use http_proxy.Accept.{
  ConnNotice, event_set, pull_add, close_fd, release_conn, Accepted, start_paused,
  conn_epoll_handler, conn_event_handler, accept_loop,
}
use http_proxy.Accept.Registered.{StandsWith, handlers-StandsWith}

abbrev notice_at : ℕ → ConnNotice
notice_at d = record { fd = d; flag = 1; eid = d }

-- It waits for event 3, and goes on only if the event brings a value.
abbrev waits_once : Code
waits_once =
    yields conn_wait_for_event 3
      (λ v. if is_zero v then yields conn_io_will_block 4 (λ _. returns) else returns)

abbrev paused : Coroutine
paused = record (start_paused waits_once) { rest = λ v. if is_zero v then waits_once else returns }

abbrev readable : Flags
readable = record {
  epollin = true;
  epollout = false;
  epollerr = false;
  epollhup = false;
  epollrdhup = false;
}

goes_on :
    StandsWith notice_at
      (after (paused.rest (if proxy_epoll_err readable then negsuc 0 else pos 0)) [])
      (conn_epoll_handler notice_at readable paused)
    × StandsWith notice_at
        (after (paused.rest (if 0 == 0 then pos 1 else pos 0)) [])
        (conn_event_handler notice_at 0 paused)
goes_on = handlers-StandsWith notice_at readable 0 paused refl

abbrev client : ℕ → Bool → Code → Accepted
client fd known req = record {
  fd = fd;
  nonblocking = true;
  known_family = known;
  req = req;
  rsp = waits_once;
}

-- A client that stays, one of an unknown family, and one that is not reached.
abbrev clients : List Accepted
clients = client 7 true waits_once ∷ client 8 false waits_once ∷ client 9 true returns ∷ []

calls_made :
    accept_loop notice_at clients true
    ≡ (false, pull_add 7 ∷ event_set 3 ∷ release_conn 7 ∷ event_set 3 ∷ close_fd 8 ∷ [])
unfolding accept_loop
calls_made = refl
