-- ===== src/NetPull/Tests.antt =====
-- Examples for core/net_pull.c.
use http_proxy.Prelude.{◌≡◌, refl, true, false, none, some, [], ◌∷◌, ◌++◌, pos, arith}
use http_proxy.Prelude.Uthash.{assoc}
use http_proxy.NetPull.{proxy_epoll_err, NetHandler, EpollEvent, Trace, Pull, handle_event}
use http_proxy.NetPull.Table.{Counts}
use http_proxy.NetPull.Dispatch.{due, handle_event-once}

abbrev entry : NetHandler
entry = record { h_read = some 1; h_write = none; h_err = some 3 }

abbrev pull : Pull (assoc NetHandler)
pull = record { handlers = (5, entry) ∷ []; epoll_open = true; fd_cnt = pos 1 }

abbrev readable : EpollEvent
readable = record {
  fd = 5;
  events = record {
    epollin = true;
    epollout = false;
    epollerr = false;
    epollhup = false;
    epollrdhup = false;
  };
}

abbrev silent : Trace
silent = record { log = []; script = [] }

pull-Counts : Counts (assoc NetHandler) (5 ∷ []) pull
pull-Counts = record { distinct = (refl, tt); entries = λ j. ground arith; count = refl }

called_once :
    (handle_event
      (assoc NetHandler)
      readable
      (handle_event (assoc NetHandler) readable (silent, pull))).0.log
    ≡ ([] ++ due entry readable) ++ []
unfolding proxy_epoll_err
called_once =
    handle_event-once (assoc NetHandler) readable readable silent pull entry refl refl refl
