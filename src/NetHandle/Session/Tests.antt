-- ===== src/NetHandle/Session/Tests.antt =====
-- Examples for the two coroutines of a client in core/net_handle.c.
use http_proxy.Prelude.{
  ℕ, ◌+◌, ◌≡◌, ◌≢◌, refl, true, false, none, some, List, [], ◌∷◌, ℤ, pos, negsuc, arith, times,
}
use http_proxy.Prelude.Uthash.{Uthash, Entries, keyed, keyed_entries}
use http_proxy.Libc.{str_eq}
use http_proxy.Conn.{ConnEndpoint, ConnStat, conn_used, conn_closed}
use http_proxy.ConnPool.{ep_eq, Pool}
use http_proxy.ConnPool.Node.{upd}
use http_proxy.ConnPool.Order.{ep_eq_iff}
use http_proxy.NetHandle.Pipeline.{NetHandleList}
use http_proxy.NetHandle.Session.{Session, enqueue, rsp_after, req_done}
use http_proxy.NetHandle.Session.Owners.{Elsewhere, conn_owners, Owned}
use http_proxy.NetHandle.Session.Counts.{incref-IsCount}
use http_proxy.NetHandle.Session.Turns.{turn, queued, stop}
use http_proxy.ConnPool.{connected}
use http_proxy.NetHandle.Connect.{AddrInfo, Answers, net_connect_to_server}
use http_proxy.NetHandle.Session.Held.{Held, owners, handed_of, net_connect_to_server-Held}
use http_proxy.NetHandle.Session.Leaving.{AllReturned, req_done-AllReturned}
use http_proxy.NetHandle.Session.Twice.{rsp_after-twice}
use http_proxy.NetHandle.Session.Ending.{
  busy, ended, Ending, end_stop, end_step, req_ends, rsp_ends, req_ends_step, rsp_ends-hangs,
}

abbrev table : Uthash ep_eq ℕ
table = keyed ep_eq ep_eq_iff ℕ

abbrev entries : Entries table
entries = keyed_entries ep_eq ep_eq_iff

abbrev web : ConnEndpoint
web = record { family = 2; port = 80; addr = 10 ∷ 0 ∷ 0 ∷ 1 ∷ [] }

-- The client is connection 1, the server connection 2, which the pool of the client holds.
abbrev connections : ConnStat → Pool (List (ConnEndpoint × ℕ))
connections stat = record {
  table = [];
  links = record { next = λ x. none; prev = λ x. none };
  elem_conn = λ x. 0;
  fd = λ c. c + 3;
  ep = λ c. web;
  stat = upd (λ c. conn_used) 2 stat;
  apool = λ c. none;
  refs = upd (upd (λ c. pos 0) 1 (pos 2)) 2 (pos 1);
  calls = [];
}

abbrev one : NetHandleList
one = record { server = 2; req = 7 }

abbrev two : NetHandleList
two = record { server = 2; req = 8 }

abbrev session_with : ConnStat → List NetHandleList → Session table
session_with stat l = record {
  servers = record { cxt_pool = (web, 2) ∷ []; pool = connections stat };
  head = l;
  client = 1;
  req_refs = upd (upd (λ r. pos 0) 7 (pos 1)) 8 (pos 1);
}

abbrev outside : Elsewhere
outside = record {
  conns = upd (λ c. pos 0) 1 (pos 2);
  reqs = upd (upd (λ r. pos 0) 7 (pos 1)) 8 (pos 1);
}

abbrev before : Session table
before = session_with conn_used []

before-Owned : Owned table entries outside before
unfolding times
before-Owned =
    let refs = upd {A = ℤ} (λ c. pos 0) 1 (pos 2) in
    (
      incref-IsCount refs refs (λ x. 0) (conn_owners table entries before) 2 (λ x. omega arith)
          (λ x. refl),
      λ x. refl,
    )

-- The address of the server, which the pool of the client has, and what is not asked for it.
abbrev addresses : List (AddrInfo × Answers)
addresses =
    (
      record { ai_family = 2; ai_addr = 10 ∷ 0 ∷ 0 ∷ 1 ∷ [] },
      record {
        exiting = false;
        conn = 9;
        socket = some 12;
        nonblocking = true;
        connect = connected;
        failed = false;
      },
    )
    ∷ []

server_is_counted :
    Held table entries outside.conns
      (owners table entries before.servers)
      (handed_of table entries (some addresses) 80 before.servers)
      (net_connect_to_server table (some addresses) 80 before.servers)
unfolding times
server_is_counted =
    let refs = upd {A = ℤ} (λ c. pos 0) 1 (pos 2) in
    net_connect_to_server-Held table entries (some addresses) 80 before.servers outside.conns
      ((refl, refl), tt)
      (incref-IsCount refs refs (λ x. 0) (owners table entries before.servers) 2 (λ x. omega arith)
        (λ x. refl))

abbrev in_list : Session table
in_list = enqueue table one before

all_given_back : AllReturned table outside 1 (req_done table entries in_list)
unfolding enqueue
all_given_back =
    req_done-AllReturned table entries {s' = in_list}
      (turn (queued one outside before) (stop outside in_list)) before-Owned

closed_after_first :
    (s' : Session table) × (rsp_after table one
        (two ∷ [])
        (pos 200)
        (session_with conn_closed (one ∷ two ∷ []))
      ≡ some s')
    × (s'.head ≡ two ∷ [])
    × (rsp_after table two [] (negsuc 0) s' ≡ none)
unfolding ep_eq str_eq
closed_after_first =
    rsp_after-twice table one two [] (pos 200) (negsuc 0)
      (session_with conn_closed (one ∷ two ∷ [])) 2 refl refl refl

abbrev two_waiting : Session table
two_waiting = session_with conn_used (one ∷ two ∷ [])

abbrev at_work : Ending
at_work = record {
  req = busy;
  rsp = busy;
  req_blocked = false;
  rsp_blocked = false;
  req_will_exit = false;
  rsp_will_exited = false;
  req_notices = 0;
  rsp_notices = 0;
}

-- The response coroutine returns, then the request coroutine comes to its end.
abbrev both_left : Ending
both_left = req_ends (rsp_ends at_work)

never_told : both_left.req ≢ ended
unfolding req_ends rsp_ends
never_told =
    rsp_ends-hangs at_work both_left refl refl refl refl refl
      (end_step (req_ends_step (rsp_ends at_work) refl) (end_stop both_left))
