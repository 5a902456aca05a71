-- ===== src/ConnPool/Tests.antt =====
-- Examples for the pool of core/conn.c, and for net_connect_to_server of core/net_handle.c over it.
use http_proxy.Prelude.{
  ℕ, ◌+◌, ◌-◌, ◌≡◌, refl, inl, true, false, Option, none, some, List, [], ◌∷◌, ◌++◌, pos, arith,
  times,
}
use http_proxy.Prelude.Uthash.{Uthash, Entries, keyed, keyed_entries}
use http_proxy.ConnPool.Done.{conn_module_done}
use http_proxy.ConnPool.Done.Released.{total, conn_module_done-AllReleased}
use http_proxy.NetHandle.Session.Counts.{incref-IsCount}
use http_proxy.Libc.{str_eq}
use http_proxy.Conn.{ConnEndpoint, conn_used}
use http_proxy.ConnPool.Node.{Links, upd}
use http_proxy.ConnPool.Chain.{Apart, IsChain}
use http_proxy.ConnPool.{
  ep_eq, Pool, in_progress, close_conn, decref_conn, conn_addrpool_add, conn_addrpool_del,
  conn_addrpool_try_get_and_del,
}
use http_proxy.ConnPool.Order.{ep_eq_iff, ComesBack, try_get-add, conn_addrpool_del-IsChain}
use http_proxy.ConnPool.Closing.{pull_and_close, decref-close}
use http_proxy.NetHandle.Connect.{AddrInfo, Answers, Servers, net_connect_to_server}
use http_proxy.NetHandle.Usable.{Usable, net_connect_to_server-Usable}

abbrev table : Uthash ep_eq ℕ
table = keyed ep_eq ep_eq_iff ℕ

abbrev server : ConnEndpoint
server = record { family = 2; port = 80; addr = 10 ∷ 0 ∷ 0 ∷ 1 ∷ [] }

-- Head 100 with the nodes 11, 12 and 13 of the connections 1, 2 and 3.
abbrev null_links : ℕ → Option ℕ
null_links x = none

abbrev links : Links
links = record {
  next = upd (upd (upd null_links 100 (some 11)) 11 (some 12)) 12 (some 13);
  prev = upd (upd (upd null_links 11 (some 100)) 12 (some 11)) 13 (some 12);
}

abbrev pool : Pool (List (ConnEndpoint × ℕ))
pool = record {
  table = (server, 100) ∷ [];
  links = links;
  elem_conn = λ x. x - 10;
  fd = λ c. c + 3;
  ep = λ c. server;
  stat = λ c. conn_used;
  apool = λ c. some (c + 10);
  refs = λ c. pos 1;
  calls = [];
}

links-IsChain : IsChain links 100 (11 ∷ 12 ∷ 13 ∷ [])
links-IsChain = record {
  chain = (refl, refl, (refl, refl, (refl, refl, refl)));
  distinct = ground arith;
}

newest_first :
    ComesBack table 4 100
      (11 ∷ 12 ∷ 13 ∷ [])
      (conn_addrpool_try_get_and_del table server (conn_addrpool_add table 4 14 200 pool))
unfolding ep_eq str_eq
newest_first =
    try_get-add table pool 4 14 200 100 (11 ∷ 12 ∷ 13 ∷ []) (inl (refl, links-IsChain))
      (ground arith)

middle_out :
    (p' : Pool (List (ConnEndpoint × ℕ))) × (conn_addrpool_del table 2 pool ≡ some p')
    × IsChain p'.links 100 (11 ∷ 13 ∷ [])
    × ((g : ℕ) (j : List ℕ)
        → Apart (100 ∷ 11 ∷ 12 ∷ 13 ∷ []) (g ∷ j)
        → IsChain pool.links g j
        → IsChain p'.links g j)
middle_out = conn_addrpool_del-IsChain table pool 2 12 100 (11 ∷ []) (13 ∷ []) refl links-IsChain

closed_twice :
    ((decref_conn table 1 (close_conn table 1 pool)).calls
      ≡ pool.calls ++ (pull_and_close (pool.fd 1) ++ pull_and_close (pool.fd 1)))
    × ((decref_conn table 1 pool).calls ≡ pool.calls ++ pull_and_close (pool.fd 1))
closed_twice = decref-close table pool 1 refl refl

abbrev in_turn : Answers
in_turn = record {
  exiting = false;
  conn = 9;
  socket = some 12;
  nonblocking = true;
  connect = in_progress;
  failed = false;
}

-- An address of an unknown family, and that of the pool's connections.
abbrev addresses : List (AddrInfo × Answers)
addresses =
    (record { ai_family = 1; ai_addr = [] }, in_turn)
    ∷ (record { ai_family = 2; ai_addr = 10 ∷ 0 ∷ 0 ∷ 1 ∷ [] }, in_turn)
    ∷ []

abbrev no_servers : Servers table
no_servers = record { cxt_pool = []; pool = pool }

server_is_open : Usable table 80 (net_connect_to_server table (some addresses) 80 no_servers)
server_is_open = net_connect_to_server-Usable table (some addresses) 80 no_servers

-- Head 100 with the node 11 of connection 1.
abbrev small_pool : Pool (List (ConnEndpoint × ℕ))
small_pool = record pool {
  links = record { next = upd null_links 100 (some 11); prev = upd null_links 11 (some 100) };
  refs = upd (λ c. pos 0) 1 (pos 1);
}

abbrev entries : Entries table
entries = keyed_entries ep_eq ep_eq_iff

pool_given_up :
    (t : Pool (List (ConnEndpoint × ℕ))) × (conn_module_done table entries 5 small_pool ≡ some t)
    × ((x : ℕ) → t.refs x ≡ pos 0)
unfolding times
pool_given_up =
    conn_module_done-AllReleased table entries 5 ((11 ∷ []) ∷ []) small_pool (λ c. pos 0)
      (omega arith, (refl, refl, refl), tt)
      (incref-IsCount (λ c. pos 0) (λ c. pos 0) (λ x. 0)
        (total table small_pool.elem_conn ((11 ∷ []) ∷ [])) 1 (λ x. omega arith) (λ x. refl))
