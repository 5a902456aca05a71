-- ===== src/ConnPool.antt =====
-- core/conn.c: the pool of free connections, and the connections that are taken from it or newly made.
-- A struct conn, a struct conn_pool and a struct conn_pool_ent are addresses; what malloc returns is
-- an argument. The answers of socket, fcntl, connect and async_yield are arguments too.
pub mod Node
pub mod Chain
pub mod Others
pub mod Order
pub mod Closing
pub mod Done
mod Tests
use http_proxy.Prelude.{
  ℕ, Bool, true, false, ◌||◌, ◌&&◌, not, Option, none, some, List, [], ◌∷◌, ◌++◌, ℤ, pos, suc_ℤ,
  pred_ℤ, is_zero, ◌==◌, if◌then◌else◌,
}
use http_proxy.Prelude.Uthash.{Uthash}
use http_proxy.Libc.{str_eq}
use http_proxy.Conn.{ConnStat, conn_used, conn_free_stat, conn_closed, ConnEndpoint, is_closed}
use http_proxy.NetPull.{EpollEvent, proxy_epoll_err}
use http_proxy.ConnPool.Node.{Links, upd, push_front, put_alone, unlink}

-- The key of free_pool: memcmp on two endpoints.
unfoldable pub ep_eq : ConnEndpoint → ConnEndpoint → Bool
ep_eq a b = (a.family == b.family) && ((a.port == b.port) && str_eq a.addr b.addr)

-- The handlers that the component registers, and the calls that leave it.
pub data PoolHandler : Type 0 where
  no_handler closed_handler err_handler : PoolHandler

pub data PoolCall : Type 0 where
  pull_add : ℕ → PoolHandler → PoolCall
  pull_set : ℕ → Bool → Bool → PoolHandler → PoolCall
  pull_del : ℕ → PoolCall
  close_fd : ℕ → PoolCall

-- free_pool and what the pointers lead to: the nodes with their connections, and of each connection
-- its descriptor, its endpoint, its state, its node and its count of owners.
pub record Pool (Table : Type 0) : Type 0 where
  pub table : Table
  pub links : Links
  pub elem_conn : ℕ → ℕ
  pub fd : ℕ → ℕ
  pub ep : ℕ → ConnEndpoint
  pub stat : ℕ → ConnStat
  pub apool : ℕ → Option ℕ
  pub refs : ℕ → ℤ
  pub calls : List PoolCall

-- What connect answers.
pub data Connect : Type 0 where
  connected in_progress refused : Connect

module _ (T : Uthash ep_eq ℕ) where
  abbrev pub call : PoolCall → Pool T.Table → Pool T.Table
  call a p = record p { calls = p.calls ++ a ∷ [] }

  -- conn_close, on the pool's connections.
  unfoldable pub close_conn : ℕ → Pool T.Table → Pool T.Table
  close_conn conn p = if is_closed (p.stat conn) then p else record p {
    calls = p.calls ++ pull_del (p.fd conn) ∷ close_fd (p.fd conn) ∷ [];
    stat = upd p.stat conn conn_closed;
  }

  unfoldable pub conn_done : ℕ → Pool T.Table → Pool T.Table
  unfolding close_conn
  conn_done conn p =
      if is_closed (p.stat conn)
      then record p { calls = p.calls ++ pull_del (p.fd conn) ∷ close_fd (p.fd conn) ∷ [] }
      else close_conn conn p

  -- mem_decref (conn, conn_done)
  unfoldable pub decref_conn : ℕ → Pool T.Table → Pool T.Table
  unfolding conn_done
  decref_conn conn p =
      let p₁ : Pool T.Table = record p { refs = upd p.refs conn (pred_ℤ (p.refs conn)) } in
      if is_zero (pred_ℤ (p.refs conn)) then conn_done conn p₁ else p₁

  unfoldable pub conn_err_handler : ℕ → Pool T.Table → Pool T.Table
  conn_err_handler conn p = record p { stat = upd p.stat conn conn_closed }

  -- `elem` and `head` are the addresses of the node and, where there is no pool for the endpoint yet,
  -- of the new pool.
  unfoldable pub conn_addrpool_add : ℕ → ℕ → ℕ → Pool T.Table → Pool T.Table
  conn_addrpool_add conn elem head p =
      let p₁ : Pool T.Table = record p {
        refs = upd p.refs conn (suc_ℤ (p.refs conn));
        stat = upd p.stat conn conn_free_stat;
        elem_conn = upd p.elem_conn elem conn;
        apool = upd p.apool conn (some elem);
      } in
      elim (T.find p.table (p.ep conn)) [
        | none ↦ record p₁ {
          links = put_alone head elem p.links;
          table = T.add p.table (p.ep conn) head;
        }
        | some h ↦ record p₁ { links = push_front h elem p.links }
      ]

  -- conn_addrpool_del: none where it follows a NULL `prev`.
  unfoldable pub conn_addrpool_del : ℕ → Pool T.Table → Option (Pool T.Table)
  unfolding decref_conn
  conn_addrpool_del conn p = elim (p.apool conn) [
    | none ↦ some p
    | some elem ↦ elim (p.links.prev elem) [
      | none ↦ none
      | some q ↦ some (decref_conn conn (record p { links = unlink q elem p.links }))
    ]
  ]

  unfoldable pub conn_addrpool_try_get_and_del :
      ConnEndpoint → Pool T.Table → Option ℕ × Pool T.Table
  conn_addrpool_try_get_and_del ep p = elim (T.find p.table ep) [
    | none ↦ (none, p)
    | some h ↦ elim (p.links.next h) [
      | none ↦ (none, p)
      | some elem ↦ (
        some (p.elem_conn elem),
        record p { links = unlink h elem p.links; apool = upd p.apool (p.elem_conn elem) none },
      )
    ]
  ]

  -- conn_get_by_endpoint. `conn` is the address of a new connection; the answers are those of
  -- socket, net_setnonblocking, connect, and async_yield (true for -1).
  unfoldable pub conn_get_by_endpoint :
      ConnEndpoint → ℕ → Option ℕ → Bool → Connect → Bool → Pool T.Table → Option ℕ × Pool T.Table
  unfolding conn_addrpool_try_get_and_del
  conn_get_by_endpoint ep conn socket nonblocking connect failed p =
      let (old, p₁) = conn_addrpool_try_get_and_del ep p in
      elim old [
        | some c ↦ (
          some c,
          call (pull_set (p₁.fd c) true true no_handler)
              (record p₁ { stat = upd p₁.stat c conn_used }),
        )
        | none ↦ elim socket [
          | none ↦ (none, p₁)
          | some fd ↦
              let added : Pool T.Table = record p₁ {
                stat = upd p₁.stat conn conn_closed;
                refs = upd p₁.refs conn (pos 1);
                calls = p₁.calls ++ pull_add fd err_handler ∷ [];
              } in
              let ready : Pool T.Table = record added {
                fd = upd added.fd conn fd;
                stat = upd added.stat conn conn_free_stat;
                ep = upd added.ep conn ep;
                apool = upd added.apool conn none;
              } in
              let refused_conn : Option ℕ × Pool T.Table = (none, call (close_fd fd) p₁) in
              if not nonblocking then refused_conn else elim connect [
                | refused ↦ refused_conn
                | connected ↦ (some conn, ready)
                | in_progress ↦
                    if failed
                    then (
                      none,
                      call (pull_del fd) (record added { refs = upd added.refs conn (pos 0) }),
                    )
                    else (some conn, ready)
              ]
        ]
      ]

  unfoldable pub conn_notice_free_connection_closed :
      EpollEvent → ℕ → Pool T.Table → Option (Pool T.Table)
  unfolding close_conn conn_addrpool_del
  conn_notice_free_connection_closed ev conn p =
      if proxy_epoll_err ev.events
      then conn_addrpool_del conn (close_conn conn p)
      else some (call (pull_set (p.fd conn) true false closed_handler) p)

  -- conn_free: `exiting` is main_stat == EXITING.
  unfoldable pub conn_free : Bool → ℕ → ℕ → ℕ → Pool T.Table → Pool T.Table
  unfolding conn_addrpool_add
  conn_free exiting conn elem head p =
      let p₁ =
        conn_addrpool_add conn elem head (record p { stat = upd p.stat conn conn_free_stat }) in
      if is_closed (p.stat conn) || exiting
      then p
      else call (pull_set (p₁.fd conn) true false closed_handler) p₁
