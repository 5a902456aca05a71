-- ===== src/NetHandle/Session.antt =====
-- core/net_handle.c: what net_req_handler and net_rsp_handler do with the owners of connections and
-- requests: the list of requests that wait for responses, cxt->pool, and the end of a client. A
-- connection and a request are addresses.
pub mod Counts
pub mod Owners
pub mod Turns
pub mod Leaving
pub mod Got
pub mod Handed
pub mod Held
pub mod Twice
pub mod Rounds
pub mod Ending
mod Tests
use http_proxy.Prelude.{
  ℕ, Bool, ◌||◌, true, false, Option, none, some, List, [], ◌∷◌, ◌++◌, ℤ, pos, negsuc, suc_ℤ,
  pred_ℤ, ◌==◌, if◌then◌else◌,
}
use http_proxy.Prelude.Uthash.{Uthash, Entries}
use http_proxy.Conn.{ConnEndpoint, is_closed}
use http_proxy.ConnPool.{ep_eq, Pool, close_conn, decref_conn}
use http_proxy.ConnPool.Node.{upd}
use http_proxy.NetHandle.Connect.{Servers, incref_conn}
use http_proxy.NetHandle.Pipeline.{NetHandleList}

-- ret == 100
abbrev pub is_100 : ℤ → Bool
is_100 (pos n) = n == 100
is_100 (negsuc n) = false

module _ (T : Uthash ep_eq ℕ) where
  -- struct net_handle_cxt: the servers, the list from head to tail, the client, and the owners of
  -- each request.
  pub record Session : Type 0 where
    pub servers : Servers T
    pub head : List NetHandleList
    pub client : ℕ
    pub req_refs : ℕ → ℤ

  abbrev pub with_pool : Pool T.Table → Session → Session
  with_pool p s = record s { servers = record { cxt_pool = s.servers.cxt_pool; pool = p } }

  -- mem_decref (req, net_req_done), but for what net_req_done frees
  unfoldable pub decref_req : ℕ → Session → Session
  decref_req r s = record s { req_refs = upd s.req_refs r (pred_ℤ (s.req_refs r)) }

  -- mem_decref (server, conn_done)
  unfoldable pub release : ℕ → Session → Session
  unfolding decref_conn
  release c s = with_pool (decref_conn T c s.servers.pool) s

  -- A request is put behind the others, with a hold on it and on its server.
  unfoldable pub enqueue : NetHandleList → Session → Session
  enqueue p s = record {
    servers = record {
      cxt_pool = s.servers.cxt_pool;
      pool = incref_conn T p.server s.servers.pool;
    };
    head = s.head ++ p ∷ [];
    client = s.client;
    req_refs = upd s.req_refs p.req (suc_ℤ (s.req_refs p.req));
  }

  -- The end of a round of net_rsp_handler, for the first request of the list.
  unfoldable pub dequeue : NetHandleList → List NetHandleList → Session → Session
  unfolding release decref_req
  dequeue h rest s = record (decref_req h.req (release h.server s)) { head = rest }

  -- An entry of cxt->pool is taken out, and the connection `c` is given up.
  unfoldable pub forget : ConnEndpoint → ℕ → Session → Session
  unfolding decref_conn
  forget ep c s = record s {
    servers = record {
      cxt_pool = T.del s.servers.cxt_pool ep;
      pool = decref_conn T c s.servers.pool;
    };
  }

  -- A round of net_rsp_handler behind the call of rsp_handler, which returned `ret`, for the first
  -- request `h`: none where HASH_DEL is given NULL.
  unfoldable pub rsp_after : NetHandleList → List NetHandleList → ℤ → Session → Option Session
  unfolding forget dequeue
  rsp_after h rest ret s =
      if is_closed (s.servers.pool.stat h.server)
      then elim (T.find s.servers.cxt_pool (s.servers.pool.ep h.server)) [
        | none ↦ none
        | some t ↦ some (dequeue h rest (forget (s.servers.pool.ep h.server) h.server s))
      ]
      else if is_100 ret
      then some s
      else some (dequeue h rest s)

  -- A round of net_rsp_handler: it leaves the loop, it waits for its event, it follows a NULL pointer,
  -- or it goes on. `closed` and `exiting` are what it found of the client and the program in front of the
  -- call of rsp_handler, which has returned `ret` and left this state; an empty list is left as it was.
  pub data RspRound : Type 0 where
    rsp_left rsp_sleeps rsp_crashes : RspRound
    rsp_goes_on : Session → RspRound

  unfoldable pub rsp_round : Bool → Bool → ℤ → Session → RspRound
  unfolding rsp_after
  rsp_round closed exiting ret s = if closed || exiting then rsp_left else elim s.head [
    | [] ↦ rsp_sleeps
    | h ∷ rest ↦ elim (rsp_after h rest ret s) [ none ↦ rsp_crashes | some s' ↦ rsp_goes_on s' ]
  ]

  -- The second half of net_req_handler's end: the list of requests.
  unfoldable pub release_list : List NetHandleList → Session → Session
  unfolding release decref_req
  release_list [] s = record s { head = [] }
  release_list (h ∷ rest) s = release_list rest (decref_req h.req (release h.server s))

  -- The first half: the connections of cxt->pool are closed.
  unfoldable pub close_entries : List (ConnEndpoint × ℕ) → Session → Session
  unfolding close_conn forget
  close_entries [] s = s
  close_entries ((ep, c) ∷ es) s =
      close_entries es (forget ep c (with_pool (close_conn T c s.servers.pool) s))

  -- net_req_handler behind req_done and the wait for net_rsp_handler.
  unfoldable pub req_done : Entries T → Session → Session
  unfolding release_list close_entries release
  req_done I s =
      let s₁ = close_entries (I.entries s.servers.cxt_pool) s in
      release s₁.client (release_list s₁.head s₁)
