-- ===== src/Conn.antt =====
-- core/conn.h and the part of core/conn.c that every user of a connection calls: the connection
-- record, its status and conn_close.
pub mod Tostring
use http_proxy.Prelude.{ℕ, Bool, true, false, Option, List, [], ◌∷◌, ◌++◌, ℤ}

pub data ConnStat : Type 0 where
  conn_used conn_free_stat conn_closed : ConnStat

pub record ConnEndpoint : Type 0 where
  pub family : ℕ
  pub port : ℕ
  pub addr : List ℕ

-- What the environment changes while a coroutine waits on a connection: a signal makes the program
-- exit; conn_err_handler or the other coroutine of the client closes the connection.
pub record Wake : Type 0 where
  pub exits : Bool
  pub closes : Bool

-- An answer of recv: bytes that have arrived (none: the peer has closed), EAGAIN and what changes
-- until the descriptor is ready, another error.
pub data Recv : Type 0 where
  got : List ℕ → Recv
  again : Wake → Recv
  failed : Recv

-- An answer of send: how many bytes the kernel takes at most, EAGAIN, another error.
pub data Send : Type 0 where
  took : ℕ → Send
  again : Wake → Send
  failed : Send

-- struct conn, and behind `fd` the kernel's side: the answers to come and the bytes sent so far.
pub record Conn : Type 0 where
  pub fd : ℕ
  pub buf : List ℕ
  pub buf_cap : ℕ
  pub buf_s : ℕ
  pub buf_e : ℕ
  pub rx : ℤ
  pub tx : ℤ
  pub stat : ConnStat
  pub ep : ConnEndpoint
  pub apool : Option ℕ
  pub recvs : List Recv
  pub sends : List Send
  pub sent : List ℕ

abbrev pub is_closed : ConnStat → Bool
is_closed conn_closed = true
is_closed conn_used = false
is_closed conn_free_stat = false

-- A call that leaves the modelled component.
pub data Call : Type 0 where
  net_pull_del : ℕ → Call
  close_fd : ℕ → Call

-- The globals: main_stat == EXITING, and the calls made so far.
pub record World : Type 0 where
  pub exiting : Bool
  pub calls : List Call

unfoldable pub conn_close : Conn → World → Conn × World
conn_close c w = elim (is_closed c.stat) [
  | true ↦ (c, w)
  | false ↦ (
    record c { stat = conn_closed },
    record w { calls = w.calls ++ (net_pull_del c.fd ∷ close_fd c.fd ∷ []) },
  )
]
