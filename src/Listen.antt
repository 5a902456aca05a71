-- ===== src/Listen.antt =====
-- core/conn.c: the listening sockets, from conn_module_init to conn_module_done. The addresses come
-- with the answers that the system calls give for each.
pub mod Closed
mod Tests
use http_proxy.Prelude.{
  ℕ, zero, suc, ◌+◌, Bool, true, false, not, ◌||◌, Option, none, some, List, [], ◌∷◌, ◌++◌, ◌==◌,
  ltb, if◌then◌else◌, length, set,
}

abbrev pub server_max_fd : ℕ
server_max_fd = 32

-- An address of arg.addr: its family (true for AF_INET and AF_INET6), what socket answers, and which
-- of the calls on the socket succeed.
pub record Address : Type 0 where
  pub known_family : Bool
  pub socket : Option ℕ
  pub setsockopt : Bool
  pub bind : Bool
  pub nonblocking : Bool
  pub listen : Bool

-- The calls made: net_pull_add, net_pull_set_handler with the cell of sfds as its data, and close.
pub data ListenCall : Type 0 where
  pull_add : ℕ → ListenCall
  pull_set : ℕ → ℕ → ListenCall
  close_fd : ℕ → ListenCall

-- sfds and sfd_cnt, where -1 is none.
pub record Listening : Type 0 where
  pub sfds : List (Option ℕ)
  pub sfd_cnt : ℕ
  pub calls : List ListenCall

abbrev pub unused : ℕ → List (Option ℕ)
unused zero = []
unused (suc n) = none ∷ unused n

-- What the memset of conn_module_init leaves.
abbrev pub listen_init : Listening
listen_init = record { sfds = unused server_max_fd; sfd_cnt = 0; calls = [] }

-- All calls on the socket have succeeded.
abbrev pub is_bound : Address → Bool
is_bound a =
    if not a.setsockopt
    then false
    else if not a.known_family
    then false
    else if not a.bind
    then false
    else if not a.nonblocking
    then false
    else a.listen

-- One round of conn_module_init: none where it writes behind the end of sfds.
unfoldable pub listen_on : Address → Listening → Option Listening
listen_on a l = elim a.socket [
  | none ↦ some l
  | some fd ↦
      if is_bound a
      then (if ltb l.sfd_cnt (length l.sfds)
          then some (record {
            sfds = set l.sfds l.sfd_cnt (some fd);
            sfd_cnt = l.sfd_cnt + 1;
            calls = l.calls ++ pull_add fd ∷ pull_set fd l.sfd_cnt ∷ [];
          })
          else none)
      else some (record l { calls = l.calls ++ close_fd fd ∷ [] })
]

unfoldable pub listen_loop : List Address → Listening → Option Listening
unfolding listen_on
listen_loop [] l = some l
listen_loop (a ∷ addrs) l = elim (listen_on a l) [ none ↦ none | some l' ↦ listen_loop addrs l' ]

-- conn_module_init, where net_dns_lookup has found `addrs`: true for 0.
unfoldable pub conn_module_init : List Address → Option (Bool × Listening)
unfolding listen_loop
conn_module_init addrs = elim (listen_loop addrs listen_init) [
  | none ↦ none
  | some l ↦ some (not (l.sfd_cnt == 0), l)
]

-- The first loop of conn_module_done: the descriptors that it closes, none where it runs off the end of
-- sfds.
unfoldable pub done_loop : List (Option ℕ) → Option (List ℕ)
done_loop [] = none
done_loop (none ∷ cells) = some []
done_loop (some fd ∷ cells) = elim (done_loop cells) [ none ↦ none | some fds ↦ some (fd ∷ fds) ]
