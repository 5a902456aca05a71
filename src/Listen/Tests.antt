-- ===== src/Listen/Tests.antt =====
-- Examples for the listening sockets of core/conn.c.
use http_proxy.Prelude.{ℕ, ◌≡◌, refl, Bool, true, false, Option, none, some, List, [], ◌∷◌}
use http_proxy.Listen.{Address, conn_module_init, listen_loop, listen_on, done_loop}

abbrev address : Option ℕ → Bool → Address
address socket bind = record {
  known_family = true;
  socket = socket;
  setsockopt = true;
  bind = bind;
  nonblocking = true;
  listen = true;
}

-- A socket that listens, one that cannot be bound, and an address without a socket.
abbrev addresses : List Address
addresses = address (some 4) true ∷ address (some 5) false ∷ address none true ∷ []

-- The two calls together: the second socket is closed at once, the first one at the end.
first_at_end :
    (elim (conn_module_init addresses) as (λ _. Option (List ℕ)) [
      | none ↦ none
      | some r ↦ done_loop r.1.sfds
    ])
    ≡ some (4 ∷ [])
unfolding conn_module_init listen_loop listen_on done_loop
first_at_end = refl
