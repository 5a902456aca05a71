-- ===== src/Main/Tests.antt =====
-- Examples for core/main.c.
use http_proxy.Prelude.{◌≡◌, refl, true, some, [], ◌∷◌, ℤ, pos, negsuc, arith}
use http_proxy.Listen.{Address}
use http_proxy.Main.{
  Answers, overrun, proxy_main, action_of, installed, ignored, sig_handler, default_action,
}
use http_proxy.Main.Ends.{Ends, proxy_main-Ends, proxy_main-overrun}

abbrev address : Address
address = record {
  known_family = true;
  socket = some 4;
  setsockopt = true;
  bind = true;
  nonblocking = true;
  listen = true;
}

-- Two rounds of the main loop; in the second net_pull_work fails.
abbrev answers : ℤ → Answers
answers pull = record {
  parse = pos 0;
  pull = pull;
  addresses = address ∷ [];
  rounds = (pos 0, pos 0) ∷ (pos 0, negsuc 0) ∷ [];
  registered = 4 ∷ 7 ∷ [];
}

shut_down_in_order :
    Ends
      (4 ∷ 7 ∷ [])
      (address ∷ [])
      (proxy_main (answers (pos 0))).0
      (proxy_main (answers (pos 0))).1
shut_down_in_order = proxy_main-Ends (answers (pos 0)) refl refl (omega arith)

no_epoll : (proxy_main (answers (negsuc 0))).1 ≡ overrun
no_epoll = proxy_main-overrun (answers (negsuc 0)) refl refl

-- SIGPIPE is ignored, SIGHUP ends the program, and SIGUSR1 has no handler.
actions :
    (action_of 13 installed ≡ ignored)
    × (action_of 1 installed ≡ sig_handler)
    × (action_of 10 installed ≡ default_action)
unfolding action_of
actions = (refl, refl, refl)
