-- ===== src/Main/Signals.antt =====
-- core/main.c: a signal for which sig_handler is installed.
use http_proxy.Prelude.{
  ℕ, ◌≡◌, ◌<◌, refl, ap, subst, sym, ◌∙◌, Bool, true, false, Option, none, some, List, [], negsuc,
  length, take, if◌then◌else◌,
}
use http_proxy.Listen.{server_max_fd, Listening, conn_module_init}
use http_proxy.Listen.Closed.{conn_module_init-closed}
use http_proxy.Main.{
  overrun, Answers, static_sfds, proxy_done, proxy_main, is_listening, sfds_after, signalled,
}
use http_proxy.Main.Ends.{AllBefore, Ends, Ends-after, proxy_done-Ends}

-- A signal that comes behind conn_module_init and in front of proxy_done ends the program in order:
-- the calls of proxy_done follow, once, and the closes are one for each time that a listening socket
-- was opened and one for each descriptor that had a handler in core/net_pull.c. There must be fewer addresses than sfds has cells.
pub signalled-Ends :
    (k : ℕ) (a : Answers)
    → length a.addresses < server_max_fd
    → AllBefore (take k (proxy_main a).0)
    → is_listening (take k (proxy_main a).0) ≡ true
    → Ends a.registered a.addresses (signalled k a).0 (signalled k a).1
unfolding signalled
signalled-Ends k a few before listening =
    let (ok, l, fds, found, done, _, counts) = conn_module_init-closed a.addresses few in
    let calls = take k (proxy_main a).0 in
    let of : Option (Bool × Listening) → List (Option ℕ) =
      λ o. elim o [ none ↦ [] | some r ↦ r.1.sfds ] in
    let cells : sfds_after calls a ≡ l.sfds =
      ap (λ (b : Bool). if b then of (conn_module_init a.addresses) else static_sfds) listening
      ∙ ap of found in
    let shut = proxy_done-Ends a ok l fds found done counts (negsuc 0) refl in
    let r = proxy_done a.registered (negsuc 0) (sfds_after calls a) in
    Ends-after a.registered a.addresses calls r.0 r.1 before (
      subst
        (λ (s : List (Option ℕ)).
          Ends a.registered a.addresses (proxy_done a.registered (negsuc 0) s).0
            (proxy_done a.registered (negsuc 0) s).1)
        (sym cells) shut)

-- A signal that comes in front of conn_module_init makes conn_module_done run off the end of sfds.
-- (core/main.c:34)
pub signalled-overrun :
    (k : ℕ) (a : Answers)
    → is_listening (take k (proxy_main a).0) ≡ false
    → (signalled k a).1 ≡ overrun
unfolding signalled proxy_done
signalled-overrun k a early =
    ap
      (λ (b : Bool).
        (proxy_done a.registered (negsuc 0) (
          if b
          then elim (conn_module_init a.addresses) as (λ _. List (Option ℕ)) [
            | none ↦ []
            | some r ↦ r.1.sfds
          ]
          else static_sfds)).1)
      early
