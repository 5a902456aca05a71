-- ===== src/Main/Ends.antt =====
-- core/main.c: how a run of the program ends.
use http_proxy.Prelude.{
  ℕ, ◌+◌, ◌<◌, ◌≡◌, refl, sym, ap, subst, ◌∙◌, Bool, true, false, not, Option, none, some, List, [],
  ◌∷◌, ◌++◌, ℤ, negsuc, is_zero, by_test, arith, length, times, times-append, if◌then◌else◌,
}
use mathlib.Core.List.{append_assoc}
use http_proxy.Listen.{server_max_fd, Address, Listening, conn_module_init, done_loop}
use http_proxy.Listen.Closed.{closed, sockets, conn_module_init-closed}
use http_proxy.Main.{
  MainCall, Outcome, returned, running, overrun, exited, Answers, done_calls, set_exiting,
  net_pull_done, net_data_module_done, conn_module_done, event_module_done, proxy_log_done,
  exit_with, net_handle_module_init, net_http_module_init, net_utils_init, conn_module_init_call,
  net_data_module_init, event_module_init, net_pull_init, proxy_log_init, install_signal_handlers,
  proxy_parse_arg, proxy_done, main_loop, work, serve, proxy_main,
}

-- The calls that come before proxy_done.
abbrev pub is_before : MainCall → Bool
is_before set_exiting = false
is_before net_pull_done = false
is_before net_data_module_done = false
is_before conn_module_done = false
is_before event_module_done = false
is_before proxy_log_done = false
is_before (exit_with v) = false
is_before _ = true

abbrev pub AllBefore : List MainCall → Type 0
AllBefore [] = Unit {0}
AllBefore (c ∷ calls) = (is_before c ≡ true) × AllBefore calls

AllBefore-append : (xs ys : List MainCall) → AllBefore xs → AllBefore ys → AllBefore (xs ++ ys)
AllBefore-append [] ys h k = k
AllBefore-append (x ∷ xs) ys h k = (h.0, AllBefore-append xs ys h.1 k)

-- The closes of conn_module_init and those of proxy_done, `fds`, are together one for each time that a
-- socket was opened for these addresses, and one for each descriptor with a handler.
abbrev pub AllClosed : List ℕ → List Address → List ℕ → Type 0
AllClosed registered addrs fds =
    (ok : Bool) × (l : Listening) × (conn_module_init addrs ≡ some (ok, l))
    × ((fd : ℕ)
        → times fd (closed l.calls) + times fd fds ≡ times fd (sockets addrs) + times fd registered)

-- The run goes on, and proxy_done has not been called; or it has exited with a value that is not 0,
-- the calls of proxy_done are its last ones and none of them comes before, and the closes are AllClosed.
abbrev pub Ends : List ℕ → List Address → List MainCall → Outcome → Type 0
Ends registered addrs calls running = AllBefore calls
Ends registered addrs calls (exited v fds) =
    (is_zero v ≡ false)
    × (front : List MainCall) × (calls ≡ front ++ done_calls v)
    × AllBefore front
    × AllClosed registered addrs fds
Ends registered addrs calls returned = true ≡ false
Ends registered addrs calls overrun = true ≡ false

pub Ends-after :
    (registered : List ℕ) (addrs : List Address) (xs calls : List MainCall) (o : Outcome)
    → AllBefore xs
    → Ends registered addrs calls o
    → Ends registered addrs (xs ++ calls) o
Ends-after registered addrs xs calls running h k = AllBefore-append xs calls h k
Ends-after registered addrs xs calls (exited v fds) h (z, front, e, b, c) = (
  z,
  xs ++ front,
  ap (λ (l : List MainCall). xs ++ l) e ∙ sym (append_assoc xs front (done_calls v)),
  AllBefore-append xs front h b,
  c,
)
Ends-after registered addrs xs calls returned h k = k
Ends-after registered addrs xs calls overrun h k = k

abbrev NotZero : Option ℤ → Type 0
NotZero none = Unit {0}
NotZero (some ret) = is_zero ret ≡ false

-- A loop that is left has a result that is not 0.
abbrev Left : List MainCall × Option ℤ → Type 0
Left r = AllBefore r.0 × NotZero r.1

main_loop-Left : (rounds : List (ℤ × ℤ)) → Left (main_loop rounds)
unfolding main_loop
main_loop-Left [] = (tt, tt)
main_loop-Left ((events, pulled) ∷ rounds) =
    let (b, l) = main_loop-Left rounds in
    by_test Left (not (is_zero events)) (λ e. ((refl, tt), ground (arith, e)))
      (λ _.
        by_test Left (not (is_zero pulled)) (λ e. ((refl, (refl, tt)), ground (arith, e)))
          (λ _. ((refl, (refl, b)), l)))

module _ (a : Answers) (ok : Bool) (l : Listening) (fds : List ℕ)
    (found : conn_module_init a.addresses ≡ some (ok, l)) (done : done_loop l.sfds ≡ some fds)
    (counts : (fd : ℕ)
      → times fd (closed l.calls) + times fd fds ≡ times fd (sockets a.addresses)) where
  pub proxy_done-Ends :
      (v : ℤ)
      → is_zero v ≡ false
      → Ends a.registered a.addresses
          (proxy_done a.registered v l.sfds).0
          (proxy_done a.registered v l.sfds).1
  unfolding proxy_done
  proxy_done-Ends v z =
      let end : Option (List ℕ) → List MainCall × Outcome = λ o. elim o [
        | none ↦
            (set_exiting ∷ net_pull_done ∷ net_data_module_done ∷ conn_module_done ∷ [], overrun)
        | some closes ↦ (done_calls v, exited v (a.registered ++ closes))
      ] in
      subst (λ (o : Option (List ℕ)). Ends a.registered a.addresses (end o).0 (end o).1) (sym done)
        (
          z,
          [],
          refl,
          tt,
          (ok, l, found, λ fd. omega (arith, counts fd, times-append fd a.registered fds)),
        )

  -- What follows the loop.
  abbrev behind : Option ℤ → List MainCall × Outcome
  behind none = ([], running)
  behind (some ret) = proxy_done a.registered ret l.sfds

  behind-Ends : (o : Option ℤ) → NotZero o → Ends a.registered a.addresses (behind o).0 (behind o).1
  behind-Ends none h = tt
  behind-Ends (some ret) h = proxy_done-Ends ret h

  work-Ends : Ends a.registered a.addresses (work a l).0 (work a l).1
  unfolding work
  work-Ends =
      let (b, h) = main_loop-Left a.rounds in
      let o = (main_loop a.rounds).1 in
      (Ends-after a.registered a.addresses
        (net_handle_module_init ∷ net_http_module_init ∷ [] ++ (main_loop a.rounds).0) (behind o).0
        (behind o).1 (refl, (refl, b)) (behind-Ends o h))

-- serve, with the sockets that conn_module_init-closed speaks of.
serve-Ends :
    (a : Answers)
    → length a.addresses < server_max_fd
    → Ends a.registered a.addresses (serve a).0 (serve a).1
unfolding serve
serve-Ends a few =
    let (ok, l, fds, found, done, _, counts) = conn_module_init-closed a.addresses few in
    let shut = proxy_done-Ends a ok l fds found done counts (negsuc 0) refl in
    let work_on = work-Ends a ok l fds found done counts in
    let chosen : List MainCall × Outcome =
      if ok then work a l else proxy_done a.registered (negsuc 0) l.sfds in
    let go : Option (Bool × Listening) → List MainCall × Outcome = λ o. elim o [
      | none ↦ ([], overrun)
      | some r ↦ if r.0 then work a r.1 else proxy_done a.registered (negsuc 0) r.1.sfds
    ] in
    Ends-after a.registered a.addresses (net_utils_init ∷ conn_module_init_call ∷ [])
      (go (conn_module_init a.addresses)).0 (go (conn_module_init a.addresses)).1 (refl, (refl, tt))
      (subst (λ (o : Option (Bool × Listening)). Ends a.registered a.addresses (go o).0 (go o).1)
        (sym found)
        (by_test (λ (r : List MainCall × Outcome). Ends a.registered a.addresses r.0 r.1) ok
          (λ _. work_on) (λ _. shut)))

-- Where the arguments and the epoll descriptor are in order and there are fewer addresses than sfds has cells, the
-- program goes on, or it exits with a value that is not 0: the calls of proxy_done come then last and once.
-- The closes of conn_module_init, of net_pull_done and of conn_module_done are together one for each time
-- that a listening socket was opened, and one more for each descriptor that had a handler in
-- core/net_pull.c: a listening socket that is registered is closed twice.
pub proxy_main-Ends :
    (a : Answers)
    → is_zero a.parse ≡ true
    → is_zero a.pull ≡ true
    → length a.addresses < server_max_fd
    → Ends a.registered a.addresses (proxy_main a).0 (proxy_main a).1
unfolding proxy_main
proxy_main-Ends a parsed pulled few =
    let inits : List MainCall = net_data_module_init ∷ event_module_init ∷ net_pull_init ∷ [] in
    let start : List MainCall = proxy_log_init ∷ install_signal_handlers ∷ proxy_parse_arg ∷ [] in
    let (calls, o) = serve a in
    rw parsed (
      rw pulled (
        Ends-after a.registered a.addresses start (inits ++ calls) o (refl, (refl, (refl, tt)))
          (Ends-after a.registered a.addresses inits calls o (refl, (refl, (refl, tt)))
            (serve-Ends a few))))

-- Where net_pull_init fails, the first loop of conn_module_done runs off the end of sfds, which
-- conn_module_init has not set. (core/main.c:67)
pub proxy_main-overrun :
    (a : Answers) → is_zero a.parse ≡ true → is_zero a.pull ≡ false → (proxy_main a).1 ≡ overrun
unfolding proxy_main proxy_done done_loop
proxy_main-overrun a parsed failed = rw (parsed) (rw (failed) refl)
