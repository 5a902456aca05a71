-- ===== src/Main.antt =====
-- core/main.c: start, main loop and end of the program. What proxy_parse_arg, net_pull_init,
-- event_work and net_pull_work return is an argument; the listening sockets are those of Listen.
-- A signal comes between two calls.
pub mod Ends
pub mod Signals
mod Tests
use http_proxy.Prelude.{
  ℕ, zero, suc, Bool, true, false, not, Option, none, some, List, [], ◌∷◌, ◌++◌, ℤ, pos, negsuc,
  is_zero, if◌then◌else◌, take, ◌==◌,
}
use http_proxy.Listen.{server_max_fd, Address, Listening, conn_module_init, done_loop}

-- The calls of proxy_main and proxy_done.
pub data MainCall : Type 0 where
  proxy_log_init install_signal_handlers proxy_parse_arg : MainCall
  net_data_module_init event_module_init net_pull_init net_utils_init : MainCall
  conn_module_init_call net_handle_module_init net_http_module_init : MainCall
  event_work net_pull_work : MainCall
  set_exiting net_pull_done net_data_module_done conn_module_done event_module_done : MainCall
  proxy_log_done : MainCall
  exit_with : ℤ → MainCall

-- Where the run stands: proxy_main has returned, the main loop goes on, the program has exited with a
-- value after the closes of these descriptors, or a loop of core/conn.c has run off its array.
pub data Outcome : Type 0 where
  returned running overrun : Outcome
  exited : ℤ → List ℕ → Outcome

-- The answers: of proxy_parse_arg, of net_pull_init, the addresses that conn_module_init finds, of
-- event_work and net_pull_work in each round so far, and the descriptors that have a handler in
-- core/net_pull.c when proxy_done is called.
pub record Answers : Type 0 where
  pub parse : ℤ
  pub pull : ℤ
  pub addresses : List Address
  pub rounds : List (ℤ × ℤ)
  pub registered : List ℕ

abbrev pub zeros : ℕ → List (Option ℕ)
zeros zero = []
zeros (suc n) = some 0 ∷ zeros n

-- sfds, a static array, until conn_module_init sets it.
abbrev pub static_sfds : List (Option ℕ)
static_sfds = zeros server_max_fd

abbrev pub done_calls : ℤ → List MainCall
done_calls exit_val =
    set_exiting
    ∷ net_pull_done
    ∷ net_data_module_done
    ∷ conn_module_done
    ∷ event_module_done
    ∷ proxy_log_done
    ∷ exit_with exit_val
    ∷ []

-- proxy_done, for these descriptors with a handler and these sockets: net_pull_done closes the former,
-- conn_module_done the latter.
unfoldable pub proxy_done : List ℕ → ℤ → List (Option ℕ) → List MainCall × Outcome
unfolding done_loop
proxy_done registered exit_val sfds = elim (done_loop sfds) [
  | none ↦ (set_exiting ∷ net_pull_done ∷ net_data_module_done ∷ conn_module_done ∷ [], overrun)
  | some fds ↦ (done_calls exit_val, exited exit_val (registered ++ fds))
]

-- The main loop: its calls, and `ret` once it is left.
unfoldable pub main_loop : List (ℤ × ℤ) → List MainCall × Option ℤ
main_loop [] = ([], none)
main_loop ((events, pulled) ∷ rounds) =
    let rest = main_loop rounds in
    if not (is_zero events)
    then (event_work ∷ [], some events)
    else if not (is_zero pulled)
    then (event_work ∷ net_pull_work ∷ [], some pulled)
    else (event_work ∷ net_pull_work ∷ rest.0, rest.1)

-- Calls in front of those of a run.
abbrev pub after : List MainCall → List MainCall × Outcome → List MainCall × Outcome
after calls r = (calls ++ r.0, r.1)

-- proxy_main from net_handle_module_init on.
unfoldable pub work : Answers → Listening → List MainCall × Outcome
unfolding main_loop proxy_done
work a l =
    after (net_handle_module_init ∷ net_http_module_init ∷ [] ++ (main_loop a.rounds).0)
      (elim (main_loop a.rounds).1 [
        | none ↦ ([], running)
        | some ret ↦ proxy_done a.registered ret l.sfds
      ])

-- proxy_main from conn_module_init on.
unfoldable pub serve : Answers → List MainCall × Outcome
unfolding conn_module_init work proxy_done
serve a = after (net_utils_init ∷ conn_module_init_call ∷ []) (elim (conn_module_init a.addresses) [
  | none ↦ ([], overrun)
  | some (ok, l) ↦ if ok then work a l else proxy_done a.registered (negsuc 0) l.sfds
])

unfoldable pub proxy_main : Answers → List MainCall × Outcome
unfolding serve proxy_done
proxy_main a = after (proxy_log_init ∷ install_signal_handlers ∷ proxy_parse_arg ∷ []) (
    if not (is_zero a.parse)
    then ([], returned)
    else after (net_data_module_init ∷ event_module_init ∷ net_pull_init ∷ [])
        (if not (is_zero a.pull) then proxy_done a.registered a.pull static_sfds else serve a))

-- What is installed for a signal.
pub data Action : Type 0 where
  default_action ignored sig_handler : Action

-- install_signal_handlers, in its order: SIGTERM, SIGINT, SIGPIPE, SIGTERM, SIGSEGV, SIGHUP.
abbrev pub installed : List (ℕ × Action)
installed =
    (15, sig_handler)
    ∷ (2, sig_handler)
    ∷ (13, ignored)
    ∷ (15, sig_handler)
    ∷ (11, sig_handler)
    ∷ (1, sig_handler)
    ∷ []

-- The action of a signal after these calls of signal: the last one counts.
unfoldable pub action_of : ℕ → List (ℕ × Action) → Action
action_of sig [] = default_action
action_of sig ((s, act) ∷ calls) = elim (action_of sig calls) [
  | default_action ↦ if s == sig then act else default_action
  | ignored ↦ ignored
  | sig_handler ↦ sig_handler
]

-- conn_module_init is among the calls.
abbrev pub is_listening : List MainCall → Bool
is_listening [] = false
is_listening (conn_module_init_call ∷ calls) = true
is_listening (c ∷ calls) = is_listening calls

-- sfds after these calls.
abbrev pub sfds_after : List MainCall → Answers → List (Option ℕ)
sfds_after calls a =
    if is_listening calls
    then elim (conn_module_init a.addresses) [ none ↦ [] | some r ↦ r.1.sfds ]
    else static_sfds

-- sig_handler, for a signal that comes after `k` calls of the run.
unfoldable pub signalled : ℕ → Answers → List MainCall × Outcome
unfolding proxy_main proxy_done
signalled k a =
    let calls = take k (proxy_main a).0 in
    after calls (proxy_done a.registered (negsuc 0) (sfds_after calls a))
