-- ===== src/NetHandle/Request.antt =====
-- core/net_handle.c, net_req_handler: its loop. What a handler of requests does to the client's
-- connection is a parameter.
pub mod Answered
mod Tests
use http_proxy.Prelude.{
  Bool, ◌||◌, Option, none, some, List, [], ◌∷◌, ℕ, ℤ, pos, negsuc, is_zero, if◌then◌else◌,
}
use http_proxy.Prelude.Uthash.{Uthash}
use http_proxy.Libc.{c_str, str_eq}
use http_proxy.Run.{Run, Io, done, waits, and_then}
use http_proxy.Conn.{is_closed}
use http_proxy.ConnIo.{State}
use http_proxy.NetData.{NetHeaderEnt, NetData, NetReq, Regmatch, net_data_init}
use http_proxy.NetData.Parse.{Regex, net_parse_req}
use http_proxy.NetHandle.{NetHandlers, net_get_handler, net_fetch_http, net_bad_request}

-- What a round of the loop comes to in front of the call of the handler: it leaves the loop, with a
-- bad request and its result or without one, or it has a handler for a request.
pub data Fetched (Table : Type 0) : Type 0 where
  left : Fetched Table
  bad : ℤ → Fetched Table
  parsed : NetHandlers → NetReq Table → Fetched Table

module _ (T : Uthash str_eq NetHeaderEnt) (malloc : ℕ → List ℕ) (behind : List ℕ)
    (regexec : Regex → List ℕ → Option Regmatch) (slots : List (Option NetHandlers)) where
  abbrev pub bad_request : ℤ → Io State (Fetched T.Table)
  bad_request ret s = and_then {B = Fetched T.Table} (net_bad_request s) (λ _ t. done (bad ret) t)

  -- From net_get_handler on, with the data of the request; `blank` is what mem_alloc_auto leaves.
  unfoldable pub dispatch : NetReq T.Table → NetData T.Table → Io State (Fetched T.Table)
  unfolding net_get_handler net_parse_req net_bad_request
  dispatch blank d s = elim (net_get_handler (c_str d.buf.p) slots) [
    | none ↦ bad_request (negsuc 0) s
    | some h ↦
        let (ok, q) = net_parse_req T malloc behind regexec (record blank { data0 = d }) in
        if ok then done (parsed h q) s else bad_request (negsuc 0) s
  ]

  unfoldable pub read_request : NetReq T.Table → Io State (Fetched T.Table)
  unfolding dispatch net_fetch_http net_bad_request net_data_init
  read_request blank (c, w) =
      if is_closed c.stat || w.exiting
      then done left (c, w)
      else and_then {B = Fetched T.Table}
          (net_fetch_http T malloc behind regexec (net_data_init T malloc behind) (c, w))
          (λ (ret, d) s. if is_zero ret then dispatch blank d s else bad_request ret s)

  -- The rest of a round: the call of the handler, and then the next rounds.
  abbrev pub serve :
      (NetHandlers → NetReq T.Table → Io State ℤ) → Io State ℤ → Fetched T.Table → Io State ℤ
  serve run next left s = done (pos 0) s
  serve run next (bad ret) s = done ret s
  serve run next (parsed h q) s =
      and_then {B = ℤ} (run h q s) (λ ret t. if is_zero ret then next t else done ret t)

  -- The loop, with what is called for each request in turn; it waits where nothing is said of the next.
  unfoldable pub req_loop :
      NetReq T.Table → List (NetHandlers → NetReq T.Table → Io State ℤ) → Io State ℤ
  unfolding read_request
  req_loop blank [] s = waits s
  req_loop blank (run ∷ runs) s =
      and_then {B = ℤ} (read_request blank s) (serve run (req_loop blank runs))
