-- ===== src/NetHttp/Responses.antt =====
-- core/net_http.c: net_http_rsp_handler ends.
use http_proxy.Prelude.{
  ℕ, ◌≡◌, refl, ap, sym, subst, ◌∙◌, if◌then◌else◌, Bool, true, not, Option, none, some, List, [],
  ℤ, pos, negsuc, is_zero, length,
}
use http_proxy.Prelude.Uthash.{Uthash}
use http_proxy.Libc.{str_eq}
use http_proxy.Run.{done, and_then, Keeps, ends, Keeps-if, Keeps-bind, Keeps-mono}
use http_proxy.Strbuf.Laws.{strbuf_init-IsValid}
use http_proxy.Conn.{Conn, is_closed, conn_close}
use http_proxy.ConnIo.{State, Pair, on_out}
use http_proxy.ConnIo.Buffer.{IsBuffered, close-is_closed}
use http_proxy.ConnIo.Moving.{lift_inp, lift_out}
use http_proxy.NetData.{NetHeaderEnt, NetReq, NetRsp, Regmatch, net_data_init}
use http_proxy.NetData.Parse.{Regex, net_parse_rsp}
use http_proxy.NetData.Forward.{net_forward_rsp_header}
use http_proxy.NetData.Serialize.{net_forward_rsp_header_lem}
use http_proxy.NetHandle.{bad_gateway_msg, net_fetch_http, net_bad_gateway}
use http_proxy.NetHandle.Fetch.{net_fetch_http-IsHead}
use http_proxy.ConnIo.Writing.{conn_write_lem}
use http_proxy.NetHttp.Body.{net_transfer_body-Left}
use http_proxy.NetHttp.Handlers.{
  HttpLog, is_above_1_0, no_response, logged, logged_if, rsp_body, net_http_rsp_handler,
}
use http_proxy.NetHttp.Relay.{relay-Sent}

pub gateway_ends : (s : State) → Keeps (λ _ t. Unit {0}) (λ _. Unit {0}) (net_bad_gateway s)
unfolding net_bad_gateway
gateway_ends (c, w) =
    Keeps-if (is_closed c.stat) (λ _. ends tt)
      (λ _.
        Keeps-bind (Keeps-mono (conn_write_lem bad_gateway_msg c w) (λ ok s h. h) (λ s h. tt))
          (λ ok s h. ends tt))

-- Nothing is logged only where the server is closed, or the behaviour is undefined.
abbrev pub Answered : Option (ℤ × Option HttpLog) → Pair → Type 0
Answered none q = Unit {0}
Answered (some r) q = r.1 ≡ none → is_closed q.inp.stat ≡ true

module _ (T : Uthash str_eq NetHeaderEnt) (malloc : ℕ → List ℕ)
    (fresh : (n : ℕ) → length (malloc n) ≡ n) (behind : List ℕ)
    (regexec : Regex → List ℕ → Option Regmatch) (entries : T.Table → List NetHeaderEnt) where
  no_response-Answered :
      (ret : ℤ) (p : Pair)
      → Keeps Answered (λ _. Unit {0}) (no_response T malloc behind regexec entries ret p)
  no_response-Answered ret p =
      Keeps-bind
        (Keeps-mono
          (lift_out (net_bad_gateway (p.out, (conn_close p.inp p.world).1))
            (record p { inp = (conn_close p.inp p.world).0; world = (conn_close p.inp p.world).1 })
            (gateway_ends (p.out, (conn_close p.inp p.world).1)))
          (λ _ q h. h.1) (λ q h. tt))
        (λ _ q same.
          ends (λ _. ap (λ (c : Conn). is_closed c.stat) same ∙ close-is_closed p.inp p.world))

  logged-Answered :
      (req : NetReq T.Table) (rsp : NetRsp T.Table) (ret : ℤ) (p : Pair)
      → Keeps Answered (λ _. Unit {0}) (logged T malloc behind regexec entries req rsp ret p)
  logged-Answered req rsp ret p = ends (λ e. absurd (cc))

  logged_if-Answered :
      (req : NetReq T.Table) (rsp : NetRsp T.Table) (ret : Option ℤ) (p : Pair)
      → Keeps Answered (λ _. Unit {0}) (logged_if T malloc behind regexec entries req rsp ret p)
  logged_if-Answered req rsp none p = ends tt
  logged_if-Answered req rsp (some ret) p = logged-Answered req rsp ret p

  rsp_body-Answered :
      (req : NetReq T.Table) (rsp : NetRsp T.Table) (p : Pair)
      → IsBuffered p.inp
      → Keeps Answered (λ _. Unit {0}) (rsp_body T malloc behind regexec entries req rsp p)
  unfolding rsp_body
  rsp_body-Answered req rsp p v =
      Keeps-if (is_above_1_0 rsp.ver_major rsp.ver_minor)
        (λ _.
          Keeps-bind (net_transfer_body-Left malloc T rsp.data0 p v)
            (λ ret q h. logged_if-Answered req rsp ret q))
        (λ _.
          Keeps-bind (Keeps-mono (relay-Sent p v) (λ _ q h. tt) (λ q h. tt))
            (λ _ q h. ends (λ e. absurd (cc))))

  forwarded-Answered :
      (req : NetReq T.Table) (p : Pair)
      → IsBuffered p.inp
      → (rsp : NetRsp T.Table)
      → Keeps Answered
          (λ _. Unit {0})
          (and_then
            (on_out (net_forward_rsp_header malloc behind rsp (entries rsp.data0.table)) p)
            (λ ok t.
              if ok
              then rsp_body T malloc behind regexec entries req rsp t
              else done (some (negsuc 0, none)) t))
  forwarded-Answered req p v rsp =
      let es = entries rsp.data0.table in
      Keeps-bind {P = λ (ok : Bool) (t : Pair). (ok ≡ true) × (t.inp ≡ p.inp)}
        (Keeps-mono
          (lift_out (net_forward_rsp_header malloc behind rsp es (p.out, p.world)) p
            (net_forward_rsp_header_lem malloc fresh behind rsp es p.out p.world))
          (λ ok t w. (w.0.0, w.1)) (λ t w. tt))
        (λ ok t (e, same).
          Keeps-if ok
            (λ _. rsp_body-Answered req rsp t (subst (λ (c : Conn). IsBuffered c) (sym same) v))
            (λ f. absurd (cc)))

  -- net_http_rsp_handler does not run on, whatever the environment answers and whatever the patterns
  -- match: it returns, it still waits, or its behaviour is undefined. When it returns and no entry for
  -- the log has been made, the server's connection is closed.
  pub net_http_rsp_handler-Answered :
      (req : NetReq T.Table) (p : Pair)
      → IsBuffered p.inp
      → Keeps Answered (λ _. Unit {0}) (net_http_rsp_handler T malloc behind regexec entries req p)
  unfolding net_http_rsp_handler net_data_init
  net_http_rsp_handler-Answered req p v =
      let start : Pair = record p { out = record p.out { tx = pos 0 } } in
      Keeps-bind
        (Keeps-mono
          (lift_inp
            (net_fetch_http T malloc behind regexec (net_data_init T malloc []) (p.inp, p.world))
            start
            (net_fetch_http-IsHead T malloc fresh behind regexec (net_data_init T malloc []) p.inp
              p.world v (strbuf_init-IsValid malloc fresh).0 refl))
          (λ r q h. h.0) (λ q h. tt))
        (λ (ret, d) q h.
          Keeps-if (not (is_zero ret)) (λ _. no_response-Answered ret q)
            (λ _.
              Keeps-if (not (net_parse_rsp T malloc behind regexec _).0)
                (λ _. no_response-Answered (negsuc 0) q) (λ _. forwarded-Answered req q h.0 _)))
