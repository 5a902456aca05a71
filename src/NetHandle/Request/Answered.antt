-- ===== src/NetHandle/Request/Answered.antt =====
-- core/net_handle.c, net_req_handler: what becomes of a request.
use http_proxy.Prelude.{
  ℕ, ◌≡◌, refl, sym, ap, subst, ◌∙◌, ◌⊎◌, inl, inr, Bool, true, false, ◌||◌, Option, none, some,
  List, [], ◌∷◌, ℤ, negsuc, is_zero, length, Bool-cases, Option-cases, if◌then◌else◌,
}
use http_proxy.Prelude.Uthash.{Uthash}
use http_proxy.Libc.{c_str, str_eq}
use http_proxy.Run.{Run, Io, done, Keeps, Keeps-run, ends, stays, Keeps-if, Keeps-bind}
use http_proxy.Strbuf.{strbuf_init}
use http_proxy.Strbuf.Laws.{strbuf_init-IsValid}
use http_proxy.Conn.{Conn, World, is_closed}
use http_proxy.ConnIo.{State}
use http_proxy.ConnIo.Buffer.{IsBuffered}
use http_proxy.NetData.{NetHeaderEnt, NetData, NetReq, Regmatch, net_data_init}
use http_proxy.NetData.Parse.{Regex, net_parse_req}
use http_proxy.NetHandle.{NetHandlers, method_strcmp, net_get_handler, net_fetch_http}
use http_proxy.NetHandle.Answers.{Told, net_bad_request-Told}
use http_proxy.NetHandle.Fetch.{net_fetch_http-IsHead}
use http_proxy.NetHandle.Request.{
  Fetched, left, bad, parsed, bad_request, dispatch, read_request, serve, req_loop,
}

get_handler-matches :
    (method : List ℕ) (slots : List (Option NetHandlers)) (h : NetHandlers)
    → net_get_handler method slots ≡ some h
    → method_strcmp h.method method ≡ true
unfolding net_get_handler
get_handler-matches method [] h e = absurd (cc)
get_handler-matches method (none ∷ slots) h e = absurd (cc)
get_handler-matches method (some g ∷ slots) h e =
    elim (Bool-cases (method_strcmp g.method method)) [
      | inl found ↦
          let first : some g ≡ some h =
            sym (ap (λ (b : Bool). if b then some g else net_get_handler method slots) found) ∙ e in
          let at : Option NetHandlers → NetHandlers = λ o. elim o [ none ↦ g | some k ↦ k ] in
          subst (λ (k : NetHandlers). method_strcmp k.method method ≡ true) (ap at first) found
      | inr other ↦
          get_handler-matches method slots h
            (sym (ap (λ (b : Bool). if b then some g else net_get_handler method slots) other) ∙ e)
    ]

module _ (T : Uthash str_eq NetHeaderEnt) (malloc : ℕ → List ℕ)
    (fresh : (n : ℕ) → length (malloc n) ≡ n) (behind : List ℕ)
    (regexec : Regex → List ℕ → Option Regmatch) (slots : List (Option NetHandlers))
    (blank : NetReq T.Table) where
  -- What net_fetch_http gives for a client in this state.
  abbrev pub fetched : State → Run State (ℤ × NetData T.Table)
  fetched s = net_fetch_http T malloc behind regexec (net_data_init T malloc behind) s

  -- What net_parse_req gives for this head.
  abbrev pub parse : NetData T.Table → Bool × NetReq T.Table
  parse d = net_parse_req T malloc behind regexec (record blank { data0 = d })

  -- Why a request is bad, and with what result: net_fetch_http has failed, or the method has no handler
  -- or net_parse_req fails.
  abbrev pub IsBad : ℤ → ℤ → NetData T.Table → Type 0
  IsBad ret fetch d =
      ((is_zero fetch ≡ false) × (ret ≡ fetch))
      ⊎ ((is_zero fetch ≡ true)
          × (ret ≡ negsuc 0)
          × ((net_get_handler (c_str d.buf.p) slots ≡ none) ⊎ ((parse d).0 ≡ false)))

  -- For a round that starts in the state `start`. One that leaves the loop without a bad request has
  -- found the client closed or the program exiting and done nothing. After a bad request the client is
  -- closed and Told of it, and the result is not 0. A request that goes on has been parsed from the head
  -- that net_fetch_http has read, whose first word is the method of its handler.
  abbrev pub IsAnswered : State → Fetched T.Table → State → Type 0
  IsAnswered start left s = (s ≡ start) × ((is_closed s.0.stat || s.1.exiting) ≡ true)
  IsAnswered start (bad ret) s =
      (is_closed s.0.stat ≡ true)
      × (is_zero ret ≡ false)
      × (fetch : ℤ) × (d : NetData T.Table) × (t : State) × (fetched start ≡ done (fetch, d) t)
      × IsBad ret fetch d
      × Told t s.0
  IsAnswered start (parsed h q) s =
      IsBuffered s.0
      × (fetch : ℤ) × (d : NetData T.Table) × (fetched start ≡ done (fetch, d) s)
      × (is_zero fetch ≡ true)
      × (method_strcmp h.method (c_str d.buf.p) ≡ true)
      × (net_get_handler (c_str d.buf.p) slots ≡ some h)
      × (parse d ≡ (true, q))

  module _ (start : State) (fetch : ℤ) (d : NetData T.Table) (c : Conn) (w : World)
      (run : fetched start ≡ done (fetch, d) (c, w)) where
    bad_request-IsAnswered :
        (ret : ℤ)
        → is_zero ret ≡ false
        → IsBad ret fetch d
        → Keeps
            (IsAnswered start)
            (λ _. Unit {0})
            (bad_request T malloc behind regexec slots ret (c, w))
    bad_request-IsAnswered ret e cause =
        Keeps-bind (net_bad_request-Told c w)
          (λ _ s (shut, told). ends (shut, e, fetch, d, (c, w), run, cause, told))

    dispatch-IsAnswered :
        IsBuffered c
        → is_zero fetch ≡ true
        → Keeps
            (IsAnswered start)
            (λ _. Unit {0})
            (dispatch T malloc behind regexec slots blank d (c, w))
    unfolding dispatch
    dispatch-IsAnswered v z = elim (Option-cases (net_get_handler (c_str d.buf.p) slots)) [
      | inl e ↦ rw (e, dispatch) (bad_request-IsAnswered (negsuc 0) refl (inr (z, refl, inl e)))
      | inr (h, e) ↦
          let r = parse d in
          rw (e, dispatch)
            (Keeps-if r.0
              (λ ok. ends (
                v,
                fetch,
                d,
                run,
                z,
                get_handler-matches (c_str d.buf.p) slots h e,
                e,
                ap (λ (b : Bool). (b, r.1)) ok,
              ))
              (λ no. bad_request-IsAnswered (negsuc 0) refl (inr (z, refl, inr no))))
    ]

  -- A round of net_req_handler in front of the call of the handler returns or still waits. Where it
  -- returns, it goes on with a registered handler whose method is the first word of the head that
  -- net_fetch_http has read and with the fields that net_parse_req gives for this head; or
  -- net_fetch_http has failed, the method has no handler or net_parse_req fails, and the client is closed and the result is not 0: it
  -- has been sent the whole answer 400, or what conn_write sent before it failed, or
  -- nothing more where net_fetch_http left it closed. Without any of these the client was closed or the
  -- program exiting, and nothing has been done.
  pub read_request-IsAnswered :
      (c : Conn) (w : World)
      → IsBuffered c
      → Keeps
          (IsAnswered (c, w))
          (λ _. Unit {0})
          (read_request T malloc behind regexec slots blank (c, w))
  unfolding read_request net_data_init strbuf_init
  read_request-IsAnswered c w v =
      Keeps-if (is_closed c.stat || w.exiting) (λ e. ends (refl, e))
        (λ _.
          Keeps-bind
            (Keeps-run (
              net_fetch_http-IsHead T malloc fresh behind regexec (net_data_init T malloc behind) c
                w v (strbuf_init-IsValid malloc fresh).0 refl))
            (λ (ret, d) s (run, (u, _, _)).
              Keeps-if (is_zero ret) (λ z. dispatch-IsAnswered (c, w) ret d s.0 s.1 run u z)
                (λ e. bad_request-IsAnswered (c, w) ret d s.0 s.1 run ret e (inl (e, refl)))))

  -- The handlers of requests leave the read buffer of the client in order.
  abbrev pub AllKeep : List (NetHandlers → NetReq T.Table → Io State ℤ) → Type 0
  AllKeep [] = Unit {0}
  AllKeep (run ∷ runs) =
      ((h : NetHandlers) (q : NetReq T.Table) (c : Conn) (w : World)
        → IsBuffered c
        → Keeps (λ _ t. IsBuffered t.0) (λ _. Unit {0}) (run h q (c, w)))
      × AllKeep runs

  -- The result, where it is 0.
  abbrev pub ZeroAtEnd : ℤ → State → Type 0
  ZeroAtEnd ret t = is_zero ret ≡ true → (is_closed t.0.stat || t.1.exiting) ≡ true

  serve-ZeroAtEnd :
      (run : NetHandlers → NetReq T.Table → Io State ℤ) (next : Io State ℤ) (start : State)
      (f : Fetched T.Table) (s : State)
      → AllKeep (run ∷ [])
      → ((c : Conn) (w : World) → IsBuffered c → Keeps ZeroAtEnd (λ _. Unit {0}) (next (c, w)))
      → IsAnswered start f s
      → Keeps ZeroAtEnd (λ _. Unit {0}) (serve T malloc behind regexec slots run next f s)
  serve-ZeroAtEnd run next start left s k rest a = ends (λ _. a.1)
  serve-ZeroAtEnd run next start (bad ret) s k rest a = ends (λ z. absurd (cc))
  serve-ZeroAtEnd run next start (parsed h q) s k rest a =
      Keeps-bind (k.0 h q s.0 s.1 a.0)
        (λ ret t u. Keeps-if (is_zero ret) (λ _. rest t.0 t.1 u) (λ z. ends (λ y. absurd (cc))))

  -- The loop of net_req_handler ends with 0 only where the client is closed or the program exiting,
  -- for handlers of requests that leave the client's read buffer in order.
  pub req_loop-ZeroAtEnd :
      (runs : List (NetHandlers → NetReq T.Table → Io State ℤ)) (c : Conn) (w : World)
      → IsBuffered c
      → AllKeep runs
      → Keeps ZeroAtEnd (λ _. Unit {0}) (req_loop T malloc behind regexec slots blank runs (c, w))
  unfolding req_loop
  req_loop-ZeroAtEnd [] c w v k = stays tt
  req_loop-ZeroAtEnd (run ∷ runs) c w v k =
      Keeps-bind {P = IsAnswered (c, w)} (read_request-IsAnswered c w v) (λ f s a.
        serve-ZeroAtEnd run (req_loop T malloc behind regexec slots blank runs) (c, w) f s (k.0, tt)
          (λ d u b. req_loop-ZeroAtEnd runs d u b k.1) a)
