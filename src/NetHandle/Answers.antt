-- ===== src/NetHandle/Answers.antt =====
-- core/net_handle.c: net_bad_request and net_bad_gateway.
use http_proxy.Prelude.{
  ℕ, ◌≡◌, refl, ap, sym, ◌∙◌, true, false, ◌⊎◌, inl, inr, Bool, Bool-cases, List, ◌++◌,
}
use mathlib.Core.List.{append-nil}
use http_proxy.Run.{done, Keeps, ends, Keeps-if, Keeps-bind, Keeps-mono, Keeps-run}
use http_proxy.Conn.{Conn, World, is_closed, conn_close}
use http_proxy.ConnIo.{State, conn_write}
use http_proxy.ConnIo.Writing.{Wrote, WroteAll, conn_write_lem, close-sent}
use http_proxy.ConnIo.Buffer.{close-is_closed}
use http_proxy.NetHandle.{bad_request_msg, bad_gateway_msg, net_bad_request, net_bad_gateway}

-- `out` begins with a part of the message.
abbrev pub SentPart : List ℕ → Conn → Conn → Type 0
SentPart msg c d =
    (part : List ℕ) × (rest : List ℕ) × (msg ≡ part ++ rest) × (d.sent ≡ c.sent ++ part)

part_of : (msg : List ℕ) (c d : Conn) → Wrote msg c d → SentPart msg c d
part_of msg c d x = (x.part, x.rest, x.split, x.out)

whole_or_closed :
    (msg : List ℕ) (c : Conn) (ok : Bool) (s : State)
    → WroteAll msg c ok s
    → (is_closed s.0.stat ≡ true) ⊎ (s.0.sent ≡ c.sent ++ msg)
whole_or_closed msg c ok s h = elim (Bool-cases ok) [
  | inr failed ↦ inl (h.shut failed)
  | inl sent ↦
      let e : msg ≡ h.wrote.part =
        h.wrote.split
        ∙ ap (λ (x : List ℕ). h.wrote.part ++ x) (h.whole sent)
        ∙ append-nil h.wrote.part in
      inr (h.wrote.out ∙ ap (λ (x : List ℕ). c.sent ++ x) (sym e))
]

-- When net_bad_request returns, the connection is closed, and what went out on one that was open is
-- a first part of the answer 400.
pub net_bad_request_lem :
    (c : Conn) (w : World)
    → is_closed c.stat ≡ false
    → Keeps
        (λ _ s. (is_closed s.0.stat ≡ true) × SentPart bad_request_msg c s.0)
        (λ s. SentPart bad_request_msg c s.0)
        (net_bad_request (c, w))
unfolding net_bad_request
net_bad_request_lem c w live =
    Keeps-if (is_closed c.stat) (λ shut. absurd (cc))
      (λ _.
        Keeps-bind
          (Keeps-mono (conn_write_lem bad_request_msg c w) (λ ok s h. h)
            (λ s h. part_of bad_request_msg c s.0 h))
          (λ ok s h.
            let (part, rest, split, out) = part_of bad_request_msg c s.0 h.wrote in
            ends (close-is_closed s.0 s.1, (part, rest, split, (close-sent s.0 s.1).0 ∙ out))))

-- What the client has been sent after an answer 400: nothing more, where it was closed; the whole
-- answer; or as much as conn_write sent before it failed.
abbrev pub Told : State → Conn → Type 0
Told (c, w) d =
    ((is_closed c.stat ≡ true) × (d.sent ≡ c.sent))
    ⊎ (d.sent ≡ c.sent ++ bad_request_msg)
    ⊎ ((t : State) × (conn_write bad_request_msg (c, w) ≡ done false t) × (d.sent ≡ t.0.sent))

after_answer :
    (c : Conn) (w : World) (ok : Bool) (s : State)
    → conn_write bad_request_msg (c, w) ≡ done ok s
    → WroteAll bad_request_msg c ok s
    → Told (c, w) (conn_close s.0 s.1).0
after_answer c w true s run h =
    let whole : bad_request_msg ≡ h.wrote.part =
      h.wrote.split
      ∙ ap (λ (x : List ℕ). h.wrote.part ++ x) (h.whole refl)
      ∙ append-nil h.wrote.part in
    inr (inl ((close-sent s.0 s.1).0 ∙ h.wrote.out ∙ ap (λ (x : List ℕ). c.sent ++ x) (sym whole)))
after_answer c w false s run h = inr (inr (s, run, (close-sent s.0 s.1).0))

-- net_bad_request leaves the client closed, and tells it so unless it was closed before.
pub net_bad_request-Told :
    (c : Conn) (w : World)
    → Keeps
        (λ _ s. (is_closed s.0.stat ≡ true) × Told (c, w) s.0)
        (λ _. Unit {0})
        (net_bad_request (c, w))
unfolding net_bad_request
net_bad_request-Told c w =
    Keeps-if (is_closed c.stat) (λ shut. ends (shut, inl (shut, refl)))
      (λ _.
        Keeps-bind
          (Keeps-run (Keeps-mono (conn_write_lem bad_request_msg c w) (λ ok s h. h) (λ s _. tt)))
          (λ ok s (run, h). ends (close-is_closed s.0 s.1, after_answer c w ok s run h)))

-- net_bad_gateway sends a first part of the answer 502 on a connection that is open: the whole
-- answer, or the connection is closed when it returns.
pub net_bad_gateway_lem :
    (c : Conn) (w : World)
    → is_closed c.stat ≡ false
    → Keeps
        (λ _ s. (is_closed s.0.stat ≡ true) ⊎ (s.0.sent ≡ c.sent ++ bad_gateway_msg))
        (λ s. SentPart bad_gateway_msg c s.0)
        (net_bad_gateway (c, w))
unfolding net_bad_gateway
net_bad_gateway_lem c w live =
    Keeps-if (is_closed c.stat) (λ shut. absurd (cc))
      (λ _.
        Keeps-bind
          (Keeps-mono (conn_write_lem bad_gateway_msg c w) (λ ok s h. h)
            (λ s h. part_of bad_gateway_msg c s.0 h))
          (λ ok s h. ends (whole_or_closed bad_gateway_msg c ok s h)))
