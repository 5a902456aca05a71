-- ===== src/NetHttp/Relay.antt =====
-- core/net_http.c: the loops around conn_copy in net_connect_req_handler, net_connect_rsp_handler and
-- net_http_rsp_handler.
use http_proxy.Prelude.{
  ℕ, zero, suc, ◌+◌, ◌-◌, ◌<◌, ◌≡◌, refl, sym, ap, subst, ◌∙◌, ◌⊎◌, inl, inr, true, List, ◌++◌,
  negsuc, arith, ltb, min, length, length-append, take, drop,
}
use mathlib.Core.List.{append_assoc}
use http_proxy.Run.{Keeps, ends, Keeps-if, Keeps-bind, Keeps-mono, Keeps-both}
use http_proxy.Conn.{Conn, is_closed}
use http_proxy.ConnIo.{Pair, stream, consume, conn_copy}
use http_proxy.ConnIo.Buffer.{IsBuffered}
use http_proxy.ConnIo.Copying.{on_out_closed}
use http_proxy.ConnIo.Blocks.{copy_closed}
use http_proxy.ConnIo.CopyAll.{conn_copy_lem}
use http_proxy.NetHttp.Handlers.{relay_len, relay_loop, relay, net_connect_rsp_handler}

-- What has gone out is the front of what came in.
abbrev pub Sent : Pair → Pair → Type 0
Sent p q =
    (part : List ℕ) × (rest : List ℕ) × (stream p.inp ≡ part ++ rest)
    × (q.out.sent ≡ p.out.sent ++ part)

-- One of the two connections is closed.
abbrev pub OneClosed : Pair → Type 0
OneClosed q = (is_closed q.inp.stat ≡ true) ⊎ (is_closed q.out.stat ≡ true)

conn_copy_closed :
    (len : ℕ) (p : Pair)
    → is_closed p.out.stat ≡ true
    → Keeps (λ ok q. q.out ≡ p.out) (λ q. q.out ≡ p.out) (conn_copy len p)
unfolding conn_copy
conn_copy_closed len p shut =
    Keeps-if (ltb p.inp.buf_s p.inp.buf_e)
      (λ _.
        let n = min (p.inp.buf_e - p.inp.buf_s) len in
        rw (on_out_closed (take n (drop p.inp.buf_s p.inp.buf)) p shut) (
          Keeps-mono
            (copy_closed len (len - n) (record p { inp = consume n p.inp }) (omega arith) shut)
            (λ ok q h. h.0) (λ q h. h)))
      (λ _. Keeps-mono (copy_closed len len p (omega arith) shut) (λ ok q h. h.0) (λ q h. h))

shorter_by : (n : ℕ) (xs ys zs : List ℕ) → xs ≡ ys ++ zs → length ys ≡ n → length xs ≡ n + length zs
shorter_by n xs ys zs e k = omega (arith, ap length e, length-append ys zs)

relay_closed :
    (fuel : ℕ) (p : Pair)
    → IsBuffered p.inp
    → length (stream p.inp) < fuel
    → is_closed p.out.stat ≡ true
    → Keeps (λ _ q. q.out ≡ p.out) (λ q. q.out ≡ p.out) (relay_loop fuel p)
unfolding relay_loop
relay_closed zero p v more shut = elim more [ ]
relay_closed (suc fuel) p v more shut =
    Keeps-bind
      (Keeps-mono (Keeps-both (conn_copy_closed relay_len p shut) (conn_copy_lem relay_len p v))
        (λ ok q h. h) (λ q h. h.0))
      (λ ok q (same, m).
        Keeps-if ok
          (λ e.
            let (used, k, split, _) = m.whole e in
            let l = shorter_by relay_len (stream p.inp) used (stream q.inp) split k in
            Keeps-mono
              (relay_closed fuel q (m.kept e) (omega arith)
                (ap (λ (c : Conn). is_closed c.stat) same ∙ shut))
              (λ _ t h. h ∙ same) (λ t h. h ∙ same))
          (λ _. ends same))

Sent-more :
    (p m q : Pair) (x : List ℕ)
    → stream p.inp ≡ x ++ stream m.inp
    → m.out.sent ≡ p.out.sent ++ x
    → Sent m q
    → Sent p q
Sent-more p m q x s o (part, rest, front, out) = (
  x ++ part,
  rest,
  s ∙ ap (λ (y : List ℕ). x ++ y) front ∙ sym (append_assoc x part rest),
  out ∙ ap (λ (y : List ℕ). y ++ part) o ∙ append_assoc p.out.sent x part,
)

relay_loop-Sent :
    (fuel : ℕ) (p : Pair)
    → IsBuffered p.inp
    → length (stream p.inp) < fuel
    → Keeps (λ _ q. Sent p q × OneClosed q) (Sent p) (relay_loop fuel p)
unfolding relay_loop
relay_loop-Sent zero p v more = elim more [ ]
relay_loop-Sent (suc fuel) p v more =
    Keeps-bind
      (Keeps-mono (conn_copy_lem relay_len p v) (λ ok q h. h)
        (λ q h. (h.part, h.rest, h.front, h.out)))
      (λ ok q m.
        let so_far : Sent p q = (m.passed.part, m.passed.rest, m.passed.front, m.passed.out) in
        Keeps-if ok
          (λ e.
            let (used, k, split, which) = m.whole e in
            let l = shorter_by relay_len (stream p.inp) used (stream q.inp) split k in
            elim which [
              | inl same ↦
                  let out = m.passed.out ∙ ap (λ (x : List ℕ). p.out.sent ++ x) same in
                  Keeps-mono (relay_loop-Sent fuel q (m.kept e) (omega arith))
                    (λ _ t h. (Sent-more p q t used split out h.0, h.1))
                    (λ t h. Sent-more p q t used split out h)
              | inr shut ↦
                  let as_before : (t : Pair) → t.out ≡ q.out → Sent p t =
                    λ t f. subst (λ (c : Conn). Sent p (record t { out = c })) (sym f) so_far in
                  Keeps-mono (relay_closed fuel q (m.kept e) (omega arith) shut)
                    (λ _ t f. (as_before t f, inr (ap (λ (c : Conn). is_closed c.stat) f ∙ shut)))
                    as_before
            ])
          (λ e. ends (so_far, m.shut e)))

pub relay-Sent :
    (p : Pair) → IsBuffered p.inp → Keeps (λ _ q. Sent p q × OneClosed q) (Sent p) (relay p)
unfolding relay
relay-Sent p v = relay_loop-Sent (suc (length (stream p.inp))) p v (omega arith)

-- A tunnel from the server to the client: net_connect_rsp_handler does not run on, and whatever the
-- environment answers, what the client has been sent is the front of what the server's connection
-- brings. It returns -1, and only when one of the two connections is closed.
pub net_connect_rsp_handler-Sent :
    (p : Pair)
    → IsBuffered p.inp
    → Keeps
        (λ ret q. (ret ≡ negsuc 0) × Sent p q × OneClosed q)
        (Sent p)
        (net_connect_rsp_handler p)
unfolding net_connect_rsp_handler
net_connect_rsp_handler-Sent p v = Keeps-bind (relay-Sent p v) (λ _ q h. ends (refl, h.0, h.1))
