-- ===== src/NetHttp/Copied.antt =====
-- core/net_http.c, net_transfer_body_HTTP_1_1: what its reads, writes and copies leave.
use http_proxy.Prelude.{
  ℕ, ◌+◌, ◌≤◌, ◌<◌, ◌≡◌, refl, sym, ap, subst, ◌⊎◌, inl, inr, Bool, true, false, Option, none, some,
  List, ℤ, pos, negsuc, is_minus_one, arith, length, length-append,
}
use http_proxy.Run.{Keeps, ends, Keeps-bind, Keeps-mono}
use http_proxy.Strbuf.{Strbuf}
use http_proxy.Conn.{Conn, is_closed}
use http_proxy.ConnIo.{Pair, stream, conn_gets, conn_write, conn_copy, on_out, on_inp}
use http_proxy.ConnIo.Buffer.{IsBuffered}
use http_proxy.ConnIo.Negative.{copy_int, MovedBack, copy_negative-MovedBack}
use http_proxy.ConnIo.Shorter.{conn_gets-Shorter}
use http_proxy.ConnIo.Moving.{lift_inp, lift_out}
use http_proxy.ConnIo.CopyAll.{conn_copy_lem}
use http_proxy.ConnIo.Writing.{conn_write_lem}
use http_proxy.NetHandle.{not_positive}
use http_proxy.NetHttp.{is_negative}

-- The read buffer of `inp` is in order, and it has no more to bring than before.
abbrev pub Left : Pair → Pair → Type 0
Left p q = IsBuffered q.inp × (length (stream q.inp) ≤ length (stream p.inp))

-- A step that succeeds leaves no more to bring.
abbrev pub Goes : Pair → Bool → Pair → Type 0
Goes p ok q = ok ≡ true → Left p q

pub write-Left :
    (bs : List ℕ) (p q : Pair)
    → Left p q
    → Keeps (λ _ t. Left p t) (λ _. Unit {0}) (on_out (conn_write bs) q)
write-Left bs p q h =
    Keeps-mono (lift_out (conn_write bs (q.out, q.world)) q (conn_write_lem bs q.out q.world))
      (λ ok t w.
        subst (λ (c : Conn). IsBuffered c × (length (stream c) ≤ length (stream p.inp))) (sym w.1)
          h)
      (λ t w. tt)

-- A closed connection takes nothing.
pub shut_write :
    (bs : List ℕ) (q : Pair)
    → is_closed q.out.stat ≡ true
    → Keeps (λ ok _. ok ≡ false) (λ _. Unit {0}) (on_out (conn_write bs) q)
unfolding conn_write
shut_write bs q e = rw (e, conn_write, on_out) (ends refl)

-- A line read: `inp` brings less, and `out` is as before.
abbrev pub Read : Pair → ℤ × Strbuf → Pair → Type 0
Read p r q =
    IsBuffered q.inp
    × (is_minus_one r.0 ≡ false → length (stream q.inp) < length (stream p.inp))
    × (q.out ≡ p.out)

pub line-Read :
    (malloc : ℕ → List ℕ) (len_limit : ℕ) (b : Strbuf) (p : Pair)
    → IsBuffered p.inp
    → Keeps (Read p) (λ _. Unit {0}) (on_inp (conn_gets malloc len_limit b) p)
line-Read malloc len_limit b p v =
    Keeps-mono
      (lift_inp (conn_gets malloc len_limit b (p.inp, p.world)) p
        (conn_gets-Shorter malloc len_limit b p.inp p.world v))
      (λ r q h. (h.0.0, h.0.1, h.1)) (λ q h. tt)

pub copy-Left :
    (len : ℕ) (p : Pair) → IsBuffered p.inp → Keeps (Goes p) (λ _. Unit {0}) (conn_copy len p)
copy-Left len p v =
    Keeps-mono (conn_copy_lem len p v)
      (λ ok q m e.
        let (used, _, split, _) = m.whole e in
        (m.kept e, omega (arith, ap length split, length-append used (stream q.inp))))
      (λ q h. tt)

pub not_minus_one : (z : ℤ) → is_negative z ≡ false → is_minus_one z ≡ false
not_minus_one (pos n) h = refl
not_minus_one (negsuc n) h = absurd (cc)

pub positive_not : (z : ℤ) → not_positive z ≡ false → is_minus_one z ≡ false
positive_not (pos n) h = refl
positive_not (negsuc n) h = absurd (cc)

-- A success leaves no more to bring, or `out` is closed.
abbrev pub GoesInt : Pair → Option Bool → Pair → Type 0
GoesInt p none q = Unit {0}
GoesInt p (some ok) q = ok ≡ true → Left p q ⊎ (IsBuffered q.inp × (is_closed q.out.stat ≡ true))

MovedBack-GoesInt : (p : Pair) (r : Option Bool) (q : Pair) → MovedBack r q → GoesInt p r q
MovedBack-GoesInt p none q h = tt
MovedBack-GoesInt p (some false) q h = λ e. absurd (cc)
MovedBack-GoesInt p (some true) q h = λ _. inr h

pub copy_int-GoesInt :
    (len : ℤ) (p : Pair) → IsBuffered p.inp → Keeps (GoesInt p) (λ _. Unit {0}) (copy_int len p)
unfolding copy_int
copy_int-GoesInt (pos n) p v = Keeps-bind (copy-Left n p v) (λ ok q g. ends (λ e. inl (g e)))
copy_int-GoesInt (negsuc n) p v =
    Keeps-mono (copy_negative-MovedBack (n + 1) p v) (λ r q h. MovedBack-GoesInt p r q h)
      (λ q _. tt)
