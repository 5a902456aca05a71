-- ===== src/ConnIo/Negative.antt =====
-- core/conn_io.c: conn_copy on an `int`, which may be negative. The length of a send is then beyond all
-- memory, and buf_s moves back. What is undefined behaviour, a send of such a length and a buf_s in
-- front of the buffer, is the result none.
use http_proxy.Prelude.{
  ℕ, zero, suc, ◌+◌, ◌-◌, ◌≡◌, refl, sym, subst, ◌⊎◌, inl, inr, Bool, true, false, ◌||◌, Option,
  none, some, List, ℤ, pos, negsuc, pred_ℤ, arith, ltb, leb, if◌then◌else◌, length, memcpy,
}
use http_proxy.Run.{Io, done, and_then, Keeps, ends, Keeps-if, Keeps-bind, Keeps-mono}
use http_proxy.Conn.{Conn, is_closed, conn_close}
use http_proxy.ConnIo.{Pair, conn_recv, conn_copy, fail, on_out, on_inp}
use http_proxy.ConnIo.Receive.{conn_recv_lem}
use http_proxy.ConnIo.Buffer.{IsBuffered, close-is_closed}
use http_proxy.ConnIo.Moving.{lift_inp}

abbrev pub sub_ℤ : ℤ → ℕ → ℤ
sub_ℤ z zero = z
sub_ℤ z (suc n) = pred_ℤ (sub_ℤ z n)

-- buf_s, and what goes with it, after `-n` bytes have been passed on.
abbrev pub move_back : ℕ → Conn → Conn
move_back n c = record c { buf_s = c.buf_s - n; rx = sub_ℤ c.rx n }

-- conn_write of a negative length fails, or it comes to a send.
abbrev pub write_negative : Io Pair (Option Bool)
write_negative p =
    if is_closed p.out.stat || p.world.exiting then on_out (fail (some false)) p else done none p

-- The first part of conn_copy, behind its conn_write; no length is left then.
abbrev pub after_write : ℕ → Option Bool → Io Pair (Option Bool)
after_write n none q = done none q
after_write n (some ok) q =
    if leb n q.inp.buf_s
    then done (some true) (record q { inp = move_back n q.inp })
    else done none q

-- A round of its loop, behind the read.
abbrev pub after_read : Option (List ℕ) → Io Pair (Option Bool)
after_read none q = on_inp (fail (some false)) q
after_read (some bs) q =
    write_negative
      (record q { inp = record q.inp { buf = memcpy q.inp.buf bs (length bs); buf_e = length bs } })

-- conn_copy, of the length `-n`, which is not 0.
unfoldable pub copy_negative : ℕ → Io Pair (Option Bool)
unfolding conn_recv conn_close
copy_negative n p =
    let back = and_then {B = Option Bool} (write_negative p) (after_write n) in
    let read =
      and_then {B = Option Bool}
        (on_inp (λ (c, w). conn_recv c.buf_cap (record c { buf_s = 0; buf_e = 0 }, w)) p)
        after_read in
    if ltb p.inp.buf_s p.inp.buf_e then back else read

unfoldable pub copy_int : ℤ → Io Pair (Option Bool)
unfolding conn_copy copy_negative
copy_int (pos n) p = and_then {B = Option Bool} (conn_copy n p) (λ ok q. done (some ok) q)
copy_int (negsuc n) p = copy_negative (n + 1) p

-- The write is undefined, or it has failed and `out` is closed.
abbrev Failed : Pair → Option Bool → Pair → Type 0
Failed p r q = (q.inp ≡ p.inp) × ((r ≡ none) ⊎ ((r ≡ some false) × (is_closed q.out.stat ≡ true)))

write_negative-Failed : (p : Pair) → Keeps (Failed p) (λ _. Unit {0}) (write_negative p)
write_negative-Failed p =
    Keeps-if (is_closed p.out.stat || p.world.exiting)
      (λ _. ends (refl, inr (refl, close-is_closed p.out p.world))) (λ _. ends (refl, inl refl))

-- Success means that `out` is closed, and the read buffer of `inp` is in order.
abbrev pub MovedBack : Option Bool → Pair → Type 0
MovedBack none q = Unit {0}
MovedBack (some false) q = Unit {0}
MovedBack (some true) q = IsBuffered q.inp × (is_closed q.out.stat ≡ true)

after_write-MovedBack :
    (n : ℕ) (p : Pair)
    → IsBuffered p.inp
    → (r : Option Bool) (q : Pair) → Failed p r q
    → Keeps MovedBack (λ _. Unit {0}) (after_write n r q)
after_write-MovedBack n p v none q h = ends tt
after_write-MovedBack n p v (some ok) q (same, inl e) = absurd (cc)
after_write-MovedBack n p v (some ok) q (same, inr (e, shut)) =
    let u = subst (λ (c : Conn). IsBuffered c) (sym same) v in
    Keeps-if (leb n q.inp.buf_s)
      (λ _. ends (
        record {
          size = u.size;
          order = omega (arith, u.order);
          within = u.within;
          cells = u.cells;
        },
        shut,
      ))
      (λ _. ends tt)

Failed-MovedBack : (p q : Pair) (r : Option Bool) → Failed p r q → MovedBack r q
Failed-MovedBack p q none h = tt
Failed-MovedBack p q (some false) h = tt
Failed-MovedBack p q (some true) (same, inl e) = absurd (cc)
Failed-MovedBack p q (some true) (same, inr (e, shut)) = absurd (cc)

after_read-MovedBack :
    (r : Option (List ℕ)) (q : Pair) → Keeps MovedBack (λ _. Unit {0}) (after_read r q)
after_read-MovedBack none q = ends tt
after_read-MovedBack (some bs) q =
    let full : Pair = record q {
      inp = record q.inp { buf = memcpy q.inp.buf bs (length bs); buf_e = length bs };
    } in
    Keeps-mono (write_negative-Failed full) (λ r t h. Failed-MovedBack full t r h) (λ t _. tt)

-- conn_copy of a negative length does not run on.
pub copy_negative-MovedBack :
    (n : ℕ) (p : Pair) → IsBuffered p.inp → Keeps MovedBack (λ _. Unit {0}) (copy_negative n p)
unfolding copy_negative
copy_negative-MovedBack n p v =
    let emptied : Conn = record p.inp { buf_s = 0; buf_e = 0 } in
    Keeps-if (ltb p.inp.buf_s p.inp.buf_e)
      (λ _. Keeps-bind (write_negative-Failed p) (λ r q h. after_write-MovedBack n p v r q h))
      (λ _.
        Keeps-bind
          (Keeps-mono
            (lift_inp (conn_recv p.inp.buf_cap (emptied, p.world)) p
              (conn_recv_lem p.inp.buf_cap emptied p.world))
            (λ r q h. tt) (λ q h. tt))
          (λ r q h. after_read-MovedBack r q))
