-- ===== src/ConnIo/Copying.antt =====
-- core/conn_io.c, conn_copy: what it moves from one connection to the other.
use http_proxy.Prelude.{
  ℕ, zero, suc, ◌-◌, ◌≤◌, ◌<◌, ◌≡◌, refl, true, false, List, arith, ltb, take, drop, min,
}
use http_proxy.Run.{done}
use http_proxy.Conn.{Conn, World, is_closed, conn_close}
use http_proxy.ConnIo.{Pair, on_out, conn_write, conn_copy, copy_loop, consume}

write_closed :
    (bs : List ℕ) (c : Conn) (w : World)
    → is_closed c.stat ≡ true
    → conn_write bs (c, w) ≡ done false (c, w)
unfolding conn_write conn_close
write_closed bs c w h = rw (h, conn_write, conn_close)

pub on_out_closed :
    (bs : List ℕ) (p : Pair) → is_closed p.out.stat ≡ true → on_out (conn_write bs) p ≡ done false p
on_out_closed bs p h = rw (on_out, write_closed bs p.out p.world h)

pub copy_nothing : (fuel : ℕ) (p : Pair) → copy_loop fuel 0 p ≡ done true p
unfolding copy_loop
copy_nothing zero p = refl
copy_nothing (suc fuel) p = refl

-- A connection that is closed takes no more bytes; the bytes waiting in the read buffer are dropped
-- from it all the same, and conn_copy reports success: it does not look at the result of its first
-- conn_write. (core/conn_io.c:149)
pub conn_copy-drops :
    (len : ℕ) (p : Pair)
    → is_closed p.out.stat ≡ true
    → 0 < len
    → len ≤ p.inp.buf_e - p.inp.buf_s
    → conn_copy len p ≡ done true (record p { inp = consume len p.inp })
unfolding conn_copy
conn_copy-drops len p shut some_left h =
    let t : ltb p.inp.buf_s p.inp.buf_e ≡ true = ground arith in
    let m : min (p.inp.buf_e - p.inp.buf_s) len ≡ len = omega arith in
    let z : len - len ≡ 0 = omega arith in
    rw (t, conn_copy)
      (rw m (
        rw (on_out_closed (take len (drop p.inp.buf_s p.inp.buf)) p shut)
          (rw z (copy_nothing len (record p { inp = consume len p.inp })))))
