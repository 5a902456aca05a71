-- ===== src/ConnIo/Blocks.antt =====
-- core/conn_io.c, conn_copy: the block that a recv has brought, and a loop whose output is closed.
use http_proxy.Prelude.{
  ℕ, zero, suc, ◌+◌, ◌-◌, ◌≤◌, ◌≡◌, refl, sym, ap, ◌∙◌, Bool, true, none, some, List, ◌++◌, arith,
  ◌==◌, length, take, drop, min, memcpy, length-drop, take_all, take-append, drop-append,
}
use http_proxy.Run.{Keeps, ends, Keeps-if, Keeps-bind, Keeps-mono}
use http_proxy.Conn.{Conn, World, is_closed}
use http_proxy.ConnIo.{Pair, pending, conn_recv, consume, copy_loop}
use http_proxy.ConnIo.Receive.{Delivers, conn_recv_lem}
use http_proxy.ConnIo.Buffer.{IsBuffered, emptied, length-memcpy}
use http_proxy.ConnIo.Copying.{on_out_closed}
use http_proxy.ConnIo.Moving.{lift_inp}

-- The connection after a recv of `bs` into its empty buffer.
abbrev pub filled : Conn → List ℕ → Conn
filled c bs = record c { buf = memcpy c.buf bs (length bs); buf_e = length bs }

pub pending-consume :
    (n : ℕ) (c : Conn) (bs : List ℕ)
    → c.buf_s ≡ 0
    → n ≤ length bs
    → pending (consume n (filled c bs)) ≡ drop n bs
pending-consume n c bs z h =
    let s : c.buf_s + n ≡ n = omega (arith, z) in
    let whole = take_all (length bs) bs (omega arith) in
    let tail = drop (length bs) c.buf in
    let k : length bs - n ≡ length (drop n bs) = omega (arith, length-drop n bs) in
    rw s (
      ap (λ (x : List ℕ). take (length bs - n) (drop n (x ++ tail))) whole
      ∙ ap (take (length bs - n)) (drop-append n bs tail h)
      ∙ ap (λ (i : ℕ). take i (drop n bs ++ tail)) k
      ∙ take-append (length (drop n bs)) (drop n bs) tail (omega arith)
      ∙ take_all (length (drop n bs)) (drop n bs) (omega arith))

pub consume-IsBuffered :
    (n : ℕ) (c d : Conn) (w : World) (bs : List ℕ)
    → IsBuffered c
    → Delivers c.buf_cap c.recvs (emptied c) (some bs) (d, w)
    → n ≤ length bs
    → IsBuffered (consume n (filled d bs))
consume-IsBuffered n c d w bs v e h =
    let b = ap length e.same.buf in
    let cap = e.same.buf_cap in
    let (l, m) = e.fits in
    record {
      size = length-memcpy d.buf bs (omega (arith, v.size, b, m)) ∙ b ∙ v.size ∙ sym cap;
      order = omega (arith, e.same.buf_s);
      within = omega (arith, cap, m);
      cells = omega (arith, cap, v.cells);
    }

-- On a closed `out` the loop sends nothing, and returns 0 only where nothing is left to do.
pub copy_closed :
    (fuel len : ℕ) (p : Pair)
    → len ≤ fuel
    → is_closed p.out.stat ≡ true
    → Keeps
        (λ (ok : Bool) (q : Pair). (q.out ≡ p.out) × (ok ≡ true → (len ≡ 0) × (q ≡ p)))
        (λ (q : Pair). q.out ≡ p.out)
        (copy_loop fuel len p)
unfolding copy_loop
copy_closed zero len p h shut =
    Keeps-if (len == 0) (λ e. ends (refl, λ _. (ground arith, refl))) (λ e. absurd (ground arith))
copy_closed (suc fuel) len p h shut =
    Keeps-if (len == 0) (λ e. ends (refl, λ _. (ground arith, refl)))
      (λ some_left.
        Keeps-bind
          (Keeps-mono
            (lift_inp (conn_recv p.inp.buf_cap (emptied p.inp, p.world)) p
              (conn_recv_lem p.inp.buf_cap (emptied p.inp) p.world))
            (λ o q d. d) (λ q d. d.1))
          (elim [
            | none ↦ λ q d. ends (d.1, λ e. absurd (cc))
            | some bs ↦ λ q d.
                let out : is_closed q.out.stat ≡ true =
                  ap (λ (c : Conn). is_closed c.stat) d.1 ∙ shut in
                rw
                  (on_out_closed (take (min (length bs) len) bs)
                    (record q { inp = filled q.inp bs }) out)
                  (ends (d.1, λ e. absurd (cc)))
          ]))
