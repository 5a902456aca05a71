-- ===== src/ConnIo/CopyAll.antt =====
-- core/conn_io.c, conn_copy as a whole: the bytes that wait in the read buffer, then its loop.
use http_proxy.Prelude.{
  ℕ, ◌+◌, ◌-◌, ◌≤◌, ◌<◌, ◌≡◌, refl, sym, ap, subst, ◌∙◌, inr, true, false, List, [], ◌++◌, arith,
  ltb, length, take, drop, min, length-take, length-drop, take-append-drop, take-take, drop-take,
  drop-drop,
}
use mathlib.Core.List.{append_assoc}
use http_proxy.Run.{Keeps, Keeps-if, Keeps-mono}
use http_proxy.Conn.{Conn, is_closed}
use http_proxy.ConnIo.{Pair, arriving, pending, stream, consume, copy_loop, conn_copy}
use http_proxy.ConnIo.Buffer.{IsBuffered, pending_empty}
use http_proxy.ConnIo.Writing.{WroteAll}
use http_proxy.ConnIo.Moving.{Passed, Moved, passed_part}
use http_proxy.ConnIo.Blocks.{copy_closed}
use http_proxy.ConnIo.Copy.{chunk_lem, copy_loop_lem}

-- The first `n` of the bytes that wait, and what waits behind them.
split_pending :
    (n : ℕ) (c : Conn)
    → n ≤ c.buf_e - c.buf_s
    → pending c ≡ take n (drop c.buf_s c.buf) ++ pending (consume n c)
split_pending n c h =
    let avail = c.buf_e - c.buf_s in
    let xs = drop c.buf_s c.buf in
    let e : c.buf_e - (c.buf_s + n) ≡ avail - n = omega arith in
    sym (take-append-drop n (take avail xs))
    ∙ ap (λ (x : List ℕ). x ++ drop n (take avail xs)) (take-take n avail xs h)
    ∙ ap (λ (x : List ℕ). take n xs ++ x)
        (drop-take n avail xs h
          ∙ ap (take (avail - n)) (drop-drop n c.buf_s c.buf)
          ∙ ap (λ (i : ℕ). take i (drop (c.buf_s + n) c.buf)) (sym e))

consumed-IsBuffered :
    (n : ℕ) (c : Conn)
    → IsBuffered c
    → n ≤ c.buf_e - c.buf_s
    → c.buf_s < c.buf_e
    → IsBuffered (consume n c)
consumed-IsBuffered n c v h l = record {
  size = v.size;
  order = omega arith;
  within = v.within;
  cells = v.cells;
}

-- The write of the bytes that waited has failed: the loop goes on, and sends nothing.
module _ (len n : ℕ) (p t : Pair) (x y : List ℕ) (front : stream p.inp ≡ x ++ y)
    (size : length x ≡ n) (le : n ≤ len) (left : stream t.inp ≡ y) where
  shut_out :
      IsBuffered t.inp
      → WroteAll x p.out false (t.out, t.world)
      → Keeps (Moved len p) (Passed len p) (copy_loop len (len - n) t)
  shut_out v w =
      let shut = w.shut refl in
      let passed : (q : Pair) → q.out ≡ t.out → Passed len p q = λ q o.
        passed_part len p q x y w.wrote.part w.wrote.rest front w.wrote.split
          (ap (λ (c : Conn). c.sent) o ∙ w.wrote.out) (omega (arith, size)) in
      let closed : (q : Pair) → q.out ≡ t.out → is_closed q.out.stat ≡ true =
        λ q o. ap (λ (c : Conn). is_closed c.stat) o ∙ shut in
      Keeps-mono (copy_closed len (len - n) t (omega arith) shut)
        (λ ok q h. record {
          passed = passed q h.0;
          whole = λ e.
              let (none_left, same) = h.1 e in
              (
                x,
                omega (arith, size, none_left),
                front
                    ∙ ap (λ (z : List ℕ). x ++ z) (sym left)
                    ∙ ap (λ (r : Pair). x ++ stream r.inp) (sym same),
                inr (closed q h.0),
              );
          kept = λ e. subst (λ (r : Pair). IsBuffered r.inp) (sym (h.1 e).1) v;
          shut = λ _. inr (closed q h.0);
        })
        passed

-- Whatever the environment answers, conn_copy ends or still waits, and what it has sent is the front of
-- what its input brings, at most `len` bytes of it. When it returns 0 it has read `len` bytes off its
-- input, and they are what it has sent unless its output is closed; when it returns -1 one of the two
-- connections is closed.
pub conn_copy_lem :
    (len : ℕ) (p : Pair) → IsBuffered p.inp → Keeps (Moved len p) (Passed len p) (conn_copy len p)
unfolding conn_copy stream
conn_copy_lem len p v =
    Keeps-if (ltb p.inp.buf_s p.inp.buf_e)
      (λ waiting.
        let avail = p.inp.buf_e - p.inp.buf_s in
        let n = min avail len in
        let x = take n (drop p.inp.buf_s p.inp.buf) in
        let split = split_pending n p.inp (omega arith) in
        let y = pending (consume n p.inp) ++ arriving p.inp.recvs in
        let front =
          ap (λ (z : List ℕ). z ++ arriving p.inp.recvs) split
          ∙ append_assoc x (pending (consume n p.inp)) (arriving p.inp.recvs) in
        let some_left : p.inp.buf_s < p.inp.buf_e = ground arith in
        let v' = consumed-IsBuffered n p.inp v (omega arith) some_left in
        let size : length x ≡ n = omega (
          arith,
          length-take n (drop p.inp.buf_s p.inp.buf),
          length-drop p.inp.buf_s p.inp.buf,
          v.size,
          v.within,
        ) in
        chunk_lem len n p p x y
          (λ ok q. copy_loop len (len - n) (record q { inp = consume n q.inp })) refl front size
          (omega arith) refl
          (λ t f.
            copy_loop_lem len (len - n) (record t { inp = consume n t.inp }) (omega arith)
              (subst (λ (c : Conn). IsBuffered (consume n c)) (sym f) v')
              (subst (λ (c : Conn). 0 < len - n → pending (consume n c) ≡ []) (sym f)
                (λ more. pending_empty (consume n p.inp) (ground arith))))
          (λ t f w.
            let t' : Pair = record t { inp = consume n t.inp } in
            let s = ap (λ (c : Conn). stream (consume n c)) f in
            shut_out len n p t' x y front size (omega arith) s
              (subst (λ (c : Conn). IsBuffered (consume n c)) (sym f) v') w))
      (λ idle. copy_loop_lem len len p (omega arith) v (λ _. pending_empty p.inp idle))
