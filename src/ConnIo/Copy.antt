-- ===== src/ConnIo/Copy.antt =====
-- core/conn_io.c, conn_copy: its loop.
use http_proxy.Prelude.{
  ℕ, zero, suc, ◌-◌, ◌≤◌, ◌<◌, ◌≡◌, refl, sym, ap, subst, ◌∙◌, inl, inr, Bool, true, false, none,
  some, List, [], ◌++◌, arith, ◌==◌, if◌then◌else◌, length, take, drop, min, length-take,
  take-append-drop, drop_all,
}
use mathlib.Core.List.{append_assoc, append-nil}
use http_proxy.Run.{Run, done, and_then, Keeps, ends, Keeps-if, Keeps-bind, Keeps-mono}
use http_proxy.Conn.{Conn, World}
use http_proxy.ConnIo.{
  Pair, arriving, pending, stream, conn_recv, conn_write, on_out, consume, copy_loop,
}
use http_proxy.ConnIo.Receive.{Delivers, conn_recv_lem}
use http_proxy.ConnIo.Buffer.{IsBuffered, close-is_closed, emptied}
use http_proxy.ConnIo.Writing.{Wrote, WroteAll, conn_write_lem}
use http_proxy.ConnIo.Moving.{
  Passed, Moved, lift_inp, lift_out, Moved-more, passed_more, passed_none, passed_part,
}
use http_proxy.ConnIo.Blocks.{filled, pending-consume, consume-IsBuffered}

front_of :
    (n : ℕ) (p : Pair) (d : Conn) (w : World) (bs : List ℕ)
    → pending p.inp ≡ []
    → Delivers p.inp.buf_cap p.inp.recvs (emptied p.inp) (some bs) (d, w)
    → stream p.inp ≡ take n bs ++ (drop n bs ++ arriving d.recvs)
unfolding stream
front_of n p d w bs none_left e =
    ap (λ (x : List ℕ). x ++ arriving p.inp.recvs) none_left
    ∙ e.next
    ∙ ap (λ (x : List ℕ). x ++ arriving d.recvs) (sym (take-append-drop n bs))
    ∙ append_assoc (take n bs) (drop n bs) (arriving d.recvs)

-- A conn_write of the chunk `x`, from the state `m` in which `out` is what it was in `p`.
module _ (len : ℕ) (p m t : Pair) (x y : List ℕ) (same : m.out ≡ p.out)
    (front : stream p.inp ≡ x ++ y) (most : length x ≤ len) where
  pub wrote-Passed : Wrote x m.out t.out → Passed len p t
  wrote-Passed e =
      passed_part len p t x y e.part e.rest front e.split
        (e.out ∙ ap (λ (c : Conn). c.sent ++ e.part) same) most

  failed-Moved : WroteAll x m.out false (t.out, t.world) → Moved len p false t
  failed-Moved e = record {
    passed = wrote-Passed e.wrote;
    whole = λ k. absurd (cc);
    kept = λ k. absurd (cc);
    shut = λ _. inr (e.shut refl);
  }

  sent_whole : WroteAll x m.out true (t.out, t.world) → t.out.sent ≡ p.out.sent ++ x
  sent_whole e =
      let k : x ≡ e.wrote.part =
        e.wrote.split
        ∙ ap (λ (z : List ℕ). e.wrote.part ++ z) (e.whole refl)
        ∙ append-nil e.wrote.part in
      e.wrote.out
      ∙ ap (λ (c : Conn). c.sent ++ e.wrote.part) same
      ∙ ap (λ (z : List ℕ). p.out.sent ++ z) (sym k)

-- A conn_write of the next `n` bytes, and what the code does then: where it has succeeded, the work that is
-- left is done from the state in which these bytes are consumed.
module _ (len n : ℕ) (p m : Pair) (x y : List ℕ) (cont : Bool → Pair → Run Pair Bool)
    (same : m.out ≡ p.out) (front : stream p.inp ≡ x ++ y) (size : length x ≡ n) (le : n ≤ len)
    (left : stream (consume n m.inp) ≡ y) where
  pub chunk_lem :
      ((t : Pair)
        → t.inp ≡ m.inp
        → Keeps
            (Moved (len - n) (record t { inp = consume n t.inp }))
            (Passed (len - n) (record t { inp = consume n t.inp }))
            (cont true t))
      → ((t : Pair)
          → t.inp ≡ m.inp
          → WroteAll x m.out false (t.out, t.world)
          → Keeps (Moved len p) (Passed len p) (cont false t))
      → Keeps (Moved len p) (Passed len p) (and_then (on_out (conn_write x) m) cont)
  chunk_lem good bad =
      Keeps-bind
        (Keeps-mono (lift_out (conn_write x (m.out, m.world)) m (conn_write_lem x m.out m.world))
          (λ ok t w. w) (λ t w. wrote-Passed len p m t x y same front (omega (arith, size)) w.0))
        (elim [
          | false ↦ λ t w. bad t w.1 w.0
          | true ↦ λ t w.
              let t' : Pair = record t { inp = consume n t.inp } in
              let out = sent_whole len p m t x y same front (omega (arith, size)) w.0 in
              let s = ap (λ (c : Conn). stream (consume n c)) w.1 ∙ left in
              let front' = front ∙ ap (λ (z : List ℕ). x ++ z) (sym s) in
              Keeps-mono (good t w.1) (λ ok r. Moved-more len p t' r ok x n front' out size le)
                (λ r. passed_more len p t' r x n front' out size le)
        ])

nothing-Moved : (len : ℕ) (p : Pair) → len ≡ 0 → IsBuffered p.inp → Moved len p true p
unfolding passed_none
nothing-Moved len p e v = record {
  passed = passed_none len p p refl;
  whole = λ _. ([], sym e, refl, inl refl);
  kept = λ _. v;
  shut = λ e. absurd (cc);
}

-- The next block has come: its first `n` bytes are written.
module _ (len : ℕ) (p : Pair) (pos : 0 < len) (v : IsBuffered p.inp)
    (read_all : pending p.inp ≡ []) where
  block_lem :
      (bs : List ℕ) (q : Pair) (rest : Pair → Run Pair Bool)
      → Delivers p.inp.buf_cap p.inp.recvs (emptied p.inp) (some bs) (q.inp, q.world)
      → q.out ≡ p.out
      → ((t : Pair)
          → IsBuffered t.inp
          → (0 < len - min (length bs) len → pending t.inp ≡ [])
          → Keeps
              (Moved (len - min (length bs) len) t)
              (Passed (len - min (length bs) len) t)
              (rest t))
      → Keeps (Moved len p) (Passed len p) (
          and_then
            (on_out
              (conn_write (take (min (length bs) len) bs))
              (record q { inp = filled q.inp bs }))
            (λ ok t.
              if ok
              then rest (record t { inp = consume (min (length bs) len) t.inp })
              else done false t))
  unfolding stream
  block_lem bs q rest e same ih =
      let n = min (length bs) len in
      let y = drop n bs ++ arriving q.inp.recvs in
      let m : Pair = record q { inp = filled q.inp bs } in
      let size : length (take n bs) ≡ n = omega (arith, length-take n bs) in
      let front = front_of n p q.inp q.world bs read_all e in
      let used = pending-consume n q.inp bs e.same.buf_s (omega arith) in
      let left = ap (λ (x : List ℕ). x ++ arriving q.inp.recvs) used in
      let none_left : 0 < len - n → pending (consume n m.inp) ≡ [] =
        λ more. used ∙ drop_all n bs (omega arith) in
      let v' = consume-IsBuffered n p.inp q.inp q.world bs v e (omega arith) in
      chunk_lem len n p m (take n bs) y _ same front size (omega arith) left
        (λ t f.
          ih (record t { inp = consume n t.inp })
            (subst (λ (c : Conn). IsBuffered (consume n c)) (sym f) v')
            (subst (λ (c : Conn). 0 < len - n → pending (consume n c) ≡ []) (sym f) none_left))
        (λ t f w. ends (failed-Moved len p m t (take n bs) y same front (omega (arith, size)) w))

pub copy_loop_lem :
    (fuel len : ℕ) (p : Pair)
    → len ≤ fuel
    → IsBuffered p.inp
    → (0 < len → pending p.inp ≡ [])
    → Keeps (Moved len p) (Passed len p) (copy_loop fuel len p)
unfolding copy_loop
copy_loop_lem zero len p h v read_all =
    Keeps-if (len == 0) (λ e. ends (nothing-Moved len p (ground arith) v))
      (λ e. absurd (ground arith))
copy_loop_lem (suc fuel) len p h v read_all =
    Keeps-if (len == 0) (λ e. ends (nothing-Moved len p (ground arith) v))
      (λ some_left.
        Keeps-bind
          (Keeps-mono
            (lift_inp (conn_recv p.inp.buf_cap (emptied p.inp, p.world)) p
              (conn_recv_lem p.inp.buf_cap (emptied p.inp) p.world))
            (λ o q d. d) (λ q d. passed_none len p q (ap (λ (c : Conn). c.sent) d.1)))
          (elim [
            | none ↦ λ q d. ends (record {
              passed = passed_none len p _ (ap (λ (c : Conn). c.sent) d.1);
              whole = λ e. absurd (cc);
              kept = λ e. absurd (cc);
              shut = λ _. inl (close-is_closed q.inp q.world);
            })
            | some bs ↦ λ q d.
                let pos : 0 < len = ground arith in
                let fits = d.0.fits in
                block_lem len p pos v (read_all pos) bs q
                  (copy_loop fuel (len - min (length bs) len)) d.0 d.1
                  (λ t. copy_loop_lem fuel (len - min (length bs) len) t (omega (arith, fits.0)))
          ]))
