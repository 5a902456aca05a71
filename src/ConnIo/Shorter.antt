-- ===== src/ConnIo/Shorter.antt =====
-- core/conn_io.c, conn_gets: a line that is read leaves less to read.
use http_proxy.Prelude.{
  ℕ, zero, suc, ◌+◌, ◌-◌, ◌≤◌, ◌<◌, ◌≡◌, ap, ◌⊎◌, inl, inr, false, List, arith, ℤ, pos, suc_ℤ,
  pred_ℤ, is_minus_one, ◌==◌, Bool-cases, length, ◌||◌, drop, length-append, length-take,
  length-drop,
}
use http_proxy.Run.{Keeps, ends, Keeps-if, Keeps-bind}
use http_proxy.Strbuf.{Strbuf, strbuf_append}
use http_proxy.Conn.{Conn, World}
use http_proxy.ConnIo.{
  State, stream, pending, arriving, to_char, cr, lf, conn_ungetc, end_of_line, gets_loop, conn_gets,
}
use http_proxy.ConnIo.Buffer.{IsBuffered, GotByte, GotNone, conn_getc_lem}

length-stream :
    (c : Conn) → IsBuffered c → length (stream c) ≡ (c.buf_e - c.buf_s) + length (arriving c.recvs)
unfolding stream
length-stream c v =
    let n = c.buf_e - c.buf_s in
    omega (
      arith,
      length-append (pending c) (arriving c.recvs),
      length-take n (drop c.buf_s c.buf),
      length-drop c.buf_s c.buf,
      v.size,
      v.within,
    )

pub ungetc-IsBuffered : (c : Conn) → IsBuffered c → IsBuffered (conn_ungetc c)
unfolding conn_ungetc
ungetc-IsBuffered c v = elim (Bool-cases (c.buf_s == 0)) [
  | inl none ↦ rw none v
  | inr some ↦
      rw some (record {
        size = v.size;
        order = omega (arith, v.order);
        within = v.within;
        cells = v.cells;
      })
]

length-ungetc : (c : Conn) → IsBuffered c → length (stream (conn_ungetc c)) ≤ length (stream c) + 1
unfolding conn_ungetc
length-ungetc c v = elim (Bool-cases (c.buf_s == 0)) [
  | inl none ↦ rw none (omega arith)
  | inr some ↦
      let d : Conn = record c { buf_s = c.buf_s - 1; rx = pred_ℤ c.rx } in
      let w : IsBuffered d = record {
        size = v.size;
        order = omega (arith, v.order);
        within = v.within;
        cells = v.cells;
      } in
      rw some (omega (arith, length-stream c v, length-stream d w))
]

-- The read buffer is in order, and where the result is not -1, fewer than `k` bytes are left to read.
abbrev pub Shorter : ℕ → ℤ × Strbuf → State → Type 0
Shorter k (ret, b) s = IsBuffered s.0 × (is_minus_one ret ≡ false → length (stream s.0) < k)

pub shorter :
    (c d : Conn) (z : ℤ) (k : ℕ)
    → GotByte c z d ⊎ GotNone c z d
    → is_minus_one z ≡ false
    → length (stream c) < suc k
    → length (stream d) < k
shorter c d z k (inl (x, e, f)) ne h = omega (arith, ap length f)
shorter c d z k (inr (e, _, _)) ne h = absurd (cc (ap is_minus_one e))

end_of_line-Shorter :
    (ch ret : ℤ) (b : Strbuf) (c : Conn) (w : World) (k : ℕ)
    → IsBuffered c
    → length (stream c) < k
    → Keeps (Shorter k) (λ _. Unit {0}) (end_of_line ch ret b (c, w))
unfolding end_of_line
end_of_line-Shorter ch ret b c w k v h =
    Keeps-if (to_char ch == cr)
      (λ _. Keeps-bind (conn_getc_lem c w v) λ next s g.
        Keeps-if (is_minus_one next) (λ _. ends (g.0, λ e. absurd (cc)))
          (λ some_char.
            let left = shorter c s.0 next (k - 1) g.1 some_char (omega arith) in
            Keeps-if (to_char next == lf) (λ _. ends (g.0, λ _. omega arith))
              (λ _. ends (ungetc-IsBuffered s.0 g.0, λ _. omega (arith, length-ungetc s.0 g.0)))))
      (λ _. ends (v, λ _. h))

gets_loop-Shorter :
    (malloc : ℕ → List ℕ) (len_limit fuel : ℕ) (ret : ℤ) (b : Strbuf) (c : Conn) (w : World) (k : ℕ)
    → IsBuffered c
    → length (stream c) < fuel
    → length (stream c) ≤ k
    → Keeps (Shorter k) (λ _. Unit {0}) (gets_loop malloc fuel len_limit ret b (c, w))
unfolding gets_loop
gets_loop-Shorter malloc len_limit zero ret b c w k v more h = elim more [ ]
gets_loop-Shorter malloc len_limit (suc n) ret b c w k v more h =
    Keeps-if (b.len + 1 == len_limit) (λ _. ends (v, λ e. absurd (cc)))
      (λ free. Keeps-bind (conn_getc_lem c w v) λ ch s g.
        Keeps-if (is_minus_one ch) (λ _. ends (g.0, λ e. absurd (cc)))
          (λ fine.
            let left = shorter c s.0 ch (length (stream c)) g.1 fine (omega arith) in
            Keeps-if ((to_char ch == cr) || (to_char ch == lf))
              (λ _. end_of_line-Shorter ch ret b s.0 s.1 k g.0 (omega arith))
              (λ _.
                gets_loop-Shorter malloc len_limit n (suc_ℤ ret)
                  (strbuf_append malloc b (to_char ch)) s.0 s.1 k g.0 (omega arith) (omega arith))))

pub conn_gets-Shorter :
    (malloc : ℕ → List ℕ) (len_limit : ℕ) (b : Strbuf) (c : Conn) (w : World)
    → IsBuffered c
    → Keeps (Shorter (length (stream c))) (λ _. Unit {0}) (conn_gets malloc len_limit b (c, w))
unfolding conn_gets
conn_gets-Shorter malloc len_limit b c w v =
    gets_loop-Shorter malloc len_limit (suc (length (stream c))) (pos 0) b c w (length (stream c)) v
      (omega arith) (omega arith)
