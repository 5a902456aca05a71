-- ===== src/ConnIo/Lines.antt =====
-- core/conn_io.c, conn_gets: reading a line.
use http_proxy.Prelude.{
  ℕ, zero, suc, ◌+◌, ◌≤◌, ◌<◌, ◌≡◌, false, List, arith, ℤ, pos, suc_ℤ, is_minus_one, ◌==◌, length,
  ◌||◌,
}
use http_proxy.Run.{Keeps, ends, Keeps-if, Keeps-bind}
use http_proxy.Strbuf.{Strbuf, strbuf_append}
use http_proxy.Strbuf.Laws.{IsValid, strbuf_append_lem}
use http_proxy.Strbuf.Bounds.{len-strbuf_append}
use http_proxy.Conn.{Conn, World}
use http_proxy.ConnIo.{State, stream, to_char, cr, lf, end_of_line, gets_loop, conn_gets}
use http_proxy.ConnIo.Buffer.{IsBuffered, conn_getc_lem}
use http_proxy.ConnIo.Shorter.{shorter, ungetc-IsBuffered}

-- The read buffer is in order, and the text is valid, no shorter than `low` and short of the limit:
-- by another byte where the result is not -1.
abbrev pub InBounds : ℕ → ℕ → ℤ × Strbuf → State → Type 0
InBounds low len_limit (ret, b) s =
    IsBuffered s.0
    × IsValid b
    × (low ≤ b.len)
    × (b.len + 1 ≤ len_limit)
    × (is_minus_one ret ≡ false → b.len + 2 ≤ len_limit)

module _ (malloc : ℕ → List ℕ) (fresh : (n : ℕ) → length (malloc n) ≡ n) (low len_limit : ℕ) where
  end_of_line-InBounds :
      (ch ret : ℤ) (b : Strbuf) (c : Conn) (w : World)
      → IsBuffered c
      → IsValid b
      → low ≤ b.len
      → b.len + 2 ≤ len_limit
      → Keeps (InBounds low len_limit) (λ _. Unit {0}) (end_of_line ch ret b (c, w))
  unfolding end_of_line
  end_of_line-InBounds ch ret b c w v x l h =
      Keeps-if (to_char ch == cr)
        (λ _. Keeps-bind (conn_getc_lem c w v) λ next s g.
          Keeps-if (is_minus_one next) (λ _. ends (g.0, x, l, omega arith, λ _. h))
            (λ _.
              Keeps-if (to_char next == lf) (λ _. ends (g.0, x, l, omega arith, λ _. h))
                (λ _. ends (ungetc-IsBuffered s.0 g.0, x, l, omega arith, λ _. h))))
        (λ _. ends (v, x, l, omega arith, λ _. h))

  gets_loop-InBounds :
      (fuel : ℕ) (ret : ℤ) (b : Strbuf) (c : Conn) (w : World)
      → IsBuffered c
      → IsValid b
      → low ≤ b.len
      → b.len + 1 ≤ len_limit
      → length (stream c) < fuel
      → Keeps
          (InBounds low len_limit)
          (λ _. Unit {0})
          (gets_loop malloc fuel len_limit ret b (c, w))
  unfolding gets_loop
  gets_loop-InBounds zero ret b c w v x l h more = elim more [ ]
  gets_loop-InBounds (suc k) ret b c w v x l h more =
      Keeps-if (b.len + 1 == len_limit) (λ _. ends (v, x, l, h, λ e. absurd (cc)))
        (λ free. Keeps-bind (conn_getc_lem c w v) λ ch s g.
          Keeps-if (is_minus_one ch) (λ _. ends (g.0, x, l, h, λ e. absurd (cc)))
            (λ fine.
              Keeps-if ((to_char ch == cr) || (to_char ch == lf))
                (λ _. end_of_line-InBounds ch ret b s.0 s.1 g.0 x l (ground arith))
                (λ _.
                  gets_loop-InBounds k (suc_ℤ ret) (strbuf_append malloc b (to_char ch)) s.0 s.1 g.0
                    (strbuf_append_lem malloc fresh b (to_char ch) x).0
                    (omega (arith, len-strbuf_append malloc b (to_char ch)))
                    (ground (arith, len-strbuf_append malloc b (to_char ch)))
                    (shorter c s.0 ch k g.1 fine more))))

  -- Whatever the environment answers, conn_gets does not run on: it returns or still waits. When it
  -- returns, the read buffer is in order and the text is no shorter than before and, NUL included,
  -- within the limit that it was within before; one byte more is left when the result is not -1.
  pub conn_gets-InBounds :
      (b : Strbuf) (c : Conn) (w : World)
      → IsBuffered c
      → IsValid b
      → low ≤ b.len
      → b.len + 1 ≤ len_limit
      → Keeps (InBounds low len_limit) (λ _. Unit {0}) (conn_gets malloc len_limit b (c, w))
  unfolding conn_gets
  conn_gets-InBounds b c w v x l h =
      gets_loop-InBounds (suc (length (stream c))) (pos 0) b c w v x l h (omega arith)
