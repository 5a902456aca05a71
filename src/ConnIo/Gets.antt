-- ===== src/ConnIo/Gets.antt =====
-- core/conn_io.c, conn_gets: what it returns for a line, and for a line with byte 255 in it.
use http_proxy.Prelude.{
  ℕ, suc, ◌+◌, ◌<◌, ◌≡◌, refl, sym, ap, subst, ◌⊎◌, inl, inr, List, ◌∷◌, ◌++◌, arith, ℤ, pos,
  negsuc, ◌==◌, length, length-append,
}
use http_proxy.Run.{Returns, returns, Returns-bind, Returns-if}
use http_proxy.Strbuf.{Strbuf}
use http_proxy.Strbuf.Laws.{IsValid}
use http_proxy.Conn.{Conn, World}
use http_proxy.ConnIo.{State, stream, cr, lf, end_of_line, gets_loop, conn_gets}
use http_proxy.ConnIo.Buffer.{IsBuffered}
use http_proxy.ConnIo.Live.{IsLive, conn_getc-IsLive}
use http_proxy.ConnIo.Text.{IsPlainText, rounds, rounds_lem, HasRead, gets_plain}

-- The line has been read, with the number `k` returned.
abbrev pub Reads : ℤ → Strbuf → List ℕ → List ℕ → ℤ × Strbuf → State → Type 0
Reads k b l rest r s = (r.0 ≡ k) × HasRead b l rest r.1 s

module _ (malloc : ℕ → List ℕ) (len_limit : ℕ) (k : ℤ) (b b' : Strbuf) (l rest : List ℕ) (fuel : ℕ)
    (c : Conn) (w : World) where
  at_lf :
      HasRead b l (lf ∷ rest) b' (c, w)
      → b'.len + 1 < len_limit
      → Returns (Reads k b l rest) (gets_loop malloc (suc fuel) len_limit k b' (c, w))
  unfolding gets_loop end_of_line
  at_lf r h =
      Returns-if (b'.len + 1 == len_limit) (λ full. absurd (ground arith))
        (λ _.
          Returns-bind (conn_getc-IsLive c w lf rest r.buffered r.live r.rest)
            λ ch s (is, rest', v, live). rw is (
              returns (
                refl,
                record {
                  rest = rest';
                  buffered = v;
                  live = live;
                  valid = r.valid;
                  text = r.text;
                  len = r.len;
                },
              )))

  at_crlf :
      HasRead b l (cr ∷ lf ∷ rest) b' (c, w)
      → b'.len + 1 < len_limit
      → Returns (Reads k b l rest) (gets_loop malloc (suc fuel) len_limit k b' (c, w))
  unfolding gets_loop end_of_line
  at_crlf r h =
      Returns-if (b'.len + 1 == len_limit) (λ full. absurd (ground arith))
        (λ _.
          Returns-bind (conn_getc-IsLive c w cr (lf ∷ rest) r.buffered r.live r.rest)
            λ ch s (is, rest', v, live). rw is (
              Returns-bind (conn_getc-IsLive s.0 s.1 lf rest v live rest')
                λ next t (is', rest₂, v₂, live₂). rw is' (
                  returns (
                    refl,
                    record {
                      rest = rest₂;
                      buffered = v₂;
                      live = live₂;
                      valid = r.valid;
                      text = r.text;
                      len = r.len;
                    },
                  ))))

  at_minus_one :
      HasRead b l (255 ∷ rest) b' (c, w)
      → b'.len + 1 < len_limit
      → Returns (Reads (negsuc 0) b l rest) (gets_loop malloc (suc fuel) len_limit k b' (c, w))
  unfolding gets_loop
  at_minus_one r h =
      Returns-if (b'.len + 1 == len_limit) (λ full. absurd (ground arith))
        (λ _.
          Returns-bind (conn_getc-IsLive c w 255 rest r.buffered r.live r.rest)
            λ ch s (is, rest', v, live). rw is (
              returns (
                refl,
                record {
                  rest = rest';
                  buffered = v;
                  live = live;
                  valid = r.valid;
                  text = r.text;
                  len = r.len;
                },
              )))

module _ (malloc : ℕ → List ℕ) (fresh : (n : ℕ) → length (malloc n) ≡ n) (len_limit : ℕ)
    (b : Strbuf) (l rest : List ℕ) (c : Conn) (w : World) where
  -- The fuel of conn_gets covers the text and at least one byte more.
  from_start :
      {R : ℤ × Strbuf → State → Type 0} (end : List ℕ)
      → IsPlainText l
      → IsBuffered c
      → IsLive (c, w)
      → IsValid b
      → stream c ≡ l ++ end
      → b.len + length l + 1 < len_limit
      → ((b' : Strbuf) (s : State)
          → HasRead b l end b' s
          → Returns R (gets_loop malloc (suc (length end)) len_limit (pos (length l)) b' s))
      → Returns R (conn_gets malloc len_limit b (c, w))
  unfolding conn_gets
  from_start {R} end p v live x e h next =
      let f : rounds l (suc (length end)) ≡ suc (length (stream c)) =
        omega (arith, rounds_lem l (suc (length end)), ap length e, length-append l end) in
      subst (λ (i : ℕ). Returns R (gets_loop malloc i len_limit (pos 0) b (c, w))) f
        (gets_plain malloc fresh len_limit l end (suc (length end)) 0 b c w p v live x e h λ b' s r.
          let k : 0 + length l ≡ length l = omega arith in
          subst (λ (i : ℕ). Returns R (gets_loop malloc (suc (length end)) len_limit (pos i) b' s))
            (sym k) (next b' s r))

  -- On a live connection whose next bytes are a text without CR, LF and byte 255, then LF or CR LF,
  -- and with room for the text below the limit, conn_gets returns the length of the text, appends
  -- the text to the buffer and leaves the connection behind the line end: however the bytes are cut
  -- into blocks and whatever number of times it has to wait for them.
  pub conn_gets-line :
      (end : List ℕ)
      → (end ≡ lf ∷ rest) ⊎ (end ≡ cr ∷ lf ∷ rest)
      → IsPlainText l
      → IsBuffered c
      → IsLive (c, w)
      → IsValid b
      → stream c ≡ l ++ end
      → b.len + length l + 1 < len_limit
      → Returns (Reads (pos (length l)) b l rest) (conn_gets malloc len_limit b (c, w))
  conn_gets-line end (inl at) p v live x e h = from_start end p v live x e h λ b' s r.
      at_lf malloc len_limit (pos (length l)) b b' l rest (length end) s.0 s.1
        (subst (λ (u : List ℕ). HasRead b l u b' s) at r) (omega (arith, r.len))
  conn_gets-line end (inr at) p v live x e h = from_start end p v live x e h λ b' s r.
      at_crlf malloc len_limit (pos (length l)) b b' l rest (length end) s.0 s.1
        (subst (λ (u : List ℕ). HasRead b l u b' s) at r) (omega (arith, r.len))

  -- If byte 255 stands in the line, conn_gets returns -1 there although nothing has failed: the
  -- byte is consumed, and the connection is left open.
  pub conn_gets-byte_255 :
      IsPlainText l
      → IsBuffered c
      → IsLive (c, w)
      → IsValid b
      → stream c ≡ l ++ 255 ∷ rest
      → b.len + length l + 1 < len_limit
      → Returns (Reads (negsuc 0) b l rest) (conn_gets malloc len_limit b (c, w))
  conn_gets-byte_255 p v live x e h = from_start (255 ∷ rest) p v live x e h λ b' s r.
      at_minus_one malloc len_limit (pos (length l)) b b' l rest (length (255 ∷ rest)) s.0 s.1 r
        (omega (arith, r.len))
