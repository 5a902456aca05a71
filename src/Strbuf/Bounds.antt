-- ===== src/Strbuf/Bounds.antt =====
-- core/strbuf.c: the block stays in proportion to the longest text, so `cap *= 2` does not overflow.
use http_proxy.Prelude.{ℕ, ◌+◌, ◌*◌, ◌≤◌, ◌<◌, ◌≡◌, List, [], ◌∷◌, arith, length}
use http_proxy.Libc.{c_str}
use http_proxy.Strbuf.{Strbuf, strbuf_grow, strbuf_put, strbuf_append, strbuf_cat}

module _ (malloc : ℕ → List ℕ) where
  -- While the text stays within n bytes, the block stays within 2 * n.
  pub cap-strbuf_append :
      (n : ℕ) (b : Strbuf) (ch : ℕ)
      → b.cap ≤ 2 * n
      → b.len < n
      → (strbuf_append malloc b ch).cap ≤ 2 * n
  unfolding strbuf_append strbuf_grow strbuf_put
  cap-strbuf_append n b ch h k = ground arith

  pub len-strbuf_append : (b : Strbuf) (ch : ℕ) → (strbuf_append malloc b ch).len ≡ b.len + 1
  unfolding strbuf_append strbuf_grow strbuf_put
  len-strbuf_append b ch = ground arith

  pub len-strbuf_cat :
      (b : Strbuf) (s : List ℕ) → (strbuf_cat malloc b s).len ≡ b.len + length (c_str s)
  unfolding strbuf_cat c_str
  len-strbuf_cat b [] = omega arith
  len-strbuf_cat b (c ∷ s) =
      ground (arith, len-strbuf_cat (strbuf_append malloc b c) s, len-strbuf_append b c)

  -- The block of a buffer that starts within twice n bytes stays within twice n bytes while the
  -- text, with what is appended, stays within n.
  pub cap-strbuf_cat :
      (n : ℕ) (b : Strbuf) (s : List ℕ)
      → b.cap ≤ 2 * n
      → b.len + length (c_str s) ≤ n
      → (strbuf_cat malloc b s).cap ≤ 2 * n
  unfolding strbuf_cat c_str
  cap-strbuf_cat n b [] h k = h
  cap-strbuf_cat n b (c ∷ s) h k = ground (
    arith,
    cap-strbuf_cat n (strbuf_append malloc b c) s,
    len-strbuf_append b c,
    cap-strbuf_append n b c,
  )
