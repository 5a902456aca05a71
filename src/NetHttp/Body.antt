-- ===== src/NetHttp/Body.antt =====
-- core/net_http.c, net_transfer_body_HTTP_1_1: its loops end.
use http_proxy.Prelude.{
  ℕ, zero, suc, ◌≤◌, ◌<◌, ◌≡◌, refl, ap, ◌∙◌, inl, inr, ◌^◌, Bool, true, false, Option, none, some,
  List, [], ℤ, pos, negsuc, add_ℤ, is_zero, arith, length, take, not,
}
use http_proxy.Prelude.Uthash.{Uthash}
use http_proxy.Libc.{c_str, str_eq, atoi_int}
use http_proxy.Libc.Scan.{sscanf_x, int32, atoi_32, atoi_32-eq}
use http_proxy.Run.{Keeps, ends, Keeps-if, Keeps-bind, Keeps-mono}
use http_proxy.Strbuf.{Strbuf, strbuf_init, strbuf_reset, strbuf_cat}
use http_proxy.Conn.{Conn, is_closed}
use http_proxy.ConnIo.{Pair, stream}
use http_proxy.ConnIo.Buffer.{IsBuffered}
use http_proxy.ConnIo.Moving.{Moved, Passed}
use http_proxy.ConnIo.CopyAll.{conn_copy_lem}
use http_proxy.NetData.{NetHeaderEnt, NetData, net_data_get_ent}
use http_proxy.NetData.Forward.{crlf_text}
use http_proxy.NetHandle.{http_header_maxlen, not_positive}
use http_proxy.NetHttp.{
  head_text, transfer_encoding_text, content_length_text, is_chunked, http_chunk_header_maxlen,
  is_negative, next_chunk, after_chunks, copy_positive, chunk_loop, trailer_loop, chunked_body,
  length_body, net_transfer_body_http_1_1,
}
use http_proxy.NetHttp.Copied.{
  Left, GoesInt, write-Left, shut_write, line-Read, copy-Left, not_minus_one, positive_not,
  copy_int-GoesInt,
}

-- What the loop over the chunks has left.
abbrev LeftChunks : Pair → Option Bool × Strbuf → Pair → Type 0
LeftChunks p r q = r.0 ≡ some true → Left p q

abbrev pub Done : Pair → Option ℤ → Pair → Type 0
Done p ret q = ret ≡ some (pos 0) → Left p q

module _ (malloc : ℕ → List ℕ) where
  -- Where `out` is closed, the loop over the chunks ends in its first round.
  chunk_loop-shut :
      (fuel : ℕ) (b : Strbuf) (p : Pair)
      → IsBuffered p.inp
      → is_closed p.out.stat ≡ true
      → 0 < fuel
      → Keeps (λ r _. r.0 ≡ some false) (λ _. Unit {0}) (chunk_loop malloc fuel b p)
  unfolding chunk_loop
  chunk_loop-shut zero b p v shut more = elim more [ ]
  chunk_loop-shut (suc fuel) b p v shut more =
      Keeps-bind (line-Read malloc http_chunk_header_maxlen (strbuf_reset b) p v)
        (λ (ret, line) q (u, less, same).
          Keeps-if (not_positive ret) (λ _. ends refl)
            (λ _.
              let b₁ = strbuf_cat malloc line crlf_text in
              let still = ap (λ (c : Conn). is_closed c.stat) same ∙ shut in
              Keeps-bind (shut_write (take b₁.len b₁.p) q still)
                (λ ok t no. Keeps-if (not ok) (λ _. ends refl) (λ e. absurd (cc)))))

  next_chunk-Left :
      (p u : Pair) (fuel : ℕ) (b : Strbuf)
      → length (stream u.inp) ≤ length (stream p.inp)
      → 0 < fuel
      → (copied : Option Bool) (t : Pair) → GoesInt u copied t
      → (Left u t → Keeps (LeftChunks t) (λ _. Unit {0}) (chunk_loop malloc fuel b t))
      → Keeps (LeftChunks p) (λ _. Unit {0}) (next_chunk copied (chunk_loop malloc fuel b t) b t)
  next_chunk-Left p u fuel b fewer some_fuel none t g rest = ends (λ e. absurd (cc))
  next_chunk-Left p u fuel b fewer some_fuel (some ok) t g rest =
      Keeps-if ok
        (λ e. elim (g e) [
          | inl left ↦
              Keeps-mono (rest left) (λ r q k f. ((k f).0, omega (arith, (k f).1, left.1, fewer)))
                (λ q _. tt)
          | inr (v, shut) ↦
              Keeps-mono (chunk_loop-shut fuel b t v shut some_fuel) (λ r q no f. absurd (cc))
                (λ q _. tt)
        ])
        (λ _. ends (λ e. absurd (cc)))

  chunk_loop-Left :
      (fuel : ℕ) (b : Strbuf) (p : Pair)
      → IsBuffered p.inp
      → length (stream p.inp) < fuel
      → Keeps (LeftChunks p) (λ _. Unit {0}) (chunk_loop malloc fuel b p)
  unfolding chunk_loop
  chunk_loop-Left zero b p v more = elim more [ ]
  chunk_loop-Left (suc fuel) b p v more =
      Keeps-bind (line-Read malloc http_chunk_header_maxlen (strbuf_reset b) p v)
        (λ (ret, line) q (u, less, _).
          Keeps-if (not_positive ret) (λ _. ends (λ e. absurd (cc)))
            (λ some_text.
              let b₁ = strbuf_cat malloc line crlf_text in
              let l = less (positive_not ret some_text) in
              Keeps-bind (write-Left (take b₁.len b₁.p) q q (u, omega arith)) (λ ok t h.
                Keeps-if (not ok) (λ _. ends (λ e. absurd (cc)))
                  (λ _.
                    let len = sscanf_x (negsuc 0) b₁.p in
                    Keeps-if (is_zero len) (λ _. ends (λ _. (h.0, omega (arith, h.1))))
                      (λ _.
                        Keeps-bind (copy_int-GoesInt (int32 (add_ℤ len 2)) t h.0) (λ copied u' g.
                          next_chunk-Left p t fuel b₁ (omega (arith, h.1)) (omega (arith, l, more))
                            copied u' g
                            (λ left.
                              chunk_loop-Left fuel b₁ u' left.0 (omega (arith, left.1, h.1)))))))))

  trailer_loop-Left :
      (fuel : ℕ) (b : Strbuf) (p : Pair)
      → IsBuffered p.inp
      → length (stream p.inp) < fuel
      → Keeps (λ ret q. ret ≡ pos 0 → Left p q) (λ _. Unit {0}) (trailer_loop malloc fuel b p)
  unfolding trailer_loop
  trailer_loop-Left zero b p v more = elim more [ ]
  trailer_loop-Left (suc fuel) b p v more =
      Keeps-bind (line-Read malloc http_header_maxlen (strbuf_reset b) p v)
        (λ (ret, line) q (u, less, _).
          Keeps-if (is_negative ret) (λ neg. ends (λ e. absurd (cc (ap is_negative e))))
            (λ some_line.
              let b₁ = strbuf_cat malloc line crlf_text in
              let l = less (not_minus_one ret some_line) in
              Keeps-bind (write-Left (take b₁.len b₁.p) q q (u, omega arith)) (λ ok t h.
                Keeps-if (not ok) (λ _. ends (λ e. absurd (cc)))
                  (λ _.
                    Keeps-if (is_zero ret) (λ _. ends (λ _. (h.0, omega (arith, h.1))))
                      (λ _.
                        Keeps-mono (trailer_loop-Left fuel b₁ t h.0 (omega (arith, h.1)))
                          (λ r q' g e. ((g e).0, omega (arith, (g e).1, h.1))) (λ q' _. tt))))))

  after_chunks-Left :
      (p q : Pair) (b : Strbuf) (last : Option Bool)
      → (last ≡ some true → Left p q)
      → Keeps
          (Done p)
          (λ _. Unit {0})
          (after_chunks last (trailer_loop malloc (suc (length (stream q.inp))) b q) q)
  after_chunks-Left p q b none g = ends (λ e. absurd (cc))
  after_chunks-Left p q b (some last) g =
      Keeps-if last
        (λ e.
          let (u, h) = g (ap (λ (b : Bool). some b) e) in
          Keeps-bind (trailer_loop-Left (suc (length (stream q.inp))) b q u (omega arith))
            (λ r t k. ends (λ f. let z : r ≡ pos 0 = cc in ((k z).0, omega (arith, (k z).1, h)))))
        (λ _. ends (λ e. absurd (cc)))

  chunked_body-Left :
      (p : Pair) → IsBuffered p.inp → Keeps (Done p) (λ _. Unit {0}) (chunked_body malloc p)
  unfolding chunked_body
  chunked_body-Left p v =
      Keeps-bind
        (chunk_loop-Left (suc (length (stream p.inp))) (strbuf_init malloc) p v (omega arith))
        (λ (last, b) q g. after_chunks-Left p q b last g)

  copy_positive-Left :
      (len : ℤ) (p : Pair)
      → IsBuffered p.inp
      → Keeps (λ ret q. ret ≡ pos 0 → Left p q) (λ _. Unit {0}) (copy_positive len p)
  copy_positive-Left (pos zero) p h = ends (λ _. (h, omega arith))
  copy_positive-Left (pos (suc n)) p h =
      Keeps-bind (copy-Left (suc n) p h)
        (elim [ true ↦ λ q g. ends (λ _. g refl) | false ↦ λ q g. ends (λ e. absurd (cc)) ])
  copy_positive-Left (negsuc n) p h = ends (λ _. (h, omega arith))

  length_body-Left :
      (v : Option (List ℕ)) (p : Pair)
      → IsBuffered p.inp
      → Keeps (λ ret q. ret ≡ pos 0 → Left p q) (λ _. Unit {0}) (length_body malloc v p)
  unfolding length_body
  length_body-Left none p h = ends (λ _. (h, omega arith))
  length_body-Left (some v) p h = copy_positive-Left (atoi_32 (c_str v)) p h

  -- Whatever the environment answers and whatever the head of the message and the sizes of the chunks
  -- say, net_transfer_body_HTTP_1_1 does not run on: it returns, it still waits, or its behaviour is
  -- undefined. When it returns 0, the read buffer of the source is in order and there is no more to
  -- read than before.
  pub net_transfer_body-Left :
      (T : Uthash str_eq NetHeaderEnt) (d : NetData T.Table) (p : Pair)
      → IsBuffered p.inp
      → Keeps (Done p) (λ _. Unit {0}) (net_transfer_body_http_1_1 malloc T d p)
  unfolding net_transfer_body_http_1_1
  net_transfer_body-Left T d p h =
      Keeps-if (str_eq (c_str d.buf.p) head_text) (λ _. ends (λ _. (h, omega arith)))
        (λ _.
          Keeps-if (is_chunked (net_data_get_ent T malloc [] d transfer_encoding_text))
            (λ _. chunked_body-Left p h)
            (λ _.
              Keeps-bind (length_body-Left (net_data_get_ent T malloc [] d content_length_text) p h)
                (λ ret q k. ends (λ e. k (cc)))))

-- A message that is no HEAD, is not chunked and has a positive Content-Length below 2^31: whatever the
-- environment answers, net_transfer_body_HTTP_1_1 returns or still waits, and what it has sent is the
-- front of what the source brings, at most Content-Length bytes. With 0 it has read exactly that many
-- bytes off the source, and sent them unless the destination is closed; with -1 one of the two
-- connections is closed.
pub net_transfer_body-length :
    (malloc : ℕ → List ℕ) (T : Uthash str_eq NetHeaderEnt) (d : NetData T.Table) (p : Pair)
    (v : List ℕ) (len : ℕ)
    → str_eq (c_str d.buf.p) head_text ≡ false
    → is_chunked (net_data_get_ent T malloc [] d transfer_encoding_text) ≡ false
    → net_data_get_ent T malloc [] d content_length_text ≡ some v
    → atoi_int (c_str v) ≡ pos (suc len)
    → suc len < 2 ^ 31
    → IsBuffered p.inp
    → Keeps
        (λ ret q. (r : ℤ) × (ret ≡ some r) × Moved (suc len) p (is_zero r) q)
        (Passed (suc len) p)
        (net_transfer_body_http_1_1 malloc T d p)
unfolding net_transfer_body_http_1_1 length_body
net_transfer_body-length malloc T d p v len no_head not_chunked has_length e small h =
    let copy : Keeps (λ ret q. Moved (suc len) p (is_zero ret) q) (Passed (suc len) p)
        (copy_positive (pos (suc len)) p) =
      Keeps-bind (conn_copy_lem (suc len) p h)
        (elim [ true ↦ λ q m. ends m | false ↦ λ q m. ends m ]) in
    rw (no_head, not_chunked, has_length, atoi_32-eq (c_str v) (suc len) e small)
      (Keeps-bind copy (λ ret q m. ends (ret, refl, m)))
