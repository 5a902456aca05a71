-- ===== src/NetHandle/Fetch.antt =====
-- core/net_handle.c: reading the head of a message.
use http_proxy.Prelude.{
  ℕ, zero, suc, ◌+◌, ◌≤◌, ◌≡◌, refl, ◌∙◌, false, Option, List, inl, inr, ℤ, pos, negsuc,
  is_minus_one, arith, Option-cases, length, drop, length-set,
}
use http_proxy.Prelude.Uthash.{Uthash}
use http_proxy.Libc.{str_eq}
use http_proxy.Run.{Keeps, ends, Keeps-if, Keeps-bind}
use http_proxy.Strbuf.{Strbuf, strbuf_append}
use http_proxy.Strbuf.Laws.{IsValid, strbuf_append_lem}
use http_proxy.Strbuf.Bounds.{len-strbuf_append}
use http_proxy.Conn.{Conn, World}
use http_proxy.ConnIo.{State}
use http_proxy.ConnIo.Buffer.{IsBuffered}
use http_proxy.ConnIo.Lines.{conn_gets-InBounds}
use http_proxy.NetData.{NetHeaderEnt, NetData, Regmatch, put_nul, net_data_set_ent_offset}
use http_proxy.NetData.Parse.{Regex, header_re, net_parse_header}
use http_proxy.NetHandle.{
  http_header_maxlen, not_positive, header_line, fetch_loop, net_fetch_headers, net_fetch_http,
}

put_nul-IsValid : (b : Strbuf) (i : ℕ) → IsValid b → IsValid (put_nul b i)
put_nul-IsValid b i v = record { size = length-set b.p i 0 ∙ v.size; room = v.room }

positive : (z : ℤ) → not_positive z ≡ false → is_minus_one z ≡ false
positive (pos n) h = refl
positive (negsuc n) h = absurd (cc)

module _ (T : Uthash str_eq NetHeaderEnt) (malloc : ℕ → List ℕ)
    (fresh : (n : ℕ) → length (malloc n) ≡ n) (behind : List ℕ)
    (regexec : Regex → List ℕ → Option Regmatch) where
  parse_header-buf :
      (d : NetData T.Table) (offset : ℕ)
      → IsValid d.buf
      → IsValid (net_parse_header T malloc behind regexec d offset).1.buf
        × ((net_parse_header T malloc behind regexec d offset).1.buf.len ≡ d.buf.len)
  unfolding net_parse_header net_data_set_ent_offset
  parse_header-buf d offset v = elim (Option-cases (regexec header_re (drop offset d.buf.p))) [
    | inl e ↦ rw (e, net_parse_header) (v, refl)
    | inr (r, e) ↦
        rw (e, net_parse_header)
          (
            put_nul-IsValid (put_nul d.buf (offset + r.rm_eo 1)) (offset + r.rm_eo 2)
                (put_nul-IsValid d.buf (offset + r.rm_eo 1) v),
            refl,
          )
  ]

  header_line-buf :
      (p0 : ℕ) (d : NetData T.Table) (b : Strbuf)
      → IsValid b
      → IsValid (header_line T malloc behind regexec p0 d b).1.buf
        × ((header_line T malloc behind regexec p0 d b).1.buf.len ≡ b.len + 1)
  header_line-buf p0 d b v =
      let d' : NetData T.Table = record d { buf = strbuf_append malloc b 0 } in
      let (w, e) = parse_header-buf d' p0 (strbuf_append_lem malloc fresh b 0 v).0 in
      (w, e ∙ len-strbuf_append malloc b 0)

  -- The read buffer is in order, and the text is valid and within the limit.
  abbrev pub IsHead : ℤ × NetData T.Table → State → Type 0
  IsHead (ret, d) s = IsBuffered s.0 × IsValid d.buf × (d.buf.len + 1 ≤ http_header_maxlen)

  fetch_loop-IsHead :
      (fuel : ℕ) (d : NetData T.Table) (c : Conn) (w : World)
      → IsBuffered c
      → IsValid d.buf
      → d.buf.len + 1 ≤ http_header_maxlen
      → http_header_maxlen ≤ fuel + d.buf.len
      → Keeps IsHead (λ _. Unit {0}) (fetch_loop T malloc behind regexec fuel d (c, w))
  unfolding fetch_loop
  fetch_loop-IsHead zero d c w v x h more = absurd (omega arith)
  fetch_loop-IsHead (suc fuel) d c w v x h more =
      Keeps-bind
        (conn_gets-InBounds malloc fresh d.buf.len http_header_maxlen d.buf c w v x (omega arith) h)
        (λ (ret, b) s (u, y, l, k, room).
          let (z, e) = header_line-buf d.buf.len d b y in
          Keeps-if (not_positive ret) (λ _. ends (u, y, k))
            (λ some_bytes.
              let left = room (positive ret some_bytes) in
              Keeps-if (header_line T malloc behind regexec d.buf.len d b).0
                (λ _.
                  fetch_loop-IsHead fuel (header_line T malloc behind regexec d.buf.len d b).1 s.0
                    s.1 u z (omega (arith, e)) (omega (arith, e)))
                (λ _. ends (u, z, omega (arith, e)))))

  -- net_fetch_headers does not run on, whatever arrives and whatever the pattern matches: it
  -- returns or still waits. When it returns, the text is valid and within HTTP_HEADER_MAXLEN.
  pub net_fetch_headers-IsHead :
      (d : NetData T.Table) (c : Conn) (w : World)
      → IsBuffered c
      → IsValid d.buf
      → d.buf.len + 1 ≤ http_header_maxlen
      → Keeps IsHead (λ _. Unit {0}) (net_fetch_headers T malloc behind regexec d (c, w))
  unfolding net_fetch_headers
  net_fetch_headers-IsHead d c w v x h =
      fetch_loop-IsHead http_header_maxlen d c w v x h (omega arith)

  -- net_fetch_http does not run on either: from an empty text it returns or still waits, and when
  -- it returns, the start line and the headers are within HTTP_HEADER_MAXLEN together.
  pub net_fetch_http-IsHead :
      (d : NetData T.Table) (c : Conn) (w : World)
      → IsBuffered c
      → IsValid d.buf
      → d.buf.len ≡ 0
      → Keeps IsHead (λ _. Unit {0}) (net_fetch_http T malloc behind regexec d (c, w))
  unfolding net_fetch_http
  net_fetch_http-IsHead d c w v x h =
      Keeps-bind
        (conn_gets-InBounds malloc fresh 0 http_header_maxlen d.buf c w v x (omega arith)
          (omega arith))
        (λ (ret, b) s (u, y, l, k, room).
          Keeps-if (not_positive ret) (λ _. ends (u, y, k))
            (λ some_bytes.
              let left = room (positive ret some_bytes) in
              let e = len-strbuf_append malloc b 0 in
              net_fetch_headers-IsHead (record d { buf = strbuf_append malloc b 0 }) s.0 s.1 u
                (strbuf_append_lem malloc fresh b 0 y).0 (omega (arith, e))))
