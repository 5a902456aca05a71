-- ===== src/NetData/Valid.antt =====
-- core/net_data.c: what net_parse_req does to the buffer.
use http_proxy.Prelude.{
  ℕ, zero, suc, ◌+◌, ◌-◌, ◌≤◌, ◌≡◌, ◌∙◌, Bool, true, false, Option, List, inl, inr, arith, ◌==◌,
  Option-cases, if◌then◌else◌, length, drop, get_or, length-set,
}
use http_proxy.Prelude.Uthash.{Uthash}
use http_proxy.Libc.{str_eq}
use http_proxy.Strbuf.{Strbuf, strbuf_append, strbuf_cat}
use http_proxy.Strbuf.Laws.{IsValid, strbuf_append_lem, strbuf_cat-IsValid}
use http_proxy.Strbuf.Bounds.{len-strbuf_append, len-strbuf_cat}
use http_proxy.NetData.{NetHeaderEnt, NetReq, Regmatch, put_nul, net_data_get_ent_offset}
use http_proxy.NetData.Parse.{
  Regex, host_re, uri_re, req_re, host_text, slash_text, copy_host, with_buf, parse_host, parse_uri,
  net_parse_req,
}

-- The buffer is valid and no shorter than n.
abbrev pub IsGrown : ℕ → Strbuf → Type 0
IsGrown n b = IsValid b × (n ≤ b.len)

put_nul-IsGrown : (n : ℕ) (b : Strbuf) (i : ℕ) → IsGrown n b → IsGrown n (put_nul b i)
put_nul-IsGrown n b i (v, l) = (record { size = length-set b.p i 0 ∙ v.size; room = v.room }, l)

-- What holds of both branches holds of the choice.
either : {A : Type 0} (P : A → Type 0) (c : Bool) (x y : A) → P x → P y → P (if c then x else y)
either P true x y g h = g
either P false x y g h = h

module _ (T : Uthash str_eq NetHeaderEnt) (malloc : ℕ → List ℕ)
    (fresh : (n : ℕ) → length (malloc n) ≡ n) (behind : List ℕ)
    (regexec : Regex → List ℕ → Option Regmatch) (n : ℕ) where
  append-IsGrown : (b : Strbuf) (ch : ℕ) → IsGrown n b → IsGrown n (strbuf_append malloc b ch)
  append-IsGrown b ch (v, l) =
      ((strbuf_append_lem malloc fresh b ch v).0, omega (arith, len-strbuf_append malloc b ch))

  copy_host-IsGrown :
      (k from : ℕ) (b : Strbuf)
      → IsGrown n b
      → IsGrown n (copy_host T malloc behind regexec k from b)
  unfolding copy_host
  copy_host-IsGrown zero from b g = append-IsGrown b 0 g
  copy_host-IsGrown (suc k) from b g =
      copy_host-IsGrown k (from + 1) (strbuf_append malloc b (get_or b.p from 0))
        (append-IsGrown b (get_or b.p from 0) g)

  parse_host-IsGrown :
      (q : NetReq T.Table) (offset : ℕ)
      → IsGrown n q.data0.buf
      → IsGrown n (parse_host T malloc behind regexec q offset).1.data0.buf
  unfolding parse_host
  parse_host-IsGrown q offset g =
      elim (Option-cases (regexec host_re (drop offset q.data0.buf.p))) [
        | inl e ↦ rw (e, parse_host) g
        | inr (r, e) ↦
            rw (e, parse_host)
              (let copied =
                  copy_host-IsGrown (r.rm_eo 1 - r.rm_so 1) (offset + r.rm_so 1) q.data0.buf g in
                let first =
                  either (λ (p : NetReq T.Table). IsGrown n p.data0.buf)
                    (r.rm_eo 1 + offset == q.path) _ q copied g in
                either (λ (p : Bool × NetReq T.Table). IsGrown n p.1.data0.buf) (r.missing 2) _ _
                  first (put_nul-IsGrown n _ (offset + r.rm_so 2) first))
      ]

  parse_uri-IsGrown :
      (q : NetReq T.Table) (offset : ℕ)
      → IsGrown n q.data0.buf
      → IsGrown n (parse_uri T malloc behind regexec q offset).1.data0.buf
  unfolding parse_uri
  parse_uri-IsGrown q offset g = elim (Option-cases (regexec uri_re (drop offset q.data0.buf.p))) [
    | inl e ↦ elim (Option-cases (net_data_get_ent_offset T malloc behind q.data0 host_text)) [
      | inl f ↦ rw (e, f, parse_uri) g
      | inr (h, f) ↦ rw (e, f, parse_uri) (parse_host-IsGrown _ h g)
    ]
    | inr (r, e) ↦
        let b = put_nul q.data0.buf (offset + r.rm_eo 1) in
        let g' = put_nul-IsGrown n q.data0.buf (offset + r.rm_eo 1) g in
        let (v, l) = g' in
        let cat : IsGrown n (strbuf_cat malloc b slash_text) = (
          strbuf_cat-IsValid malloc fresh b slash_text v,
          omega (arith, len-strbuf_cat malloc b slash_text),
        ) in
        let path =
          either (λ (p : NetReq T.Table). IsGrown n p.data0.buf) (r.missing 3)
            (record (with_buf T malloc behind regexec q (strbuf_cat malloc b slash_text)) {
              path = b.len;
            })
            (record (with_buf T malloc behind regexec q b) { path = offset + r.rm_so 3 }) cat g' in
        rw (e, parse_uri) (parse_host-IsGrown _ (offset + r.rm_so 2) path)
  ]

  -- Whatever the patterns match, and in every branch, net_parse_req leaves a valid buffer valid, and
  -- as long as it was or longer.
  pub net_parse_req-IsGrown :
      (q : NetReq T.Table)
      → IsGrown n q.data0.buf
      → IsGrown n (net_parse_req T malloc behind regexec q).1.data0.buf
  unfolding net_parse_req
  net_parse_req-IsGrown q g = elim (Option-cases (regexec req_re q.data0.buf.p)) [
    | inl e ↦ rw (e, net_parse_req) g
    | inr (r, e) ↦
        let b₁ = put_nul-IsGrown n q.data0.buf (r.rm_eo 1) g in
        let b₂ = put_nul-IsGrown n _ (r.rm_eo 2) b₁ in
        let b₃ = put_nul-IsGrown n _ (r.rm_eo 3) b₂ in
        let b₄ = put_nul-IsGrown n _ (r.rm_eo 4) b₃ in
        rw (e, net_parse_req)
          (either (λ (p : Bool × NetReq T.Table). IsGrown n p.1.data0.buf) _ _ _
            (parse_host-IsGrown _ (r.rm_so 2) b₄) (parse_uri-IsGrown _ (r.rm_so 2) b₄))
  ]
