-- ===== src/NetData/Serialize.antt =====
-- core/net_data.c: the text that net_forward_req_header and net_forward_rsp_header send.
use http_proxy.Prelude.{
  ℕ, ◌≡◌, refl, ap, ◌∙◌, Bool, true, List, [], ◌∷◌, ◌++◌, ℤ, arith, length, drop,
}
use mathlib.Core.List.{append_assoc}
use http_proxy.Libc.{c_str, sprintf_d}
use http_proxy.Libc.Laws.{NoNul, c_str_id, c_str-NoNul}
use http_proxy.Run.{Keeps, ends, Keeps-bind}
use http_proxy.Strbuf.{Strbuf, contents, strbuf_init, strbuf_append, strbuf_cat, strbuf_append_num}
use http_proxy.Strbuf.Laws.{
  IsValid, strbuf_init-IsValid, strbuf_append_lem, contents-strbuf_cat, strbuf_cat-IsValid,
  contents-strbuf_append_num,
}
use http_proxy.Conn.{Conn, World}
use http_proxy.ConnIo.Writing.{Wrote, WroteAll, conn_write_lem}
use http_proxy.NetData.{NetHeaderEnt, NetReq, NetRsp, key_text}
use http_proxy.NetData.Forward.{
  colon_text, crlf_text, http_text, append_header, net_append_headers, req_header,
  net_forward_req_header, rsp_header, net_forward_rsp_header,
}

-- A header line, and the block of them that ends a message head.
abbrev pub header_text : List ℕ → Strbuf → NetHeaderEnt → List ℕ
header_text behind origin h =
    key_text behind h ++ colon_text ++ c_str (drop h.val_offset origin.p) ++ crlf_text

unfoldable pub headers_text : List ℕ → Strbuf → List NetHeaderEnt → List ℕ
headers_text behind origin [] = crlf_text
headers_text behind origin (h ∷ hs) = header_text behind origin h ++ headers_text behind origin hs

-- METHOD, a space, the path, a space, the version, CR LF, the headers.
unfoldable pub request_text : {Table : Type 0} → List ℕ → NetReq Table → List NetHeaderEnt → List ℕ
unfolding headers_text
request_text behind q entries =
    c_str q.data0.buf.p
    ++ (b' ' ∷ [])
    ++ c_str (drop q.path q.data0.buf.p)
    ++ (b' ' ∷ [])
    ++ http_text
    ++ sprintf_d q.ver_major
    ++ (b'.' ∷ [])
    ++ sprintf_d q.ver_minor
    ++ crlf_text
    ++ headers_text behind q.data0.buf entries

-- The version, the status code, the message, CR LF, the headers.
unfoldable pub response_text : {Table : Type 0} → List ℕ → NetRsp Table → List NetHeaderEnt → List ℕ
unfolding headers_text
response_text behind r entries =
    http_text
    ++ sprintf_d r.ver_major
    ++ (b'.' ∷ [])
    ++ sprintf_d r.ver_minor
    ++ (b' ' ∷ [])
    ++ sprintf_d r.code
    ++ (b' ' ∷ [])
    ++ c_str (drop r.http_msg r.data0.buf.p)
    ++ crlf_text
    ++ headers_text behind r.data0.buf entries

-- What a code does to a valid buffer: it appends a text.
abbrev Appends : (Strbuf → Strbuf) → List ℕ → Type 0
Appends f t = (b : Strbuf) → IsValid b → IsValid (f b) × (contents (f b) ≡ contents b ++ t)

Appends-then :
    {f g : Strbuf → Strbuf} {s t : List ℕ}
    → Appends f s
    → Appends g t
    → Appends (λ b. g (f b)) (s ++ t)
Appends-then {f} {g} {s} {t} hf hg b v =
    let (v₁, e₁) = hf b v in
    let (v₂, e₂) = hg (f b) v₁ in
    (v₂, e₂ ∙ ap (λ (x : List ℕ). x ++ t) e₁ ∙ append_assoc (contents b) s t)

module _ (malloc : ℕ → List ℕ) (fresh : (n : ℕ) → length (malloc n) ≡ n) (behind : List ℕ) where
  cat_text : (s : List ℕ) → Appends (λ b. strbuf_cat malloc b s) (c_str s)
  cat_text s b v = (strbuf_cat-IsValid malloc fresh b s v, contents-strbuf_cat malloc fresh b s v)

  put_byte : (ch : ℕ) → Appends (λ b. strbuf_append malloc b ch) (ch ∷ [])
  put_byte ch b v = let (w, z, e) = strbuf_append_lem malloc fresh b ch v in (w, e)

  put_num : (x : ℤ) → Appends (λ b. strbuf_append_num malloc b x) (sprintf_d x)
  unfolding strbuf_append_num
  put_num x b v = (
    strbuf_cat-IsValid malloc fresh b (sprintf_d x) v,
    contents-strbuf_append_num malloc fresh b x v,
  )

  put_text : (t : List ℕ) → NoNul t → Appends (λ b. strbuf_cat malloc b t) t
  put_text t h b v =
      let (w, e) = cat_text t b v in (w, e ∙ ap (λ (x : List ℕ). contents b ++ x) (c_str_id t h))

  put_crlf : Appends (λ b. strbuf_cat malloc b crlf_text) crlf_text
  put_crlf = put_text crlf_text (omega arith)

  put_http : Appends (λ b. strbuf_cat malloc b http_text) http_text
  put_http = put_text http_text (omega arith)

  put_header :
      (origin : Strbuf) (h : NetHeaderEnt)
      → Appends (append_header malloc behind origin h) (header_text behind origin h)
  unfolding append_header
  put_header origin h =
      let key = put_text (key_text behind h) (c_str-NoNul (h.key ++ behind)) in
      let colon = Appends-then key (put_text colon_text (omega arith)) in
      Appends-then (Appends-then colon (cat_text (drop h.val_offset origin.p))) put_crlf

  put_headers :
      (origin : Strbuf) (hs : List NetHeaderEnt)
      → Appends (net_append_headers malloc behind origin hs) (headers_text behind origin hs)
  unfolding net_append_headers headers_text
  put_headers origin [] = put_crlf
  put_headers origin (h ∷ hs) = Appends-then (put_header origin h) (put_headers origin hs)

  -- A code that appends, run on the buffer of strbuf_init.
  from_init :
      {f : Strbuf → Strbuf} {t : List ℕ} → Appends f t → contents (f (strbuf_init malloc)) ≡ t
  from_init {f} {t} h =
      let (v, z, e) = strbuf_init-IsValid malloc fresh in
      (h (strbuf_init malloc) v).1 ∙ ap (λ (x : List ℕ). x ++ t) e

  module _ {Table : Type 0} where
    contents-req_header :
        (q : NetReq Table) (entries : List NetHeaderEnt)
        → contents (req_header malloc behind q entries) ≡ request_text behind q entries
    unfolding req_header request_text
    contents-req_header q entries =
        let v₀ = cat_text q.data0.buf.p in
        let v₁ = Appends-then v₀ (put_byte b' ') in
        let v₂ = Appends-then v₁ (cat_text (drop q.path q.data0.buf.p)) in
        let v₃ = Appends-then v₂ (put_byte b' ') in
        let v₄ = Appends-then v₃ put_http in
        let v₅ = Appends-then v₄ (put_num q.ver_major) in
        let v₆ = Appends-then v₅ (put_byte b'.') in
        let v₇ = Appends-then v₆ (put_num q.ver_minor) in
        let v₈ = Appends-then v₇ put_crlf in
        from_init (Appends-then v₈ (put_headers q.data0.buf entries))

    contents-rsp_header :
        (r : NetRsp Table) (entries : List NetHeaderEnt)
        → contents (rsp_header malloc behind r entries) ≡ response_text behind r entries
    unfolding rsp_header response_text
    contents-rsp_header r entries =
        let v₀ = put_http in
        let v₁ = Appends-then v₀ (put_num r.ver_major) in
        let v₂ = Appends-then v₁ (put_byte b'.') in
        let v₃ = Appends-then v₂ (put_num r.ver_minor) in
        let v₄ = Appends-then v₃ (put_byte b' ') in
        let v₅ = Appends-then v₄ (put_num r.code) in
        let v₆ = Appends-then v₅ (put_byte b' ') in
        let v₇ = Appends-then v₆ (cat_text (drop r.http_msg r.data0.buf.p)) in
        let v₈ = Appends-then v₇ put_crlf in
        from_init (Appends-then v₈ (put_headers r.data0.buf entries))

    -- net_forward_req_header sends the method, the path, the version and a line for each header, as
    -- an HTTP request has them, or a first part of that text: the whole when it returns 0, and a
    -- part with the connection closed when it returns -1.
    pub net_forward_req_header_lem :
        (q : NetReq Table) (entries : List NetHeaderEnt) (c : Conn) (w : World)
        → Keeps
            (WroteAll (request_text behind q entries) c)
            (λ s. Wrote (request_text behind q entries) c s.0)
            (net_forward_req_header malloc behind q entries (c, w))
    unfolding net_forward_req_header
    net_forward_req_header_lem q entries c w =
        rw (contents-req_header q entries) (conn_write_lem (request_text behind q entries) c w)

    -- net_forward_rsp_header sends the version, the status and a line for each header, or a first
    -- part of that text with the connection closed: in both cases it returns 0.
    pub net_forward_rsp_header_lem :
        (r : NetRsp Table) (entries : List NetHeaderEnt) (c : Conn) (w : World)
        → Keeps
            (λ ok s.
              (ok ≡ true) × ((ok' : Bool) × WroteAll (response_text behind r entries) c ok' s))
            (λ s. Wrote (response_text behind r entries) c s.0)
            (net_forward_rsp_header malloc behind r entries (c, w))
    unfolding net_forward_rsp_header
    net_forward_rsp_header_lem r entries c w = rw (contents-rsp_header r entries) (
        Keeps-bind (conn_write_lem (response_text behind r entries) c w)
          (λ ok s h. ends (refl, (ok, h))))
