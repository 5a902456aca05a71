-- ===== src/NetData/Forward.antt =====
-- core/net_data.c: net_append_headers, net_forward_req_header and net_forward_rsp_header. The table
-- is given as `entries`, in the order in which HASH_ITER visits it.
use http_proxy.Prelude.{ℕ, Bool, true, List, [], ◌∷◌, drop, take}
use http_proxy.Run.{Io, done, and_then}
use http_proxy.Strbuf.{Strbuf, strbuf_init, strbuf_append, strbuf_cat, strbuf_append_num}
use http_proxy.ConnIo.{State, conn_write}
use http_proxy.NetData.{NetHeaderEnt, NetReq, NetRsp, key_text}

-- ": ", CR LF and "HTTP/"
abbrev pub colon_text : List ℕ
colon_text = b':' ∷ b' ' ∷ []

abbrev pub crlf_text : List ℕ
crlf_text = 13 ∷ 10 ∷ []

abbrev pub http_text : List ℕ
http_text = b'H' ∷ b'T' ∷ b'T' ∷ b'P' ∷ b'/' ∷ []

module _ (malloc : ℕ → List ℕ) (behind : List ℕ) where
  -- One round of the loop of net_append_headers.
  unfoldable pub append_header : Strbuf → NetHeaderEnt → Strbuf → Strbuf
  append_header origin h b =
      strbuf_cat malloc
        (strbuf_cat malloc (strbuf_cat malloc (strbuf_cat malloc b (key_text behind h)) colon_text)
          (drop h.val_offset origin.p))
        crlf_text

  unfoldable pub net_append_headers : Strbuf → List NetHeaderEnt → Strbuf → Strbuf
  unfolding append_header
  net_append_headers origin [] b = strbuf_cat malloc b crlf_text
  net_append_headers origin (h ∷ hs) b = net_append_headers origin hs (append_header origin h b)

module _ (malloc : ℕ → List ℕ) (behind : List ℕ) {Table : Type 0} where
  -- The buffer that net_forward_req_header writes.
  unfoldable pub req_header : NetReq Table → List NetHeaderEnt → Strbuf
  unfolding net_append_headers
  req_header q entries =
      let origin = q.data0.buf in
      let b₁ = strbuf_append malloc (strbuf_cat malloc (strbuf_init malloc) origin.p) b' ' in
      let b₂ = strbuf_append malloc (strbuf_cat malloc b₁ (drop q.path origin.p)) b' ' in
      let b₃ = strbuf_append_num malloc (strbuf_cat malloc b₂ http_text) q.ver_major in
      let b₄ = strbuf_append_num malloc (strbuf_append malloc b₃ b'.') q.ver_minor in
      net_append_headers malloc behind origin entries (strbuf_cat malloc b₄ crlf_text)

  unfoldable pub net_forward_req_header : NetReq Table → List NetHeaderEnt → Io State Bool
  unfolding req_header conn_write
  net_forward_req_header q entries s = let b = req_header q entries in conn_write (take b.len b.p) s

  unfoldable pub rsp_header : NetRsp Table → List NetHeaderEnt → Strbuf
  unfolding net_append_headers
  rsp_header r entries =
      let origin = r.data0.buf in
      let b₁ =
        strbuf_append_num malloc (strbuf_cat malloc (strbuf_init malloc) http_text) r.ver_major in
      let b₂ = strbuf_append_num malloc (strbuf_append malloc b₁ b'.') r.ver_minor in
      let b₃ = strbuf_append_num malloc (strbuf_append malloc b₂ b' ') r.code in
      let b₄ = strbuf_cat malloc (strbuf_append malloc b₃ b' ') (drop r.http_msg origin.p) in
      net_append_headers malloc behind origin entries (strbuf_cat malloc b₄ crlf_text)

  -- The result is 0 whatever conn_write returns.
  unfoldable pub net_forward_rsp_header : NetRsp Table → List NetHeaderEnt → Io State Bool
  unfolding rsp_header conn_write
  net_forward_rsp_header r entries s =
      let b = rsp_header r entries in
      and_then {B = Bool} (conn_write (take b.len b.p) s) (λ ok t. done true t)
