-- ===== src/NetData/Parse.antt =====
-- core/net_data.c: net_parse_header, net_parse_req and net_parse_rsp. Each returns true for 0.
use http_proxy.Prelude.{
  ℕ, zero, suc, ◌+◌, ◌-◌, Bool, true, false, Option, none, some, List, [], ◌∷◌, pos, if◌then◌else◌,
  ◌==◌, drop, get_or,
}
use http_proxy.Prelude.Uthash.{Uthash}
use http_proxy.Libc.{c_str, str_eq, atoi_int}
use http_proxy.Strbuf.{Strbuf, strbuf_append, strbuf_cat}
use http_proxy.NetData.{
  NetHeaderEnt, NetData, NetReq, NetRsp, Regmatch, put_nul, net_data_get_ent_offset,
  net_data_set_ent_offset,
}

abbrev pub http_default_port : ℕ
http_default_port = 80

-- The compiled patterns.
pub data Regex : Type 0 where
  header_re req_re uri_re rsp_re host_re : Regex

-- "CONNECT", "Host" and "/"
abbrev pub connect_text : List ℕ
connect_text = b'C' ∷ b'O' ∷ b'N' ∷ b'N' ∷ b'E' ∷ b'C' ∷ b'T' ∷ []

abbrev pub host_text : List ℕ
host_text = b'H' ∷ b'o' ∷ b's' ∷ b't' ∷ []

abbrev pub slash_text : List ℕ
slash_text = b'/' ∷ []

module _ (T : Uthash str_eq NetHeaderEnt) (malloc : ℕ → List ℕ) (behind : List ℕ)
    (regexec : Regex → List ℕ → Option Regmatch) where
  unfoldable pub net_parse_header : NetData T.Table → ℕ → Bool × NetData T.Table
  unfolding net_data_set_ent_offset
  net_parse_header d offset = elim (regexec header_re (drop offset d.buf.p)) [
    | none ↦ (false, d)
    | some r ↦
        let b = put_nul (put_nul d.buf (offset + r.rm_eo 1)) (offset + r.rm_eo 2) in
        (
          true,
          net_data_set_ent_offset T malloc behind (record d { buf = b })
              (drop (offset + r.rm_so 1) b.p) (offset + r.rm_so 2),
        )
  ]

  -- `req->data->buf` replaced.
  abbrev pub with_buf : NetReq T.Table → Strbuf → NetReq T.Table
  with_buf q b = record q { data0 = record q.data0 { buf = b } }

  -- The copy of the host to the end of the buffer: n bytes from `from` on.
  unfoldable pub copy_host : ℕ → ℕ → Strbuf → Strbuf
  copy_host zero from b = strbuf_append malloc b 0
  copy_host (suc n) from b = copy_host n (from + 1) (strbuf_append malloc b (get_or b.p from 0))

  -- net_parse_req from `parse_host` on; the host stands at `offset`.
  unfoldable pub parse_host : NetReq T.Table → ℕ → Bool × NetReq T.Table
  unfolding copy_host
  parse_host q offset = elim (regexec host_re (drop offset q.data0.buf.p)) [
    | none ↦ (false, q)
    | some r ↦
        let b = q.data0.buf in
        let copied = copy_host (r.rm_eo 1 - r.rm_so 1) (offset + r.rm_so 1) b in
        let q₁ : NetReq T.Table =
          if r.rm_eo 1 + offset == q.path
          then record (with_buf q copied) { host = some b.len }
          else q in
        let b₂ = put_nul q₁.data0.buf (offset + r.rm_so 2) in
        if r.missing 2 then (true, record q₁ { port = pos http_default_port }) else (
          true,
          record (with_buf q₁ b₂) { port = atoi_int (c_str (drop (offset + r.rm_so 2 + 1) b₂.p)) },
        )
  ]

  -- The middle of net_parse_req: an absolute URI at `offset`, or a path with a Host header.
  unfoldable pub parse_uri : NetReq T.Table → ℕ → Bool × NetReq T.Table
  unfolding parse_host net_data_get_ent_offset
  parse_uri q offset = elim (regexec uri_re (drop offset q.data0.buf.p)) [
    | none ↦ elim (net_data_get_ent_offset T malloc behind q.data0 host_text) [
      | none ↦ (false, record q { host = none })
      | some h ↦ parse_host (record q { host = some h; protocol = none }) h
    ]
    | some r ↦
        let b = put_nul q.data0.buf (offset + r.rm_eo 1) in
        let with_path : NetReq T.Table =
          if r.missing 3
          then record (with_buf q (strbuf_cat malloc b slash_text)) { path = b.len }
          else record (with_buf q b) { path = offset + r.rm_so 3 } in
        parse_host
          (record with_path {
            protocol = some (offset + r.rm_so 1);
            host = some (offset + r.rm_so 2);
          })
          (offset + r.rm_so 2)
  ]

  unfoldable pub net_parse_req : NetReq T.Table → Bool × NetReq T.Table
  unfolding parse_uri parse_host
  net_parse_req q = elim (regexec req_re q.data0.buf.p) [
    | none ↦ (false, q)
    | some r ↦
        let b =
          put_nul (put_nul (put_nul (put_nul q.data0.buf (r.rm_eo 1)) (r.rm_eo 2)) (r.rm_eo 3))
            (r.rm_eo 4) in
        let line : NetReq T.Table = record (with_buf q b) {
          ver_major = atoi_int (c_str (drop (r.rm_so 3) b.p));
          ver_minor = atoi_int (c_str (drop (r.rm_so 4) b.p));
          path = r.rm_so 2;
        } in
        if str_eq (c_str b.p) connect_text
        then parse_host (record line { host = some (r.rm_so 2) }) (r.rm_so 2)
        else parse_uri line (r.rm_so 2)
  ]

  unfoldable pub net_parse_rsp : NetRsp T.Table → Bool × NetRsp T.Table
  net_parse_rsp s = elim (regexec rsp_re s.data0.buf.p) [
    | none ↦ (false, s)
    | some r ↦
        let b = put_nul (put_nul (put_nul s.data0.buf (r.rm_eo 1)) (r.rm_eo 2)) (r.rm_eo 3) in
        (
          true,
          record s {
            data0 = record s.data0 { buf = b };
            ver_major = atoi_int (c_str (drop (r.rm_so 1) b.p));
            ver_minor = atoi_int (c_str (drop (r.rm_so 2) b.p));
            code = atoi_int (c_str (drop (r.rm_so 3) b.p));
            http_msg = r.rm_so 4;
          },
        )
  ]
