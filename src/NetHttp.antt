-- ===== src/NetHttp.antt =====
-- core/net_http.c: the handlers of the methods. `out` and `inp` of a pair are `dst` and `src`.
pub mod Copied
pub mod Body
pub mod Handlers
pub mod Requests
pub mod Methods
pub mod Responses
pub mod Relay
mod Tests
use http_proxy.Prelude.{
  ℕ, zero, suc, ◌+◌, ◌*◌, Bool, true, false, not, Option, none, some, List, [], ◌∷◌, ℤ, pos, negsuc,
  add_ℤ, is_zero, ◌==◌, if◌then◌else◌, length, take,
}
use http_proxy.Prelude.Uthash.{Uthash}
use http_proxy.Libc.{c_str, str_eq}
use http_proxy.Libc.Scan.{sscanf_x, int_of, minus_of, int32, atoi_32}
use http_proxy.Run.{Run, Io, done, out_of_fuel, and_then}
use http_proxy.Strbuf.{Strbuf, strbuf_init, strbuf_reset, strbuf_cat}
use http_proxy.ConnIo.{Pair, stream, conn_gets, conn_write, conn_copy, on_out, on_inp}
use http_proxy.ConnIo.Negative.{copy_int}
use http_proxy.NetData.{NetHeaderEnt, NetData, net_data_get_ent}
use http_proxy.NetData.Forward.{crlf_text}
use http_proxy.NetHandle.{http_header_maxlen, not_positive}

abbrev pub http_chunk_header_maxlen : ℕ
http_chunk_header_maxlen = 256

-- "HEAD", "chunked", "Transfer-Encoding" and "Content-Length"
abbrev pub head_text : List ℕ
head_text = b'H' ∷ b'E' ∷ b'A' ∷ b'D' ∷ []

abbrev pub chunked_text : List ℕ
chunked_text = b'c' ∷ b'h' ∷ b'u' ∷ b'n' ∷ b'k' ∷ b'e' ∷ b'd' ∷ []

abbrev pub transfer_encoding_text : List ℕ
transfer_encoding_text =
    b'T' ∷ b'r' ∷ b'a' ∷ b'n' ∷ b's' ∷ b'f' ∷ b'e' ∷ b'r' ∷ b'-' ∷ b'E' ∷ b'n' ∷ b'c' ∷ b'o' ∷ b'd'
    ∷ b'i' ∷ b'n' ∷ b'g' ∷ []

abbrev pub content_length_text : List ℕ
content_length_text =
    b'C' ∷ b'o' ∷ b'n' ∷ b't' ∷ b'e' ∷ b'n' ∷ b't' ∷ b'-' ∷ b'L' ∷ b'e' ∷ b'n' ∷ b'g' ∷ b't' ∷ b'h'
    ∷ []

-- 0 for true and -1 for false.
abbrev pub status : Bool → ℤ
status true = pos 0
status false = negsuc 0

-- ret < 0
abbrev pub is_negative : ℤ → Bool
is_negative (pos n) = false
is_negative (negsuc n) = true

-- keyval == NULL || strcmp (keyval, "chunked"), negated.
unfoldable pub is_chunked : Option (List ℕ) → Bool
is_chunked none = false
is_chunked (some v) = str_eq (c_str v) chunked_text

-- `if (ret) break` behind conn_copy, in front of the next rounds.
abbrev pub next_chunk :
    Option Bool → Run Pair (Option Bool × Strbuf) → Strbuf → Io Pair (Option Bool × Strbuf)
next_chunk none rest b p = done (none, b) p
next_chunk (some ok) rest b p = if ok then rest else done (some false, b) p

-- `if (len > 0)` and conn_copy.
abbrev pub copy_positive : ℤ → Io Pair ℤ
copy_positive (pos zero) p = done (pos 0) p
copy_positive (pos (suc n)) p = and_then {B = ℤ} (conn_copy (suc n) p) (λ ok q. done (status ok) q)
copy_positive (negsuc n) p = done (pos 0) p

-- The trailer, where the last chunk has come.
abbrev pub after_chunks : Option Bool → Run Pair ℤ → Io Pair (Option ℤ)
after_chunks none trailer q = done none q
after_chunks (some last) trailer q =
    let end = and_then {B = Option ℤ} trailer (λ ret t. done (some ret) t) in
    if last then end else done (some (negsuc 0)) q

module _ (malloc : ℕ → List ℕ) where
  -- The loop over the chunks: whether the last chunk has come, and the buffer; none where the behaviour is
  -- undefined.
  unfoldable pub chunk_loop : ℕ → Strbuf → Io Pair (Option Bool × Strbuf)
  unfolding conn_gets conn_write strbuf_reset strbuf_cat sscanf_x copy_int int_of minus_of
  chunk_loop zero b p = out_of_fuel
  chunk_loop (suc fuel) b p =
      and_then {B = Option Bool × Strbuf}
        (on_inp (conn_gets malloc http_chunk_header_maxlen (strbuf_reset b)) p)
        (λ (ret, line) q.
          let b₁ = strbuf_cat malloc line crlf_text in
          let len = sscanf_x (negsuc 0) b₁.p in
          let chunk =
            and_then {B = Option Bool × Strbuf} (on_out (conn_write (take b₁.len b₁.p)) q) (λ ok t.
              let data_part =
                and_then {B = Option Bool × Strbuf} (copy_int (int32 (add_ℤ len 2)) t)
                  (λ copied u. next_chunk copied (chunk_loop fuel b₁ u) b₁ u) in
              if not ok
              then done (some false, b₁) t
              else if is_zero len
              then done (some true, b₁) t
              else data_part) in
          if not_positive ret then done (some false, line) q else chunk)

  -- The loop over the trailer.
  unfoldable pub trailer_loop : ℕ → Strbuf → Io Pair ℤ
  unfolding conn_gets conn_write strbuf_reset strbuf_cat
  trailer_loop zero b p = out_of_fuel
  trailer_loop (suc fuel) b p =
      and_then {B = ℤ} (on_inp (conn_gets malloc http_header_maxlen (strbuf_reset b)) p)
        (λ (ret, line) q.
          let b₁ = strbuf_cat malloc line crlf_text in
          let forward = and_then {B = ℤ} (on_out (conn_write (take b₁.len b₁.p)) q) (λ ok t.
            let rest = trailer_loop fuel b₁ t in
            if not ok then done (negsuc 0) t else if is_zero ret then done ret t else rest) in
          if is_negative ret then done ret q else forward)

  -- A chunked body. A round of either loop that goes on consumes a byte or more, or it has closed `out`,
  -- and the next round ends: the bytes that can still be read are enough fuel.
  unfoldable pub chunked_body : Io Pair (Option ℤ)
  unfolding chunk_loop trailer_loop strbuf_init stream
  chunked_body p =
      and_then {B = Option ℤ} (chunk_loop (suc (length (stream p.inp))) (strbuf_init malloc) p)
        (λ (last, b) q. after_chunks last (trailer_loop (suc (length (stream q.inp))) b q) q)

  -- A body of Content-Length bytes.
  unfoldable pub length_body : Option (List ℕ) → Io Pair ℤ
  unfolding conn_copy atoi_32
  length_body none p = done (pos 0) p
  length_body (some v) p = copy_positive (atoi_32 (c_str v)) p

  -- none where the behaviour is undefined.
  unfoldable pub net_transfer_body_http_1_1 :
      (T : Uthash str_eq NetHeaderEnt) → NetData T.Table → Io Pair (Option ℤ)
  unfolding chunked_body length_body is_chunked
  net_transfer_body_http_1_1 T d p =
      let sized =
        and_then {B = Option ℤ} (length_body (net_data_get_ent T malloc [] d content_length_text) p)
          (λ ret q. done (some ret) q) in
      let chunked = chunked_body p in
      if str_eq (c_str d.buf.p) head_text
      then done (some (pos 0)) p
      else if is_chunked (net_data_get_ent T malloc [] d transfer_encoding_text)
      then chunked
      else sized
