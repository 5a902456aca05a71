-- ===== src/NetData.antt =====
-- core/net_data.c and core/net_data.h: the text of a message with its header table, and the
-- offsets into the text that parsing finds. regexec is a parameter; so is what strlen reads behind
-- a key that fills its array. An offset of -1 is `none`.
pub mod Parse
pub mod Forward
pub mod Cut
pub mod Lookup
pub mod Valid
pub mod Serialize
pub mod TextTable
mod Tests
use http_proxy.Prelude.{
  ℕ, zero, suc, ◌+◌, Bool, true, false, Option, none, some, List, [], ◌∷◌, ◌++◌, ℤ, if◌then◌else◌,
  ◌==◌, take, drop, set, length,
}
use http_proxy.Prelude.Uthash.{Uthash}
use http_proxy.Libc.{c_str, str_eq}
use http_proxy.Strbuf.{Strbuf, strbuf_init, strbuf_append}

abbrev pub http_header_key_maxlen : ℕ
http_header_key_maxlen = 32

-- struct net_header_ent: the cells of `key`
pub record NetHeaderEnt : Type 0 where
  pub key : List ℕ
  pub val_offset : ℕ

-- struct net_data
pub record NetData (Table : Type 0) : Type 0 where
  pub buf : Strbuf
  pub table : Table

-- struct net_req
pub record NetReq (Table : Type 0) : Type 0 where
  pub data0 : NetData Table
  pub port : ℤ
  pub ver_major : ℤ
  pub ver_minor : ℤ
  pub host : Option ℕ
  pub protocol : Option ℕ
  pub path : ℕ

-- struct net_rsp
pub record NetRsp (Table : Type 0) : Type 0 where
  pub data0 : NetData Table
  pub code : ℤ
  pub ver_major : ℤ
  pub ver_minor : ℤ
  pub http_msg : ℕ

-- What regexec leaves in its array of regmatch_t: `missing` says that rm_so is -1.
pub record Regmatch : Type 0 where
  pub rm_so : ℕ → ℕ
  pub rm_eo : ℕ → ℕ
  pub missing : ℕ → Bool

-- strncpy (key, s, n): the string, cut at n cells, with NULs up to n.
unfoldable pub strncpy : ℕ → List ℕ → List ℕ
strncpy zero s = []
strncpy (suc n) [] = 0 ∷ strncpy n []
strncpy (suc n) (c ∷ s) = if c == 0 then 0 ∷ strncpy n [] else c ∷ strncpy n s

-- `h->key` as a string.
abbrev pub key_text : List ℕ → NetHeaderEnt → List ℕ
key_text behind h = c_str (h.key ++ behind)

-- `buf->p[i] = '\0'`
abbrev pub put_nul : Strbuf → ℕ → Strbuf
put_nul b i = record b { p = set b.p i 0 }

module _ (T : Uthash str_eq NetHeaderEnt) (malloc : ℕ → List ℕ) (behind : List ℕ) where
  unfoldable pub net_data_init : NetData T.Table
  net_data_init = record { buf = strbuf_init malloc; table = T.empty }

  -- The cells that the returned pointer points at, none for NULL.
  unfoldable pub net_data_get_ent : NetData T.Table → List ℕ → Option (List ℕ)
  net_data_get_ent d key = elim (T.find d.table (c_str key)) [
    | none ↦ none
    | some h ↦ some (drop h.val_offset d.buf.p)
  ]

  unfoldable pub net_data_get_ent_offset : NetData T.Table → List ℕ → Option ℕ
  net_data_get_ent_offset d key = elim (T.find d.table (c_str key)) [
    | none ↦ none
    | some h ↦ some h.val_offset
  ]

  unfoldable pub net_data_del_ent : NetData T.Table → List ℕ → NetData T.Table
  net_data_del_ent d key = elim (T.find d.table (c_str key)) [
    | none ↦ d
    | some h ↦ record d { table = T.del d.table (c_str key) }
  ]

  -- The entry is added whether or not there is one with this key.
  unfoldable pub net_data_set_ent_offset : NetData T.Table → List ℕ → ℕ → NetData T.Table
  net_data_set_ent_offset d key offset =
      let h : NetHeaderEnt = record {
        key = strncpy http_header_key_maxlen key;
        val_offset = offset;
      } in
      record d { table = T.add d.table (key_text behind h) h }

  -- `while (*val)` of net_data_set_ent: `val` stays where it is.
  unfoldable pub set_ent_loop : ℕ → List ℕ → Strbuf → Option Strbuf
  set_ent_loop zero val b = none
  set_ent_loop (suc fuel) [] b = some b
  set_ent_loop (suc fuel) (c ∷ val) b =
      let more = set_ent_loop fuel (c ∷ val) (strbuf_append malloc b c) in
      if c == 0 then some b else more

  -- net_data_set_ent, none if the loop runs out of fuel.
  unfoldable pub net_data_set_ent : ℕ → NetData T.Table → List ℕ → List ℕ → Option (NetData T.Table)
  unfolding net_data_set_ent_offset set_ent_loop
  net_data_set_ent fuel d key val = elim (set_ent_loop fuel val d.buf) [
    | none ↦ none
    | some b ↦
        some (record (net_data_set_ent_offset d key d.buf.len) { buf = strbuf_append malloc b 0 })
  ]
