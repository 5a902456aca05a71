-- ===== src/NetData/Lookup.antt =====
-- core/net_data.c: the header table between net_data_set_ent_offset, net_parse_header and the
-- lookups.
use http_proxy.Prelude.{
  ℕ, zero, suc, ◌+◌, ◌<◌, ◌≡◌, refl, sym, subst, ap, ◌∙◌, Bool, true, false, Option, none, some,
  List, ◌∷◌, ◌++◌, inl, inr, arith, ◌==◌, Bool-cases, Option-cases, if◌then◌else◌, length, drop,
  set,
}
use http_proxy.Prelude.Uthash.{Uthash}
use http_proxy.Libc.{c_str, str_eq}
use http_proxy.Libc.Laws.{NoNul, c_str_id, c_str-append, str_eq_iff}
use http_proxy.Strbuf.{Strbuf, strbuf_append}
use http_proxy.NetData.{
  NetHeaderEnt, NetData, Regmatch, http_header_key_maxlen, strncpy, key_text, put_nul,
  net_data_get_ent, net_data_get_ent_offset, net_data_set_ent_offset, set_ent_loop,
  net_data_set_ent,
}
use http_proxy.NetData.Cut.{key_fits, drop_in, cut_line}
use http_proxy.NetData.Parse.{Regex, header_re, net_parse_header}

abbrev entry : List ℕ → ℕ → NetHeaderEnt
entry key offset = record { key = strncpy http_header_key_maxlen key; val_offset = offset }

module _ (T : Uthash str_eq NetHeaderEnt) (malloc : ℕ → List ℕ) (behind : List ℕ) where
  loop_hangs :
      (fuel c : ℕ) (val : List ℕ) (b : Strbuf)
      → 0 < c
      → set_ent_loop T malloc behind fuel (c ∷ val) b ≡ none
  unfolding set_ent_loop
  loop_hangs zero c val b h = refl
  loop_hangs (suc fuel) c val b h =
      let e : (c == 0) ≡ false = ground arith in
      rw e (loop_hangs fuel c val (strbuf_append malloc b c) h)

  -- On a value that is not empty net_data_set_ent does not return, whatever the fuel: the pointer
  -- to the value is never advanced.
  pub net_data_set_ent-hangs :
      (fuel : ℕ) (d : NetData T.Table) (key : List ℕ) (c : ℕ) (val : List ℕ)
      → 0 < c
      → net_data_set_ent T malloc behind fuel d key (c ∷ val) ≡ none
  unfolding net_data_set_ent
  net_data_set_ent-hangs fuel d key c val h =
      rw (loop_hangs fuel c val d.buf h, net_data_set_ent) refl

  find_none :
      (d : NetData T.Table) (key : List ℕ)
      → net_data_get_ent_offset T malloc behind d key ≡ none
      → T.find d.table (c_str key) ≡ none
  unfolding net_data_get_ent_offset
  find_none d key absent = elim (Option-cases (T.find d.table (c_str key))) [
    | inl missing ↦ missing
    | inr (h, e) ↦
        let k : net_data_get_ent_offset T malloc behind d key ≡ some h.val_offset =
          rw (e, net_data_get_ent_offset) refl in
        absurd (cc)
  ]

  find-set_ent_offset :
      (d : NetData T.Table) (key : List ℕ) (offset : ℕ) (j : List ℕ)
      → length (c_str key) < http_header_key_maxlen
      → T.find d.table (c_str key) ≡ none
      → T.find (net_data_set_ent_offset T malloc behind d key offset).table j
        ≡ (if str_eq (c_str key) j then some (entry key offset) else T.find d.table j)
  unfolding net_data_set_ent_offset
  find-set_ent_offset d key offset j short free =
      let fits = key_fits http_header_key_maxlen key behind short in
      let free' : T.find d.table (key_text behind (entry key offset)) ≡ none =
        ap (T.find d.table) fits ∙ free in
      T.find-add d.table (key_text behind (entry key offset)) j (entry key offset) free'
      ∙ ap (λ (k : List ℕ). if str_eq k j then some (entry key offset) else T.find d.table j) fits

  -- Once a key shorter than its array, and not in the table yet, is set to an offset, the lookup of
  -- that key gives the offset, and the lookup of every other key what it gave before.
  pub get-set_ent_offset :
      (d : NetData T.Table) (key : List ℕ) (offset : ℕ) (j : List ℕ)
      → length (c_str key) < http_header_key_maxlen
      → net_data_get_ent_offset T malloc behind d key ≡ none
      → net_data_get_ent_offset T malloc behind
          (net_data_set_ent_offset T malloc behind d key offset)
          j
        ≡ (if str_eq (c_str key) (c_str j)
            then some offset
            else net_data_get_ent_offset T malloc behind d j)
  unfolding net_data_get_ent_offset net_data_set_ent_offset
  get-set_ent_offset d key offset j short absent =
      let f = find-set_ent_offset d key offset (c_str j) short (find_none d key absent) in
      elim (Bool-cases (str_eq (c_str key) (c_str j))) [
        | inl same ↦
            let g =
              f
              ∙ ap (λ (b : Bool). if b then some (entry key offset) else T.find d.table (c_str j))
                  same in
            rw (g, same, net_data_get_ent_offset) refl
        | inr other ↦
            let g =
              f
              ∙ ap (λ (b : Bool). if b then some (entry key offset) else T.find d.table (c_str j))
                  other in
            rw (g, other, net_data_get_ent_offset) refl
      ]

  get_ent-set :
      (d : NetData T.Table) (key : List ℕ) (offset : ℕ) (j : List ℕ)
      → length (c_str key) < http_header_key_maxlen
      → T.find d.table (c_str key) ≡ none
      → c_str key ≡ c_str j
      → net_data_get_ent T malloc behind (net_data_set_ent_offset T malloc behind d key offset) j
        ≡ some (drop offset d.buf.p)
  unfolding net_data_get_ent net_data_set_ent_offset
  get_ent-set d key offset j short free same =
      let f = find-set_ent_offset d key offset (c_str j) short free in
      let e = (str_eq_iff (c_str key) (c_str j)).1 same in
      let g =
        f ∙ ap (λ (b : Bool). if b then some (entry key offset) else T.find d.table (c_str j)) e in
      rw (g, net_data_get_ent) refl

  -- What net_parse_header leaves behind after a match.
  abbrev cut : Strbuf → ℕ → Regmatch → Strbuf
  cut b offset r = put_nul (put_nul b (offset + r.rm_eo 1)) (offset + r.rm_eo 2)

  abbrev parsed_line : NetData T.Table → ℕ → Regmatch → NetData T.Table
  parsed_line d offset r =
      net_data_set_ent_offset T malloc behind (record d { buf = cut d.buf offset r })
        (drop (offset + r.rm_so 1) (cut d.buf offset r).p) (offset + r.rm_so 2)

  module _ (regexec : Regex → List ℕ → Option Regmatch) where
    parse_header_match :
        (d : NetData T.Table) (offset : ℕ) (r : Regmatch)
        → regexec header_re (drop offset d.buf.p) ≡ some r
        → net_parse_header T malloc behind regexec d offset ≡ (true, parsed_line d offset r)
    unfolding net_parse_header
    parse_header_match d offset r match = rw (match, net_parse_header) refl

    -- Where a line stands in the buffer, the matched groups are its key and its value, the key holds
    -- no NUL, is shorter than its array and not in the table yet: then net_parse_header returns 0,
    -- and the lookup of the key points at the value with a NUL behind it.
    pub net_parse_header-get_ent :
        (d : NetData T.Table) (r : Regmatch) (pre k sep v rest : List ℕ) (s z : ℕ)
        → d.buf.p ≡ pre ++ (k ++ (s ∷ (sep ++ (v ++ (z ∷ rest)))))
        → regexec header_re (drop (length pre) d.buf.p) ≡ some r
        → r.rm_so 1 ≡ 0
        → r.rm_eo 1 ≡ length k
        → r.rm_so 2 ≡ length k + suc (length sep)
        → r.rm_eo 2 ≡ length k + (suc (length sep) + length v)
        → NoNul k
        → length k < http_header_key_maxlen
        → net_data_get_ent_offset T malloc behind d k ≡ none
        → ((net_parse_header T malloc behind regexec d (length pre)).0 ≡ true)
          × (net_data_get_ent T malloc behind
                (net_parse_header T malloc behind regexec d (length pre)).1
                k
              ≡ some (v ++ (0 ∷ rest)))
    unfolding net_parse_header net_data_get_ent
    net_parse_header-get_ent d r pre k sep v rest s z text match k₀ k₁ v₀ v₁ whole short absent =
        let n = length pre in
        let b = cut d.buf n r in
        let text' : b.p ≡ pre ++ (k ++ (0 ∷ (sep ++ (v ++ (0 ∷ rest))))) =
          ap (λ (x : List ℕ). set (set x (n + r.rm_eo 1) 0) (n + r.rm_eo 2) 0) text
          ∙ cut_line pre k sep v rest s z (n + r.rm_eo 1) (n + r.rm_eo 2) (omega (arith, k₁))
              (omega (arith, v₁)) in
        let key' : c_str (drop (n + r.rm_so 1) b.p) ≡ k =
          ap (λ (x : List ℕ). c_str (drop (n + r.rm_so 1) x)) text'
          ∙ ap c_str (
              drop_in pre (k ++ (0 ∷ (sep ++ (v ++ (0 ∷ rest))))) (n + r.rm_so 1) 0
                (omega (arith, k₀)))
          ∙ c_str-append k (sep ++ (v ++ (0 ∷ rest))) whole in
        let val' : drop (n + r.rm_so 2) b.p ≡ v ++ (0 ∷ rest) =
          ap (drop (n + r.rm_so 2)) text'
          ∙ drop_in pre (k ++ (0 ∷ (sep ++ (v ++ (0 ∷ rest))))) (n + r.rm_so 2)
              (length k + suc (length sep)) (omega (arith, v₀))
          ∙ drop_in k (0 ∷ (sep ++ (v ++ (0 ∷ rest)))) (length k + suc (length sep))
              (suc (length sep)) refl
          ∙ drop_in (0 ∷ sep) (v ++ (0 ∷ rest)) (suc (length sep)) 0 (omega arith) in
        let e = parse_header_match d n r match in
        let whole' = c_str_id k whole in
        let short' : length (c_str (drop (n + r.rm_so 1) b.p)) < http_header_key_maxlen =
          subst (λ (x : List ℕ). length x < http_header_key_maxlen) (sym key') short in
        let free : T.find d.table (c_str (drop (n + r.rm_so 1) b.p)) ≡ none =
          ap (T.find d.table) (key' ∙ sym whole') ∙ find_none d k absent in
        (
          ap (λ (x : Bool × NetData T.Table). x.0) e,
          ap (λ (x : Bool × NetData T.Table). net_data_get_ent T malloc behind x.1 k) e
              ∙ get_ent-set (record d { buf = b }) (drop (n + r.rm_so 1) b.p) (n + r.rm_so 2) k
                  short' free (key' ∙ sym whole')
              ∙ ap some val',
        )
