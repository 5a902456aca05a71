-- ===== src/Strbuf/Tests.antt =====
-- Examples for core/strbuf.c.
use http_proxy.Prelude.{◌≡◌, refl, [], ◌∷◌, arith}
use http_proxy.Strbuf.{Strbuf, contents, strbuf_append}
use http_proxy.Strbuf.Laws.{IsValid, IsTerminated, strbuf_append_lem}
use http_proxy.Examples.{calloc, length-calloc}

-- A full block of four cells.
abbrev full : Strbuf
full = record { p = 104 ∷ 105 ∷ 33 ∷ 0 ∷ []; len = 3; cap = 4 }

full-IsValid : IsValid full
full-IsValid = record { size = refl; room = omega arith }

append_grows :
    IsValid (strbuf_append calloc full 63)
    × IsTerminated (strbuf_append calloc full 63)
    × (contents (strbuf_append calloc full 63) ≡ 104 ∷ 105 ∷ 33 ∷ 63 ∷ [])
append_grows = strbuf_append_lem calloc length-calloc full 63 full-IsValid
