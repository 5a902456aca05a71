-- ===== src/Log/Tests.antt =====
-- Examples for core/log.c.
use http_proxy.Prelude.{ℕ, ◌<◌, ◌≡◌, refl, some, List, [], ◌∷◌, arith, length}
use http_proxy.Libc.{c_str}
use http_proxy.Log.{gen_log_string}
use http_proxy.Log.Bounds.{printed, gen_log_string_lem}

abbrev block : List ℕ
block = 7 ∷ 7 ∷ 7 ∷ 7 ∷ 7 ∷ 7 ∷ 7 ∷ 7 ∷ 7 ∷ 7 ∷ []

-- `abcdef` behind `p:` in ten bytes.
cut_with_dots :
    (b : List ℕ) × (gen_log_string 10
        (b'p' ∷ b':' ∷ [])
        (b'a' ∷ b'b' ∷ b'c' ∷ b'd' ∷ b'e' ∷ b'f' ∷ [])
        block
      ≡ some b)
    × (c_str b ≡ printed 10 (b'p' ∷ b':' ∷ []) (b'a' ∷ b'b' ∷ b'c' ∷ b'd' ∷ b'e' ∷ b'f' ∷ []))
    × (length b ≡ 10)
    × (length (c_str b) < 10)
cut_with_dots =
    gen_log_string_lem 10 (b'p' ∷ b':' ∷ []) (b'a' ∷ b'b' ∷ b'c' ∷ b'd' ∷ b'e' ∷ b'f' ∷ []) block
      refl (omega arith) (omega arith) (omega arith)
