-- ===== src/Strbuf.antt =====
-- core/strbuf.c and core/strbuf.h: the growing text buffer. `p` is the allocated block, cell by
-- cell; `malloc` is the allocator behind mem_alloc, which is taken to succeed.
pub mod Laws
pub mod Bounds
mod Tests
use http_proxy.Prelude.{ℕ, ◌+◌, ◌*◌, List, [], ◌∷◌, ℤ, ◌==◌, if◌then◌else◌, set, memcpy, take}
use http_proxy.Libc.{sprintf_d}

-- STRBUF_INIT_LEN
abbrev pub strbuf_init_len : ℕ
strbuf_init_len = 128

pub record Strbuf : Type 0 where
  pub p : List ℕ
  pub len : ℕ
  pub cap : ℕ

-- The text: the cells in front of `len`.
abbrev pub contents : Strbuf → List ℕ
contents b = take b.len b.p

unfoldable pub strbuf_reset : Strbuf → Strbuf
strbuf_reset b = record b { len = 0 }

-- The second half of strbuf_append: the byte and a NUL behind it.
unfoldable pub strbuf_put : Strbuf → ℕ → Strbuf
strbuf_put b ch = record b { p = set (set b.p b.len ch) (b.len + 1) 0; len = b.len + 1 }

module _ (malloc : ℕ → List ℕ) where
  unfoldable pub strbuf_init : Strbuf
  strbuf_init = record { p = set (malloc strbuf_init_len) 0 0; len = 0; cap = strbuf_init_len }

  -- The first half of strbuf_append: a full block is copied into one of twice its size.
  unfoldable pub strbuf_grow : Strbuf → Strbuf
  strbuf_grow b =
      if b.len + 1 == b.cap
      then record b { p = memcpy (malloc (b.cap * 2)) b.p b.cap; cap = b.cap * 2 }
      else b

  unfoldable pub strbuf_append : Strbuf → ℕ → Strbuf
  strbuf_append b ch = strbuf_put (strbuf_grow b) ch

  -- `s` is what the pointer points at; the loop stops at the first NUL.
  unfoldable pub strbuf_cat : Strbuf → List ℕ → Strbuf
  strbuf_cat b [] = b
  strbuf_cat b (c ∷ s) = let rest = strbuf_cat (strbuf_append b c) s in if c == 0 then b else rest

  unfoldable pub strbuf_append_num : Strbuf → ℤ → Strbuf
  strbuf_append_num b x = strbuf_cat b (sprintf_d x)
