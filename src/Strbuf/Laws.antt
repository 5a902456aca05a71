-- ===== src/Strbuf/Laws.antt =====
-- core/strbuf.c: what the buffer holds after each operation.
use http_proxy.Prelude.{
  ℕ, ◌+◌, ◌*◌, ◌≤◌, ◌<◌, ◌≡◌, refl, sym, ap, ◌∙◌, inl, inr, some, List, [], ◌∷◌, ◌++◌, ℤ, arith,
  ◌==◌, Bool-cases, length, get_elem?, set, take, drop, memcpy, length-append, length-take,
  length-drop, length-set, get_elem?-set_self, take-set, take-suc-set, take-append, take-take,
}
use native.Mathlib.Numerals.{add-one}
use mathlib.Core.List.{append_assoc, append-nil}
use http_proxy.Libc.{c_str, sprintf_d}
use http_proxy.Libc.Laws.{c_str_id, sprintf_d-NoNul}
use http_proxy.Strbuf.{
  Strbuf, contents, strbuf_init_len, strbuf_init, strbuf_grow, strbuf_put, strbuf_append,
  strbuf_cat, strbuf_append_num,
}

-- The block has `cap` cells, and one is left behind the text.
pub record IsValid (b : Strbuf) : Type 0 where
  pub size : length b.p ≡ b.cap
  pub room : b.len < b.cap

-- A NUL stands behind the text.
abbrev pub IsTerminated : Strbuf → Type 0
IsTerminated b = get_elem? b.p b.len ≡ some 0

module _ (malloc : ℕ → List ℕ) (fresh : (n : ℕ) → length (malloc n) ≡ n) where
  -- A full block moves with its text.
  length-memcpy : (n : ℕ) (p : List ℕ) → length p ≡ n → length (memcpy (malloc (n * 2)) p n) ≡ n * 2
  length-memcpy n p h = omega (
    arith,
    length-append (take n p) (drop n (malloc (n * 2))),
    length-take n p,
    length-drop n (malloc (n * 2)),
    fresh (n * 2),
  )

  take-memcpy :
      (m n : ℕ) (p : List ℕ)
      → length p ≡ n
      → m ≤ n
      → take m (memcpy (malloc (n * 2)) p n) ≡ take m p
  take-memcpy m n p h k =
      take-append m (take n p) _ (omega (arith, length-take n p)) ∙ take-take m n p k

  strbuf_grow-IsValid : (b : Strbuf) → IsValid b → IsValid (strbuf_grow malloc b)
  unfolding strbuf_grow
  strbuf_grow-IsValid b v = elim (Bool-cases (b.len + 1 == b.cap)) [
    | inl full ↦
        rw full (record { size = length-memcpy b.cap b.p v.size; room = omega (arith, v.room) })
    | inr free ↦ rw free v
  ]

  -- After the first half two cells are free, and the text is what it was.
  grow_room :
      (b : Strbuf)
      → IsValid b
      → ((strbuf_grow malloc b).len ≡ b.len)
        × (b.len + 1 < (strbuf_grow malloc b).cap)
        × (contents (strbuf_grow malloc b) ≡ contents b)
  unfolding strbuf_grow
  grow_room b v = elim (Bool-cases (b.len + 1 == b.cap)) [
    | inl full ↦
        rw full
          (refl, ground (arith, v.room), take-memcpy b.len b.cap b.p v.size (omega (arith, v.room)))
    | inr free ↦ rw free (refl, ground (arith, v.room), refl)
  ]

put_lem :
    (b : Strbuf) (ch : ℕ)
    → IsValid b
    → b.len + 1 < b.cap
    → IsValid (strbuf_put b ch)
      × IsTerminated (strbuf_put b ch)
      × (contents (strbuf_put b ch) ≡ contents b ++ ch ∷ [])
unfolding strbuf_put
put_lem b ch v h = (
  record {
    size = length-set (set b.p b.len ch) (b.len + 1) 0 ∙ length-set b.p b.len ch ∙ v.size;
    room = h;
  },
  get_elem?-set_self (set b.p b.len ch) (b.len + 1) 0
      (omega (arith, length-set b.p b.len ch, v.size)),
  take-set (b.len + 1) (b.len + 1) (set b.p b.len ch) 0 (omega arith)
      ∙ rw (add-one) (take-suc-set b.len b.p ch (omega (arith, v.size, v.room))),
)

module _ (malloc : ℕ → List ℕ) (fresh : (n : ℕ) → length (malloc n) ≡ n) where
  pub strbuf_init-IsValid :
      IsValid (strbuf_init malloc)
      × IsTerminated (strbuf_init malloc)
      × (contents (strbuf_init malloc) ≡ [])
  unfolding strbuf_init
  strbuf_init-IsValid = (
    record {
      size = length-set (malloc strbuf_init_len) 0 0 ∙ fresh strbuf_init_len;
      room = omega arith;
    },
    get_elem?-set_self (malloc strbuf_init_len) 0 0 (omega (arith, fresh strbuf_init_len)),
    refl,
  )

  -- strbuf_append puts one byte behind the text and a NUL behind that, growing the block first when
  -- it is full; the block keeps its size and room.
  pub strbuf_append_lem :
      (b : Strbuf) (ch : ℕ)
      → IsValid b
      → IsValid (strbuf_append malloc b ch)
        × IsTerminated (strbuf_append malloc b ch)
        × (contents (strbuf_append malloc b ch) ≡ contents b ++ ch ∷ [])
  unfolding strbuf_append
  strbuf_append_lem b ch v =
      let g = strbuf_grow malloc b in
      let (l, r, t) = grow_room malloc fresh b v in
      let (w, z, c) = put_lem g ch (strbuf_grow-IsValid malloc fresh b v) (omega (arith, l, r)) in
      (w, z, c ∙ ap (λ (s : List ℕ). s ++ ch ∷ []) t)

  cat_lem :
      (b : Strbuf) (s : List ℕ)
      → IsValid b
      → IsValid (strbuf_cat malloc b s) × (contents (strbuf_cat malloc b s) ≡ contents b ++ c_str s)
  unfolding strbuf_cat c_str
  cat_lem b [] v = (v, sym (append-nil _))
  cat_lem b (c ∷ s) v = elim (Bool-cases (c == 0)) [
    | inl end ↦ rw end (v, sym (append-nil _))
    | inr more ↦
        let (w, _, e) = strbuf_append_lem b c v in
        let (x, f) = cat_lem (strbuf_append malloc b c) s w in
        rw more (
          x,
          f ∙ ap (λ (t : List ℕ). t ++ c_str s) e ∙ append_assoc (contents b) (c ∷ []) (c_str s),
        )
  ]

  -- strbuf_cat appends what its argument points at, up to the first NUL.
  pub contents-strbuf_cat :
      (b : Strbuf) (s : List ℕ)
      → IsValid b
      → contents (strbuf_cat malloc b s) ≡ contents b ++ c_str s
  contents-strbuf_cat b s v = (cat_lem b s v).1

  pub strbuf_cat-IsValid : (b : Strbuf) (s : List ℕ) → IsValid b → IsValid (strbuf_cat malloc b s)
  strbuf_cat-IsValid b s v = (cat_lem b s v).0

  -- strbuf_append_num appends the decimal text of the number, whole.
  pub contents-strbuf_append_num :
      (b : Strbuf) (x : ℤ)
      → IsValid b
      → contents (strbuf_append_num malloc b x) ≡ contents b ++ sprintf_d x
  unfolding strbuf_append_num
  contents-strbuf_append_num b x v =
      contents-strbuf_cat b (sprintf_d x) v
      ∙ ap (◌++◌ (contents b)) (c_str_id (sprintf_d x) (sprintf_d-NoNul x))
