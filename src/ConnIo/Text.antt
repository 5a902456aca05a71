-- ===== src/ConnIo/Text.antt =====
-- core/conn_io.c, conn_gets on a live connection: the text of a line, however it arrives, and the
-- byte that it takes for an error.
use http_proxy.Prelude.{
  ℕ, suc, ◌+◌, ◌-◌, ◌<◌, ◌≡◌, refl, sym, ap, subst, ◌∙◌, inl, inr, ◌≢◌, false, List, [], ◌∷◌, ◌++◌,
  arith, ℤ, pos, is_minus_one, ltb, ◌==◌, Bool-cases, length, ◌||◌,
}
use mathlib.Core.List.{append_assoc, append-nil}
use http_proxy.Run.{Returns, Returns-bind, Returns-if}
use http_proxy.Strbuf.{Strbuf, contents, strbuf_append}
use http_proxy.Strbuf.Laws.{IsValid, strbuf_append_lem}
use http_proxy.Strbuf.Bounds.{len-strbuf_append}
use http_proxy.Conn.{Conn, World}
use http_proxy.ConnIo.{State, stream, to_int, to_char, cr, lf, gets_loop}
use http_proxy.ConnIo.Buffer.{IsBuffered}
use http_proxy.ConnIo.Live.{IsLive, conn_getc-IsLive}

-- Neither CR nor LF, nor the byte whose `char` is -1.
abbrev pub IsPlain : ℕ → Type 0
IsPlain x = (x < 255) × (x ≢ cr) × (x ≢ lf)

abbrev pub IsPlainText : List ℕ → Type 0
IsPlainText [] = Unit {0}
IsPlainText (x ∷ l) = IsPlain x × IsPlainText l

to_char-to_int : (x : ℕ) → x < 256 → to_char (to_int x) ≡ x
to_char-to_int x h = ground arith

is_minus_one-to_int : (x : ℕ) → x < 255 → is_minus_one (to_int x) ≡ false
is_minus_one-to_int x h = elim (Bool-cases (ltb x 128)) [
  | inl low ↦ rw low refl
  | inr high ↦ let e : 255 - x ≡ suc (254 - x) = omega arith in rw (high, e) refl
]

plain_char : (ch : ℤ) (a : ℕ) → ch ≡ to_int a → a < 255 → to_char ch ≡ a
plain_char ch a e h = ap to_char e ∙ to_char-to_int a (omega arith)

-- The rounds that a text takes, and `fuel` more.
abbrev pub rounds : List ℕ → ℕ → ℕ
rounds [] fuel = fuel
rounds (x ∷ l) fuel = suc (rounds l fuel)

pub rounds_lem : (l : List ℕ) (fuel : ℕ) → rounds l fuel ≡ length l + fuel
rounds_lem [] fuel = omega arith
rounds_lem (x ∷ l) fuel = omega (arith, rounds_lem l fuel)

-- The text `l` has been read behind `b`, and `t` is still to come.
pub record HasRead (b : Strbuf) (l t : List ℕ) (b' : Strbuf) (s : State) : Type 0 where
  pub rest : stream s.0 ≡ t
  pub buffered : IsBuffered s.0
  pub live : IsLive s
  pub valid : IsValid b'
  pub text : contents b' ≡ contents b ++ l
  pub len : b'.len ≡ b.len + length l

joined :
    (b b₁ b' : Strbuf) (a ch : ℕ) (l : List ℕ)
    → ch ≡ a
    → contents b₁ ≡ contents b ++ ch ∷ []
    → contents b' ≡ contents b₁ ++ l
    → contents b' ≡ contents b ++ a ∷ l
joined b b₁ b' a ch l e f g =
    g
    ∙ ap (λ (p : List ℕ). p ++ l) f
    ∙ append_assoc (contents b) (ch ∷ []) l
    ∙ ap (λ (x : ℕ). contents b ++ x ∷ l) e

module _ (malloc : ℕ → List ℕ) (fresh : (n : ℕ) → length (malloc n) ≡ n) (len_limit : ℕ)
    {R : ℤ × Strbuf → State → Type 0} where
  pub gets_plain :
      (l t : List ℕ) (fuel n : ℕ) (b : Strbuf) (c : Conn) (w : World)
      → IsPlainText l
      → IsBuffered c
      → IsLive (c, w)
      → IsValid b
      → stream c ≡ l ++ t
      → b.len + length l + 1 < len_limit
      → ((b' : Strbuf) (s : State)
          → HasRead b l t b' s
          → Returns R (gets_loop malloc fuel len_limit (pos (n + length l)) b' s))
      → Returns R (gets_loop malloc (rounds l fuel) len_limit (pos n) b (c, w))
  unfolding gets_loop
  gets_plain [] t fuel n b c w p v live x e h next =
      let k : n + 0 ≡ n = omega arith in
      subst (λ (m : ℕ). Returns R (gets_loop malloc fuel len_limit (pos m) b (c, w))) k
        (next b (c, w)
          (record {
            rest = e;
            buffered = v;
            live = live;
            valid = x;
            text = sym (append-nil (contents b));
            len = omega arith;
          }))
  gets_plain (a ∷ l) t fuel n b c w p v live x e h next =
      Returns-if (b.len + 1 == len_limit) (λ full. absurd (ground arith))
        (λ _. Returns-bind (conn_getc-IsLive c w a (l ++ t) v live e) λ ch s (is, rest, v', live').
          Returns-if (is_minus_one ch) (λ bad. absurd (cc (is_minus_one-to_int a p.0.0)))
            (λ _.
              Returns-if ((to_char ch == cr) || (to_char ch == lf))
                (λ eol. absurd (ground (arith, plain_char ch a is p.0.0)))
                (λ _.
                  let b₁ = strbuf_append malloc b (to_char ch) in
                  let (x₁, _, text) = strbuf_append_lem malloc fresh b (to_char ch) x in
                  let m = len-strbuf_append malloc b (to_char ch) in
                  gets_plain l t fuel (suc n) b₁ s.0 s.1 p.1 v' live' x₁ rest (omega (arith, m))
                    λ b' s' r.
                      let k : suc n + length l ≡ n + suc (length l) = omega arith in
                      subst (λ (i : ℕ). Returns R (gets_loop malloc fuel len_limit (pos i) b' s'))
                        (sym k)
                        (next b' s' (record {
                          rest = r.rest;
                          buffered = r.buffered;
                          live = r.live;
                          valid = r.valid;
                          text =
                              joined b b₁ b' a (to_char ch) l (plain_char ch a is p.0.0) text
                                r.text;
                          len = omega (arith, r.len, m);
                        })))))
