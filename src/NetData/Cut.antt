-- ===== src/NetData/Cut.antt =====
-- core/net_data.c: a key in its array, and the two NULs that cut a header line in its buffer.
use http_proxy.Prelude.{
  ℕ, zero, suc, ◌+◌, ◌<◌, ◌≡◌, refl, ap, ◌∙◌, List, [], ◌∷◌, ◌++◌, inl, inr, arith, ◌==◌,
  Bool-cases, length, drop, set,
}
use http_proxy.Libc.{c_str}
use http_proxy.NetData.{strncpy}

pub c_str-pad : (n : ℕ) (t : List ℕ) → 0 < n → c_str (strncpy n [] ++ t) ≡ []
unfolding c_str strncpy
c_str-pad zero t h = absurd (omega arith)
c_str-pad (suc n) t h = refl

-- A key that is shorter than its array is stored whole.
pub key_fits : (n : ℕ) (s t : List ℕ) → length (c_str s) < n → c_str (strncpy n s ++ t) ≡ c_str s
unfolding c_str strncpy
key_fits zero s t h = absurd (omega arith)
key_fits (suc n) [] t h = refl
key_fits (suc n) (c ∷ s) t h = elim (Bool-cases (c == 0)) [
  | inl nul ↦ rw nul refl
  | inr char ↦
      let short : length (c_str s) < n = ground arith in
      rw (char, key_fits n s t short) (ground arith)
]

pub set_at :
    (xs ys : List ℕ) (i u v : ℕ) → i ≡ length xs → set (xs ++ (u ∷ ys)) i v ≡ xs ++ (v ∷ ys)
set_at [] ys zero u v e = refl
set_at [] ys (suc i) u v e = absurd (omega arith)
set_at (x ∷ xs) ys zero u v e = absurd (omega arith)
set_at (x ∷ xs) ys (suc i) u v e = ap (λ (zs : List ℕ). x ∷ zs) (set_at xs ys i u v (omega arith))

pub set_in :
    (xs ys : List ℕ) (i j v : ℕ) → i ≡ length xs + j → set (xs ++ ys) i v ≡ xs ++ set ys j v
set_in [] ys i j v e = let f : i ≡ j = omega arith in ap (λ (n : ℕ). set ys n v) f
set_in (x ∷ xs) ys zero j v e = absurd (omega arith)
set_in (x ∷ xs) ys (suc i) j v e = ap (λ (zs : List ℕ). x ∷ zs) (set_in xs ys i j v (omega arith))

pub drop_in : (xs ys : List ℕ) (i j : ℕ) → i ≡ length xs + j → drop i (xs ++ ys) ≡ drop j ys
drop_in [] ys i j e = let f : i ≡ j = omega arith in ap (λ (n : ℕ). drop n ys) f
drop_in (x ∷ xs) ys zero j e = absurd (omega arith)
drop_in (x ∷ xs) ys (suc i) j e = drop_in xs ys i j (omega arith)

-- A header line in a buffer: what stands before it, the key, a separator of one byte or more, the
-- value, and the byte behind it. The two writes of net_parse_header end the key and the value.
pub cut_line :
    (pre k sep v rest : List ℕ) (s z i j : ℕ)
    → i ≡ length pre + length k
    → j ≡ length pre + (length k + (suc (length sep) + length v))
    → set (set (pre ++ (k ++ (s ∷ (sep ++ (v ++ (z ∷ rest)))))) i 0) j 0
      ≡ pre ++ (k ++ (0 ∷ (sep ++ (v ++ (0 ∷ rest)))))
cut_line pre k sep v rest s z i j ei ej =
    let tail = sep ++ (v ++ (z ∷ rest)) in
    let first =
      set_in pre (k ++ (s ∷ tail)) i (length k) 0 ei
      ∙ ap (λ (x : List ℕ). pre ++ x) (set_at k tail (length k) s 0 refl) in
    let n = length k + (suc (length sep) + length v) in
    let m = suc (length sep) + length v in
    ap (λ (x : List ℕ). set x j 0) first
    ∙ set_in pre (k ++ (0 ∷ tail)) j n 0 ej
    ∙ ap (λ (x : List ℕ). pre ++ x)
        (set_in k (0 ∷ tail) n m 0 refl
          ∙ ap (λ (x : List ℕ). k ++ x)
              (set_in (0 ∷ sep) (v ++ (z ∷ rest)) m (length v) 0 refl
                ∙ ap (λ (x : List ℕ). (0 ∷ sep) ++ x) (set_at v rest (length v) z 0 refl)))
