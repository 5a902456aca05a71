-- ===== src/Libc/Digits.antt =====
-- Numbers in decimal form, read back by atoi.
use http_proxy.Prelude.{
  ℕ, zero, suc, ◌+◌, ◌-◌, ◌*◌, ◌/◌, ◌%◌, ◌<◌, ◌≡◌, refl, ap, sym, ◌∙◌, true, false, ◌&&◌, ◌||◌,
  List, [], ◌∷◌, ◌++◌, ℤ, pos, arith, ltb, leb, ◌==◌, by_test, subst, inl, inr, Bool-cases,
}
use http_proxy.Libc.{is_digit, atoi_from, atoi, decimal, skip_spaces, signed, atoi_int}

-- What the digits add to the number in front of them.
abbrev value : ℕ → List ℕ → ℕ
value m [] = m
value m (c ∷ s) = value (m * 10 + (c - 48)) s

abbrev AllDigits : List ℕ → Type 0
AllDigits [] = Unit {0}
AllDigits (c ∷ s) = (is_digit c ≡ true) × AllDigits s

-- n has f digits at most.
abbrev pub Fits : ℕ → ℕ → Type 0
Fits zero n = n ≡ 0
Fits (suc f) n = Fits f (n / 10)

value-append : (m : ℕ) (s t : List ℕ) → value m (s ++ t) ≡ value (value m s) t
value-append m [] t = refl
value-append m (c ∷ s) t = value-append (m * 10 + (c - 48)) s t

AllDigits-append : (s t : List ℕ) → AllDigits s → AllDigits t → AllDigits (s ++ t)
AllDigits-append [] t h k = k
AllDigits-append (c ∷ s) t h k = (h.0, AllDigits-append s t h.1 k)

atoi_from-value :
    (m : ℕ) (s : List ℕ) (c : ℕ) (t : List ℕ)
    → AllDigits s
    → is_digit c ≡ false
    → atoi_from m (s ++ c ∷ t) ≡ value m s
unfolding atoi_from
atoi_from-value m [] c t h e = rw e refl
atoi_from-value m (d ∷ s) c t h e = rw (h.0) (atoi_from-value (m * 10 + (d - 48)) s c t h.1 e)

decimal-AllDigits : (f n : ℕ) → AllDigits (decimal f n)
unfolding decimal is_digit
decimal-AllDigits zero n = tt
decimal-AllDigits (suc f) n = elim (Bool-cases (ltb n 10)) [
  | inl small ↦ rw small (ground (arith, small), tt)
  | inr big ↦ rw big (
      AllDigits-append (decimal f (n / 10)) ((48 + n % 10) ∷ []) (decimal-AllDigits f (n / 10))
        (ground arith, tt))
]

value-decimal : (f n : ℕ) → Fits f n → value 0 (decimal f n) ≡ n
unfolding decimal
value-decimal zero n e = sym e
value-decimal (suc f) n e = elim (Bool-cases (ltb n 10)) [
  | inl small ↦ rw small (omega arith)
  | inr big ↦ rw big (
      value-append 0 (decimal f (n / 10)) ((48 + n % 10) ∷ [])
      ∙ omega (arith, value-decimal f (n / 10) e))
]

-- A digit is no space and no sign.
skip-digit : (c : ℕ) (s : List ℕ) → is_digit c ≡ true → skip_spaces (c ∷ s) ≡ c ∷ s
unfolding skip_spaces is_digit
skip-digit c s d =
    by_test (λ (r : List ℕ). r ≡ c ∷ s) ((c == 32) || (leb 9 c && leb c 13))
      (λ e. absurd (ground (arith, d, e))) (λ _. refl)

signed-digit : (c : ℕ) (s : List ℕ) → is_digit c ≡ true → signed (c ∷ s) ≡ pos (atoi (c ∷ s))
unfolding signed is_digit
signed-digit c s d =
    by_test (λ (z : ℤ). z ≡ pos (atoi (c ∷ s))) (c == b'-') (λ e. absurd (ground (arith, d, e)))
      (λ _.
        by_test (λ (z : ℤ). z ≡ pos (atoi (c ∷ s))) (c == b'+') (λ e. absurd (ground (arith, d, e)))
          (λ _. refl))

atoi_int-digit : (c : ℕ) (s : List ℕ) → is_digit c ≡ true → atoi_int (c ∷ s) ≡ pos (atoi (c ∷ s))
unfolding atoi_int
atoi_int-digit c s d = ap signed (skip-digit c s d) ∙ signed-digit c s d

first_of : (l : List ℕ) (x : ℕ) → (c : ℕ) × (s : List ℕ) × (l ++ x ∷ [] ≡ c ∷ s)
first_of [] x = (x, [], refl)
first_of (c ∷ l) x = (c, l ++ x ∷ [], refl)

decimal_first : (f n : ℕ) → (c : ℕ) × (s : List ℕ) × (decimal (suc f) n ≡ c ∷ s)
unfolding decimal
decimal_first f n =
    by_test (λ (l : List ℕ). (c : ℕ) × (s : List ℕ) × (l ≡ c ∷ s)) (ltb n 10)
      (λ _. (48 + n, [], refl)) (λ _. first_of (decimal f (n / 10)) (48 + n % 10))

-- atoi reads the decimal form of a number back, in front of a byte that is no digit.
pub atoi_int-decimal :
    (f n c : ℕ) (t : List ℕ)
    → Fits (suc f) n
    → is_digit c ≡ false
    → atoi_int (decimal (suc f) n ++ c ∷ t) ≡ pos n
unfolding atoi
atoi_int-decimal f n c t e stop =
    let (d, s, same) = decimal_first f n in
    let digits = subst AllDigits same (decimal-AllDigits (suc f) n) in
    ap (λ (l : List ℕ). atoi_int (l ++ c ∷ t)) same
    ∙ atoi_int-digit d (s ++ c ∷ t) digits.0
    ∙ ap pos (
        ap (λ (l : List ℕ). atoi (l ++ c ∷ t)) (sym same)
        ∙ atoi_from-value 0 (decimal (suc f) n) c t (decimal-AllDigits (suc f) n) stop
        ∙ value-decimal (suc f) n e)

pub port-Fits : (n : ℕ) → n < 65536 → Fits 10 n
port-Fits n h = omega arith

pub cancel : (s t u : List ℕ) → s ++ t ≡ s ++ u → t ≡ u
cancel [] t u e = e
cancel (c ∷ s) t u e =
    let rest : List ℕ → List ℕ = λ l. elim l [ [] ↦ [] | x ∷ xs ↦ xs ] in cancel s t u (ap rest e)

number_of : ℤ → ℕ
number_of z = elim z [ pos n ↦ n | _ ↦ 0 ]

-- A number in decimal form and a byte that is no digit: the number and what follows are determined.
pub decimal_apart :
    (a b c : ℕ) (s t : List ℕ)
    → a < 65536
    → b < 65536
    → is_digit c ≡ false
    → decimal 10 a ++ c ∷ s ≡ decimal 10 b ++ c ∷ t
    → (a ≡ b) × (s ≡ t)
unfolding number_of
decimal_apart a b c s t small small' stop e =
    let same : a ≡ b = ap number_of (
      sym (atoi_int-decimal 9 a c s (port-Fits a small) stop)
      ∙ ap atoi_int e
      ∙ atoi_int-decimal 9 b c t (port-Fits b small') stop) in
    let front = ap (λ (n : ℕ). decimal 10 n ++ c ∷ t) (sym same) in
    let behind : List ℕ → List ℕ = λ l. elim l [ [] ↦ [] | x ∷ xs ↦ xs ] in
    (same, ap behind (cancel (decimal 10 a) (c ∷ s) (c ∷ t) (e ∙ front)))
