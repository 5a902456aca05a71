-- ===== src/Libc/Laws.antt =====
-- Laws of the text functions that the proxy relies on.
use http_proxy.Prelude.{
  ℕ, zero, suc, ◌+◌, ◌/◌, ◌%◌, ◌≤◌, ◌<◌, ◌≡◌, refl, inl, inr, ◌↔◌, true, List, [], ◌∷◌, ◌++◌, ℤ,
  pos, negsuc, arith, ltb, Bool-cases, length, length-append,
}
use http_proxy.Libc.{c_str, str_eq, decimal, sprintf_d}

-- No byte is NUL.
abbrev pub NoNul : List ℕ → Type 0
NoNul [] = Unit {0}
NoNul (c ∷ s) = (0 < c) × NoNul s

pub c_str_id : (s : List ℕ) → NoNul s → c_str s ≡ s
unfolding c_str
c_str_id [] h = refl
c_str_id (c ∷ s) h = ground (arith, c_str_id s h.1)

pub c_str-NoNul : (s : List ℕ) → NoNul (c_str s)
unfolding c_str
c_str-NoNul [] = tt
c_str-NoNul (c ∷ s) = ground (arith, c_str-NoNul s)

-- A string ends at its NUL.
pub c_str-append : (s t : List ℕ) → NoNul s → c_str (s ++ (0 ∷ t)) ≡ s
unfolding c_str
c_str-append [] t h = refl
c_str-append (c ∷ s) t h = ground (arith, c_str-append s t h.1)

pub NoNul-append : (s t : List ℕ) → NoNul s → NoNul t → NoNul (s ++ t)
NoNul-append [] t h k = k
NoNul-append (c ∷ s) t h k = (h.0, NoNul-append s t h.1 k)

pub decimal-NoNul : (f n : ℕ) → NoNul (decimal f n)
unfolding decimal
decimal-NoNul zero n = tt
decimal-NoNul (suc f) n = elim (Bool-cases (ltb n 10)) [
  | inl small ↦ rw small (omega arith)
  | inr big ↦ rw big (NoNul-append (decimal f (n / 10)) _ (decimal-NoNul f (n / 10)) (omega arith))
]

pub sprintf_d-NoNul : (x : ℤ) → NoNul (sprintf_d x)
unfolding sprintf_d
sprintf_d-NoNul (pos n) = decimal-NoNul 10 n
sprintf_d-NoNul (negsuc n) = (omega arith, decimal-NoNul 10 (n + 1))

pub str_eq_iff : (s t : List ℕ) → (str_eq s t ≡ true) ↔ (s ≡ t)
unfolding str_eq
str_eq_iff [] [] = (λ _. refl, λ _. refl)
str_eq_iff [] (b ∷ t) = (λ h. cc, λ h. cc)
str_eq_iff (a ∷ s) [] = (λ h. cc, λ h. cc)
str_eq_iff (a ∷ s) (b ∷ t) = ground (arith, str_eq_iff s t)

pub length-decimal : (f n : ℕ) → length (decimal f n) ≤ f
unfolding decimal
length-decimal zero n = omega arith
length-decimal (suc f) n = elim (Bool-cases (ltb n 10)) [
  | inl small ↦ rw small (omega arith)
  | inr big ↦ rw big (
      omega
        (arith, length-append (decimal f (n / 10)) ((48 + n % 10) ∷ []), length-decimal f (n / 10)))
]

-- The text of an int and its NUL fit into sixteen bytes.
pub length-sprintf_d : (x : ℤ) → length (sprintf_d x) < 16
unfolding sprintf_d
length-sprintf_d (pos n) = omega (arith, length-decimal 10 n)
length-sprintf_d (negsuc n) = omega (arith, length-decimal 10 (n + 1))
