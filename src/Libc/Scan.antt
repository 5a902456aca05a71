-- ===== src/Libc/Scan.antt =====
-- sscanf ("%x") on a text, as an `int` of 32 bits.
use http_proxy.Prelude.{
  ℕ, ◌+◌, ◌-◌, ◌*◌, ◌%◌, ◌^◌, ◌<◌, min, Bool, ◌||◌, ◌&&◌, Option, none, some, List, [], ◌∷◌, ℤ, pos,
  negsuc, ◌≡◌, refl, ltb, leb, arith, ◌==◌, if◌then◌else◌,
}
use http_proxy.Libc.{skip_spaces, atoi_int}

-- The value of a hexadecimal digit.
unfoldable pub hex_digit : ℕ → Option ℕ
hex_digit c =
    if leb 48 c && leb c 57
    then some (c - 48)
    else if leb 97 c && leb c 102
    then some (c - 87)
    else if leb 65 c && leb c 70
    then some (c - 55)
    else none

-- The digits in front, with `n` for those before them.
unfoldable pub hex_from : ℕ → List ℕ → ℕ
unfolding hex_digit
hex_from n [] = n
hex_from n (c ∷ s) = elim (hex_digit c) [ none ↦ n | some d ↦ hex_from (n * 16 + d) s ]

-- The number that the text begins with, none where it begins with no digit.
unfoldable pub hex_digits : List ℕ → Option ℕ
unfolding hex_digit hex_from
hex_digits [] = none
hex_digits (c ∷ s) = elim (hex_digit c) [ none ↦ none | some d ↦ some (hex_from d s) ]

abbrev pub is_x : ℕ → Bool
is_x c = (c == b'x') || (c == b'X')

-- The same, behind 0x where a digit follows.
unfoldable pub hex_number : List ℕ → Option ℕ
unfolding hex_digits
hex_number (c ∷ x ∷ s) = elim (hex_digits s) [
  | none ↦ hex_digits (c ∷ x ∷ s)
  | some n ↦ if (c == b'0') && is_x x then some n else hex_digits (c ∷ x ∷ s)
]
hex_number s = hex_digits s

-- An unsigned long in an `int`; beyond its 64 bits strtoul gives the largest.
unfoldable pub int_of : ℕ → ℤ
int_of n =
    let m = n % 2 ^ 32 in
    if leb (2 ^ 64) n then negsuc 0 else if ltb m (2 ^ 31) then pos m else negsuc (2 ^ 32 - 1 - m)

-- The same of a number behind a minus.
unfoldable pub minus_of : ℕ → ℤ
unfolding int_of
minus_of n = if leb (2 ^ 64) n then negsuc 0 else int_of ((2 ^ 64 - n) % 2 ^ 64)

abbrev pub int_or : ℤ → (ℕ → ℤ) → Option ℕ → ℤ
int_or z f none = z
int_or z f (some n) = f n

-- What sscanf (s, "%x", &x) leaves in x: `z`, its value before, where there is no number.
unfoldable pub sscanf_x : ℤ → List ℕ → ℤ
unfolding skip_spaces hex_number int_of minus_of
sscanf_x z s = elim (skip_spaces s) [
  | [] ↦ z
  | c ∷ t ↦
      if c == b'-'
      then int_or z minus_of (hex_number t)
      else if c == b'+'
      then int_or z int_of (hex_number t)
      else int_or z int_of (hex_number (c ∷ t))
]

ff_is_255 : sscanf_x (negsuc 0) (32 ∷ b'f' ∷ b'F' ∷ 13 ∷ 10 ∷ []) ≡ pos 255
unfolding sscanf_x
ff_is_255 = refl

large_is_negative :
    sscanf_x (pos 0) (b'0' ∷ b'x' ∷ b'f' ∷ b'f' ∷ b'f' ∷ b'f' ∷ b'f' ∷ b'f' ∷ b'f' ∷ b'e' ∷ [])
    ≡ negsuc 1
unfolding sscanf_x
large_is_negative = refl

text_is_none : sscanf_x (negsuc 0) (b'q' ∷ 13 ∷ 10 ∷ []) ≡ negsuc 0
unfolding sscanf_x
text_is_none = refl

minus_zero_is_zero : sscanf_x (pos 7) (b'-' ∷ b'0' ∷ 13 ∷ 10 ∷ []) ≡ pos 0
unfolding sscanf_x
minus_zero_is_zero = refl

-- An `int` for a value that is computed in 32 bits.
abbrev pub int32 : ℤ → ℤ
int32 (pos n) = int_of n
int32 (negsuc n) = minus_of (n + 1)

-- A `long` for a number in a text: strtol gives the nearest.
abbrev pub long_of : ℤ → ℤ
long_of (pos n) = pos (min n (2 ^ 63 - 1))
long_of (negsuc n) = negsuc (min n (2 ^ 63 - 1))

-- atoi, as strtol in an `int`.
unfoldable pub atoi_32 : List ℕ → ℤ
unfolding atoi_int int_of minus_of
atoi_32 s = int32 (long_of (atoi_int s))

-- Below 2^31 nothing is lost.
pub atoi_32-eq : (s : List ℕ) (n : ℕ) → atoi_int s ≡ pos n → n < 2 ^ 31 → atoi_32 s ≡ pos n
unfolding atoi_32 int_of
atoi_32-eq s n e small = rw e (ground arith)
