-- ===== src/Libc.antt =====
-- What the proxy uses of the C library on text: strings that end at a NUL, strcmp, atoi and
-- sprintf ("%d"). A text is the list of its bytes.
pub mod Laws
pub mod Scan
pub mod Digits
use http_proxy.Prelude.{
  ℕ, zero, suc, ◌+◌, ◌-◌, ◌*◌, ◌/◌, ◌%◌, Bool, true, false, ◌&&◌, ◌||◌, List, [], ◌∷◌, ◌++◌, ℤ, pos,
  negsuc, ltb, leb, ◌==◌, if◌then◌else◌,
}

-- The string that starts at the first cell: what stands before the first NUL.
unfoldable pub c_str : List ℕ → List ℕ
c_str [] = []
c_str (c ∷ s) = if c == 0 then [] else c ∷ c_str s

-- strcmp (a, b) == 0
unfoldable pub str_eq : List ℕ → List ℕ → Bool
str_eq [] [] = true
str_eq [] (b ∷ t) = false
str_eq (a ∷ s) [] = false
str_eq (a ∷ s) (b ∷ t) = (a == b) && str_eq s t

unfoldable pub is_digit : ℕ → Bool
is_digit c = leb 48 c && leb c 57

-- atoi on a string of digits, with what follows left unread; no sign, as in the proxy's uses.
unfoldable pub atoi_from : ℕ → List ℕ → ℕ
unfolding is_digit
atoi_from n [] = n
atoi_from n (c ∷ s) = let rest = atoi_from (n * 10 + (c - 48)) s in if is_digit c then rest else n

unfoldable pub atoi : List ℕ → ℕ
unfolding atoi_from
atoi = atoi_from 0

-- The decimal digits of n, at most `fuel` of them.
unfoldable pub decimal : ℕ → ℕ → List ℕ
decimal zero n = []
decimal (suc fuel) n =
    let front = decimal fuel (n / 10) in
    if ltb n 10 then (48 + n) ∷ [] else front ++ (48 + n % 10) ∷ []

-- sprintf (res, "%d", x): an int has ten digits at most.
unfoldable pub sprintf_d : ℤ → List ℕ
unfolding decimal
sprintf_d (pos n) = decimal 10 n
sprintf_d (negsuc n) = b'-' ∷ decimal 10 (n + 1)

unfoldable pub skip_spaces : List ℕ → List ℕ
skip_spaces [] = []
skip_spaces (c ∷ s) = if (c == 32) || (leb 9 c && leb c 13) then skip_spaces s else c ∷ s

unfoldable pub signed : List ℕ → ℤ
unfolding atoi
signed [] = pos 0
signed (c ∷ s) =
    if c == b'-'
    then (if atoi s == 0 then pos 0 else negsuc (atoi s - 1))
    else if c == b'+'
    then pos (atoi s)
    else pos (atoi (c ∷ s))

-- atoi in full: white space, a sign, digits.
unfoldable pub atoi_int : List ℕ → ℤ
unfolding skip_spaces signed
atoi_int s = signed (skip_spaces s)
