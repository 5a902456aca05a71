-- ===== src/Log/Blocks.antt =====
-- core/log.c: strings in a block of memory.
use http_proxy.Prelude.{
  ℕ, ◌+◌, ◌-◌, ◌≤◌, ◌≡◌, refl, sym, ap, ◌∙◌, Bool, true, ◌==◌, Option, none, some, List, ◌∷◌, ◌++◌,
  arith, leb, by_test, if◌then◌else◌, length, take, drop, length-append, length-drop, take-append,
  drop-append, take_all, drop_all,
}
use http_proxy.Libc.{c_str}
use http_proxy.Log.{put_str, snprintf, strcat}

-- The block begins with this string and its NUL, and is as long as before.
abbrev pub Holds : ℕ → List ℕ → List ℕ → Type 0
Holds n text buf = (rest : List ℕ) × (buf ≡ text ++ 0 ∷ rest) × (length buf ≡ n)

pub put_front :
    (front text s : List ℕ)
    → length text + 1 ≤ length s
    → (b : List ℕ) × (put_str (length front) text (front ++ s) ≡ some b)
      × Holds (length front + length s) (front ++ text) b
unfolding put_str
put_front front text s fits =
    let at = length front in
    let rest = drop (at + length text + 1) (front ++ s) in
    let start = take-append at front s (omega arith) ∙ take_all at front (omega arith) in
    let room : leb (at + length text + 1) (length (front ++ s)) ≡ true =
      ground (arith, length-append front s, fits) in
    let joined : List ℕ → List ℕ = λ x. x ++ text ++ 0 ∷ rest in
    (
      joined (take at (front ++ s)),
      ap (λ (b : Bool). if b then some (joined (take at (front ++ s))) else none) room,
      (
        rest,
        ap joined start,
        ap (λ (x : List ℕ). length (joined x)) start
            ∙ omega (
              arith,
              length-append (front ++ text) (0 ∷ rest),
              length-append front text,
              length-drop (at + length text + 1) (front ++ s),
              length-append front s,
              fits,
            ),
      ),
    )

-- A string is written behind the text that the block begins with.
pub put_behind :
    (n : ℕ) (front text buf : List ℕ)
    → Holds n front buf
    → length front + length text + 1 ≤ n
    → (b : List ℕ) × (put_str (length front) text buf ≡ some b) × Holds n (front ++ text) b
put_behind n front text buf (rest, e, size) fits =
    let total : length front + length (0 ∷ rest) ≡ n =
      sym (length-append front (0 ∷ rest)) ∙ ap length (sym e) ∙ size in
    let (b, put, (r, f, l)) = put_front front text (0 ∷ rest) (omega (arith, total, fits)) in
    (b, ap (put_str (length front) text) e ∙ put, (r, f, l ∙ total))

-- Where the text ends, strcat writes as put_str does.
pub strcat_behind :
    (n : ℕ) (front text buf : List ℕ)
    → Holds n front buf
    → strcat (length front) text buf ≡ put_str (length front) text buf
unfolding strcat c_str
strcat_behind n front text buf (rest, e, size) =
    let behind : drop (length front) buf ≡ 0 ∷ rest =
      ap (drop (length front)) e
      ∙ drop-append (length front) front (0 ∷ rest) (omega arith)
      ∙ ap (λ (x : List ℕ). x ++ 0 ∷ rest) (drop_all (length front) front (omega arith)) in
    let at : length front + length (c_str (drop (length front) buf)) ≡ length front =
      omega (arith, ap (λ (x : List ℕ). length (c_str x)) behind) in
    ap (λ (i : ℕ). put_str i text buf) at

pub snprintf_cuts :
    (at size : ℕ) (text buf : List ℕ)
    → 1 ≤ size
    → snprintf at size text buf ≡ put_str at (take (size - 1) text) buf
unfolding snprintf
snprintf_cuts at size text buf some_room =
    by_test (λ (o : Option (List ℕ)). o ≡ put_str at (take (size - 1) text) buf) (size == 0)
      (λ e. absurd (ground (arith, some_room, e))) (λ _. refl)
