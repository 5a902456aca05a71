-- ===== src/Log/Bounds.antt =====
-- core/log.c: gen_log_string stays inside its buffer, and what it leaves there.
use http_proxy.Prelude.{
  ℕ, zero, suc, ◌+◌, ◌-◌, ◌≤◌, ◌<◌, ◌≡◌, refl, sym, ap, subst, ◌∙◌, Bool, true, false, Option, none,
  some, List, [], ◌∷◌, ◌++◌, arith, leb, by_test, if◌then◌else◌, length, take, length-append,
  length-take, take_all,
}
use http_proxy.Libc.{c_str}
use http_proxy.Libc.Laws.{NoNul, c_str-append, NoNul-append}
use http_proxy.Log.{put_str, snprintf, strcat, size_t, dots, gen_log_string}
use http_proxy.Log.Blocks.{Holds, put_front, put_behind, strcat_behind, snprintf_cuts}

-- What fits into n bytes with the NUL: all of it, or a first part and the dots.
abbrev pub printed : ℕ → List ℕ → List ℕ → List ℕ
printed n prefix text =
    if leb n (length text + length prefix + 4)
    then prefix ++ take (n - (length prefix + 4) - 1) text ++ dots
    else prefix ++ text

-- The prefix, where it fits.
first_part :
    (n : ℕ) (prefix out : List ℕ)
    → length out ≡ n
    → length prefix + 1 ≤ n
    → (b : List ℕ) × (snprintf 0 n prefix out ≡ some b) × Holds n prefix b
first_part n prefix out size fits =
    let (b, put, h) = put_front [] prefix out (omega (arith, size, fits)) in
    let whole = take_all (n - 1) prefix (omega (arith, fits)) in
    let zero_front : 0 + length out ≡ n = omega (arith, size) in
    (
      b,
      snprintf_cuts 0 n prefix out (omega (arith, fits))
          ∙ ap (λ (t : List ℕ). put_str 0 t out) whole
          ∙ put,
      (h.0, h.1, h.2 ∙ zero_front),
    )

-- The text behind the prefix, cut where four bytes and a NUL are left.
second_part :
    (n : ℕ) (prefix text b : List ℕ)
    → length prefix + 5 ≤ n
    → Holds n prefix b
    → (b₂ : List ℕ) × (snprintf (length prefix) (size_t n (length prefix + 4)) text b ≡ some b₂)
      × Holds n (prefix ++ take (n - (length prefix + 4) - 1) text) b₂
second_part n prefix text b fits h =
    let m = n - (length prefix + 4) in
    let size : size_t n (length prefix + 4) ≡ m = ground (arith, fits) in
    let cut = take (m - 1) text in
    let (b₂, put, k) =
      put_behind n prefix cut b h (omega (arith, length-take (m - 1) text, fits)) in
    (
      b₂,
      ap (λ (i : ℕ). snprintf (length prefix) i text b) size
          ∙ snprintf_cuts (length prefix) m text b (omega (arith, fits))
          ∙ put,
      k,
    )

-- The dots, for a text that was cut.
third_part :
    (n : ℕ) (front b : List ℕ)
    → length front + 5 ≡ n
    → Holds n front b
    → (b₃ : List ℕ) × (strcat (n - 5) dots b ≡ some b₃) × Holds n (front ++ dots) b₃
third_part n front b fits h =
    let at : n - 5 ≡ length front = omega (arith, fits) in
    let (b₃, put, k) = put_behind n front dots b h (omega (arith, fits)) in
    (b₃, ap (λ (i : ℕ). strcat i dots b) at ∙ strcat_behind n front dots b h ∙ put, k)

-- A run of gen_log_string that writes inside its buffer.
abbrev Printed : ℕ → List ℕ → Option (List ℕ) → Type 0
Printed n whole o = (b : List ℕ) × (o ≡ some b) × Holds n whole b

-- The last test.
with_dots :
    (n : ℕ) (prefix text b : List ℕ) (cuts : Bool)
    → length prefix + 5 ≤ n
    → leb n (length text + length prefix + 4) ≡ cuts
    → Holds n (prefix ++ take (n - (length prefix + 4) - 1) text) b
    → Printed n
        (if cuts then prefix ++ take (n - (length prefix + 4) - 1) text ++ dots else prefix ++ text)
        (if cuts then strcat (n - 5) dots b else some b)
with_dots n prefix text b true fits long k =
    let cut = take (n - (length prefix + 4) - 1) text in
    third_part n (prefix ++ cut) b
      (ground (
        arith,
        length-append prefix cut,
        length-take (n - (length prefix + 4) - 1) text,
        fits,
        long,
      ))
      k
with_dots n prefix text b false fits short k =
    let whole = take_all (n - (length prefix + 4) - 1) text (ground (arith, fits, short)) in
    (b, refl, subst (λ (t : List ℕ). Holds n (prefix ++ t) b) whole k)

gen_log_string-Printed :
    (n : ℕ) (prefix text out : List ℕ)
    → length out ≡ n
    → length prefix + 5 ≤ n
    → Printed n (printed n prefix text) (gen_log_string n prefix text out)
unfolding gen_log_string
gen_log_string-Printed n prefix text out size fits =
    let (b, p, h) = first_part n prefix out size (omega (arith, fits)) in
    let (b₂, q, k) = second_part n prefix text b fits h in
    let end : Option (List ℕ) → Option (List ℕ) = λ o. elim o [
      | none ↦ none
      | some x ↦ if leb n (length text + length prefix + 4) then strcat (n - 5) dots x else some x
    ] in
    let tail : Option (List ℕ) → Option (List ℕ) = λ o. elim o [
      | none ↦ none
      | some x ↦ end (snprintf (length prefix) (size_t n (length prefix + 4)) text x)
    ] in
    subst (Printed n (printed n prefix text)) (sym (ap tail p ∙ ap end q))
      (with_dots n prefix text b₂ (leb n (length text + length prefix + 4)) fits refl k)

NoNul-take : (n : ℕ) (s : List ℕ) → NoNul s → NoNul (take n s)
NoNul-take zero s h = tt
NoNul-take (suc n) [] h = tt
NoNul-take (suc n) (c ∷ s) h = (h.0, NoNul-take n s h.1)

NoNul-printed :
    (n : ℕ) (prefix text : List ℕ) → NoNul prefix → NoNul text → NoNul (printed n prefix text)
NoNul-printed n prefix text h k =
    let cut = take (n - (length prefix + 4) - 1) text in
    by_test NoNul (leb n (length text + length prefix + 4))
      (λ _.
        NoNul-append (prefix ++ cut) dots
          (NoNul-append prefix cut h (NoNul-take (n - (length prefix + 4) - 1) text k))
          (omega arith))
      (λ _. NoNul-append prefix text h k)

-- gen_log_string writes nothing outside its buffer, whatever the message, where the date, file and
-- line leave five bytes of it or more: it leaves a string that ends inside the buffer, the whole
-- line where it fits into all but four bytes, and else a first part of it and ` ...`.
pub gen_log_string_lem :
    (n : ℕ) (prefix text out : List ℕ)
    → length out ≡ n
    → length prefix + 5 ≤ n
    → NoNul prefix
    → NoNul text
    → (b : List ℕ) × (gen_log_string n prefix text out ≡ some b)
      × (c_str b ≡ printed n prefix text)
      × (length b ≡ n)
      × (length (c_str b) < n)
gen_log_string_lem n prefix text out size fits h k =
    let (b, e, (rest, f, l)) = gen_log_string-Printed n prefix text out size fits in
    let whole = printed n prefix text in
    let string = ap c_str f ∙ c_str-append whole rest (NoNul-printed n prefix text h k) in
    (
      b,
      e,
      string,
      l,
      omega (arith, ap length string, ap length f, l, length-append whole (0 ∷ rest)),
    )
