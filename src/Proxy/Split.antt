-- ===== src/Proxy/Split.antt =====
-- proxy.c, parse_uri: the parts of a URI.
use http_proxy.Prelude.{
  ℕ, zero, suc, ◌/◌, ◌<◌, ◌≡◌, refl, sym, ap, ◌∙◌, true, false, Option, none, some, List, [], ◌∷◌,
  ◌++◌, ℤ, pos, arith, ltb, ◌==◌, by_test,
}
use mathlib.Core.List.{append_assoc}
use http_proxy.Libc.{is_digit, decimal, atoi_int}
use http_proxy.Proxy.{
  starts_with, http_text, is_delimiter, strpbrk, behind_slash, Uri, port_at, parse_uri,
}
use http_proxy.Libc.Digits.{atoi_int-decimal, port-Fits}

-- No byte of it ends a host name.
abbrev pub NoDelimiter : List ℕ → Type 0
NoDelimiter [] = Unit {0}
NoDelimiter (c ∷ s) = (is_delimiter c ≡ false) × NoDelimiter s

abbrev NoSlash : List ℕ → Type 0
NoSlash [] = Unit {0}
NoSlash (c ∷ s) = ((c == b'/') ≡ false) × NoSlash s

NoSlash-append : (s t : List ℕ) → NoSlash s → NoSlash t → NoSlash (s ++ t)
NoSlash-append [] t h k = k
NoSlash-append (c ∷ s) t h k = (h.0, NoSlash-append s t h.1 k)

host-NoSlash : (s : List ℕ) → NoDelimiter s → NoSlash s
host-NoSlash [] h = tt
host-NoSlash (c ∷ s) h = (ground (arith, h.0), host-NoSlash s h.1)

decimal-NoSlash : (f n : ℕ) → NoSlash (decimal f n)
unfolding decimal
decimal-NoSlash zero n = tt
decimal-NoSlash (suc f) n =
    by_test NoSlash (ltb n 10) (λ _. (ground arith, tt))
      (λ _. NoSlash-append (decimal f (n / 10)) _ (decimal-NoSlash f (n / 10)) (ground arith, tt))

strpbrk-found :
    (host : List ℕ) (c : ℕ) (rest : List ℕ)
    → NoDelimiter host
    → is_delimiter c ≡ true
    → strpbrk (host ++ c ∷ rest) ≡ some (host, c ∷ rest)
unfolding strpbrk
strpbrk-found [] c rest h e =
    by_test (λ (o : Option (List ℕ × List ℕ)). o ≡ some ([], c ∷ rest)) (is_delimiter c) (λ _. refl)
      (λ f. absurd (cc))
strpbrk-found (d ∷ host) c rest h e =
    by_test (λ (o : Option (List ℕ × List ℕ)). o ≡ some (d ∷ host, c ∷ rest)) (is_delimiter d)
      (λ f. absurd (ground (arith, h.0, f))) (λ _. rw (strpbrk-found host c rest h.1 e) refl)

strpbrk-null : (host : List ℕ) → NoDelimiter host → strpbrk host ≡ none
unfolding strpbrk
strpbrk-null [] h = refl
strpbrk-null (d ∷ host) h =
    by_test (λ (o : Option (List ℕ × List ℕ)). o ≡ none) (is_delimiter d)
      (λ f. absurd (ground (arith, h.0, f))) (λ _. rw (strpbrk-null host h.1) refl)

slash-found : (s path : List ℕ) → NoSlash s → behind_slash (s ++ b'/' ∷ path) ≡ some path
unfolding behind_slash
slash-found [] path h = refl
slash-found (c ∷ s) path h = rw (h.0) (slash-found s path h.1)

-- What parse_uri gives where the two searches succeed.
split_at :
    (host rest path text : List ℕ) (c : ℕ) (pathname : List ℕ) (port : ℤ)
    → strpbrk text ≡ some (host, c ∷ rest)
    → behind_slash text ≡ some path
    → parse_uri (http_text ++ text) pathname port
      ≡ some (record { ok = true; hostname = host; pathname = path; port = port_at (c ∷ rest) })
unfolding parse_uri starts_with
split_at host rest path text c pathname port e f =
    let to : Option (List ℕ × List ℕ) → Option Uri = λ o. elim o [
      | none ↦ none
      | some r ↦ some (record {
        ok = true;
        hostname = r.0;
        pathname = elim (behind_slash text) [ none ↦ [] | some p ↦ p ];
        port = port_at r.1;
      })
    ] in
    let with_path : Option (List ℕ) → Option Uri = λ o. some (record {
      ok = true;
      hostname = host;
      pathname = elim o [ none ↦ [] | some p ↦ p ];
      port = port_at (c ∷ rest);
    }) in
    ap to e ∙ ap with_path f

-- Nothing stands behind the host.
parse_uri-null :
    (host pathname : List ℕ) (port : ℤ)
    → NoDelimiter host
    → parse_uri (http_text ++ host) pathname port ≡ none
unfolding parse_uri starts_with
parse_uri-null host pathname port h =
    let to : Option (List ℕ × List ℕ) → Option Uri = λ o. elim o [
      | none ↦ none
      | some r ↦ some (record {
        ok = true;
        hostname = r.0;
        pathname = elim (behind_slash host) [ none ↦ [] | some p ↦ p ];
        port = port_at r.1;
      })
    ] in
    ap to (strpbrk-null host h)

-- parse_uri takes a URI of the form http://host:port/path apart, and http://host/path with port 80,
-- for a host without a delimiter and a port below 65536; on http://host, with nothing behind the host, it
-- follows the NULL that strpbrk returns. (proxy.c:60)
pub parse_uri_lem :
    (host path : List ℕ) (n : ℕ) (pathname : List ℕ) (port : ℤ)
    → NoDelimiter host
    → n < 65536
    → (parse_uri (http_text ++ (host ++ b':' ∷ (decimal 10 n ++ b'/' ∷ path))) pathname port
        ≡ some (record { ok = true; hostname = host; pathname = path; port = pos n }))
      × (parse_uri (http_text ++ (host ++ b'/' ∷ path)) pathname port
          ≡ some (record { ok = true; hostname = host; pathname = path; port = pos 80 }))
      × (parse_uri (http_text ++ host) pathname port ≡ none)
unfolding is_digit
parse_uri_lem host path n pathname port h bound =
    let digits = decimal 10 n ++ b'/' ∷ path in
    let back : atoi_int digits ≡ pos n = atoi_int-decimal 9 n b'/' path (port-Fits n bound) refl in
    let before =
      NoSlash-append host (b':' ∷ decimal 10 n) (host-NoSlash host h)
        (refl, decimal-NoSlash 10 n) in
    let slash : behind_slash (host ++ b':' ∷ digits) ≡ some path =
      ap behind_slash (sym (append_assoc host (b':' ∷ decimal 10 n) (b'/' ∷ path)))
      ∙ slash-found (host ++ b':' ∷ decimal 10 n) path before in
    (
      split_at host digits path (host ++ b':' ∷ digits) b':' pathname port
            (strpbrk-found host b':' digits h refl) slash
          ∙ ap (λ (z : ℤ). some (record { ok = true; hostname = host; pathname = path; port = z }))
              back,
      split_at host path path (host ++ b'/' ∷ path) b'/' pathname port
          (strpbrk-found host b'/' path h refl) (slash-found host path (host-NoSlash host h)),
      parse_uri-null host pathname port h,
    )
