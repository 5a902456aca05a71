-- ===== src/Proxy.antt =====
-- proxy.c: parse_uri and format_log_entry. A string is the list of its bytes without the NUL.

pub mod Split
pub mod Dotted
mod Tests
use http_proxy.Prelude.{
  ℕ, ◌*◌, ◌/◌, ◌%◌, ◌^◌, Bool, true, false, ◌||◌, ◌&&◌, Option, none, some, List, [], ◌∷◌, ◌++◌, ℤ,
  pos, leb, ◌==◌, ◌+◌, if◌then◌else◌, drop,
}
use http_proxy.Libc.{decimal, str_eq, atoi_int}

-- tolower
abbrev pub to_lower : ℕ → ℕ
to_lower c = if leb 65 c && leb c 90 then c + 32 else c

-- strncasecmp (s, t, length t) == 0, for a `t` in lower case
unfoldable pub starts_with : List ℕ → List ℕ → Bool
starts_with s [] = true
starts_with [] (b ∷ t) = false
starts_with (a ∷ s) (b ∷ t) = (to_lower a == b) && starts_with s t

abbrev pub http_text : List ℕ
http_text = b'h' ∷ b't' ∷ b't' ∷ b'p' ∷ b':' ∷ b'/' ∷ b'/' ∷ []

-- " :/\r\n", with the NUL behind it as the end of the set
abbrev pub is_delimiter : ℕ → Bool
is_delimiter c = (c == b' ') || (c == b':') || (c == b'/') || (c == 13) || (c == 10)

-- strpbrk: what stands in front of the first delimiter, and the string from it on; none for NULL.
unfoldable pub strpbrk : List ℕ → Option (List ℕ × List ℕ)
strpbrk [] = none
strpbrk (c ∷ s) =
    if is_delimiter c
    then some ([], c ∷ s)
    else elim (strpbrk s) [ none ↦ none | some r ↦ some (c ∷ r.0, r.1) ]

-- strchr (s, '/') + 1
unfoldable pub behind_slash : List ℕ → Option (List ℕ)
behind_slash [] = none
behind_slash (c ∷ s) = let rest = behind_slash s in if c == b'/' then some s else rest

-- The outputs; true for 0. Where it is false only hostname is written.
pub record Uri : Type 0 where
  pub ok : Bool
  pub hostname : List ℕ
  pub pathname : List ℕ
  pub port : ℤ

-- The port behind hostend, with 80 as default.
abbrev pub port_at : List ℕ → ℤ
port_at [] = pos 80
port_at (c ∷ s) = if c == b':' then atoi_int s else pos 80

-- parse_uri; pathname and port are what the two variables held before. None where it follows the
-- NULL of strpbrk.
unfoldable pub parse_uri : List ℕ → List ℕ → ℤ → Option Uri
unfolding starts_with strpbrk behind_slash atoi_int
parse_uri uri pathname port =
    if starts_with uri http_text
    then elim (strpbrk (drop 7 uri)) [
      | none ↦ none
      | some (host, rest) ↦ some (record {
        ok = true;
        hostname = host;
        pathname = elim (behind_slash (drop 7 uri)) [ none ↦ [] | some path ↦ path ];
        port = port_at rest;
      })
    ]
    else some (record { ok = false; hostname = []; pathname = pathname; port = port })

-- A byte of the address, in host order.
abbrev pub byte_at : ℕ → ℕ → ℕ
byte_at i host = host / 2 ^ (8 * i) % 256

abbrev pub dot : List ℕ
dot = b'.' ∷ []

-- The dotted decimal form that format_log_entry prints.
unfoldable pub dotted : ℕ → List ℕ
unfolding decimal
dotted host =
    decimal 10 (byte_at 3 host)
    ++ dot
    ++ decimal 10 (byte_at 2 host)
    ++ dot
    ++ decimal 10 (byte_at 1 host)
    ++ dot
    ++ decimal 10 (byte_at 0 host)

-- format_log_entry; `time_str` is what strftime gives, `host` what ntohl gives.
unfoldable pub format_log_entry : List ℕ → ℕ → List ℕ → ℤ → List ℕ
unfolding dotted
format_log_entry time_str host uri size =
    time_str ++ b':' ∷ b' ' ∷ [] ++ dotted host ++ b' ' ∷ [] ++ uri
