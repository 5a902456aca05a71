-- ===== src/Log.antt =====
-- core/log.c: the texts of the log. What time, localtime, strftime, inet_ntop and fopen give, and
-- the text that vsnprintf makes of the caller's arguments, are arguments.
pub mod Blocks
pub mod Bounds
mod Tests
use http_proxy.Prelude.{
  ℕ, ◌+◌, ◌-◌, ◌*◌, ◌^◌, Bool, not, Option, none, some, List, [], ◌∷◌, ◌++◌, ℤ, ltb, leb, ◌==◌,
  if◌then◌else◌, length, take, drop, get_elem?,
}
use http_proxy.Libc.{c_str, decimal, sprintf_d}

-- struct tm, as far as it is read.
pub record Tm : Type 0 where
  pub tm_wday : ℕ
  pub tm_mday : ℕ
  pub tm_mon : ℕ
  pub tm_year : ℕ
  pub tm_hour : ℕ
  pub tm_min : ℕ
  pub tm_sec : ℕ

abbrev pub proxy_log_len : ℕ
proxy_log_len = 4096

abbrev pub week_str : List (List ℕ)
week_str =
    (b'S' ∷ b'u' ∷ b'n' ∷ b'.' ∷ [])
    ∷ (b'M' ∷ b'o' ∷ b'n' ∷ b'.' ∷ [])
    ∷ (b'T' ∷ b'u' ∷ b'e' ∷ b'.' ∷ [])
    ∷ (b'W' ∷ b'e' ∷ b'd' ∷ b'.' ∷ [])
    ∷ (b'T' ∷ b'h' ∷ b'u' ∷ b'.' ∷ [])
    ∷ (b'F' ∷ b'r' ∷ b'i' ∷ b'.' ∷ [])
    ∷ (b'S' ∷ b'a' ∷ b't' ∷ b'.' ∷ [])
    ∷ []

abbrev pub month_str : List (List ℕ)
month_str =
    (b'J' ∷ b'a' ∷ b'n' ∷ [])
    ∷ (b'F' ∷ b'e' ∷ b'b' ∷ [])
    ∷ (b'M' ∷ b'a' ∷ b'r' ∷ [])
    ∷ (b'A' ∷ b'p' ∷ b'r' ∷ [])
    ∷ (b'M' ∷ b'a' ∷ b'y' ∷ [])
    ∷ (b'J' ∷ b'u' ∷ b'n' ∷ [])
    ∷ (b'J' ∷ b'u' ∷ b'l' ∷ [])
    ∷ (b'A' ∷ b'u' ∷ b'g' ∷ [])
    ∷ (b'S' ∷ b'e' ∷ b'p' ∷ [])
    ∷ (b'O' ∷ b'c' ∷ b't' ∷ [])
    ∷ (b'N' ∷ b'o' ∷ b'v' ∷ [])
    ∷ (b'D' ∷ b'e' ∷ b'c' ∷ [])
    ∷ []

-- "%2d" and "%02d", with the byte that fills.
abbrev pub two_digits : ℕ → ℕ → List ℕ
two_digits fill n = if ltb n 10 then fill ∷ decimal 10 n else decimal 10 n

abbrev pub space : List ℕ
space = b' ' ∷ []

abbrev pub colon : List ℕ
colon = b':' ∷ []

-- What the snprintf of gen_log_string prints; none for an index behind one of the two arrays.
unfoldable pub log_prefix : Tm → List ℕ → List ℕ → ℕ → Option (List ℕ)
unfolding decimal
log_prefix t desc file line = elim (get_elem? week_str t.tm_wday) [
  | none ↦ none
  | some day ↦ elim (get_elem? month_str t.tm_mon) [
    | none ↦ none
    | some month ↦
        let date =
          day
          ++ space
          ++ two_digits b' ' t.tm_mday
          ++ space
          ++ month
          ++ space
          ++ decimal 10 (t.tm_year + 1900)
          ++ space in
        let clock =
          two_digits b'0' t.tm_hour
          ++ colon
          ++ two_digits b'0' t.tm_min
          ++ colon
          ++ two_digits b'0' t.tm_sec
          ++ space in
        some (
          date
          ++ clock
          ++ desc
          ++ space
          ++ file
          ++ b'(' ∷ []
          ++ decimal 10 line
          ++ b')' ∷ b':' ∷ b' ' ∷ [])
  ]
]

-- A string with its NUL is written at `at`; none where that is not all inside the block.
unfoldable pub put_str : ℕ → List ℕ → List ℕ → Option (List ℕ)
put_str at text buf =
    if leb (at + length text + 1) (length buf)
    then some (take at buf ++ text ++ 0 ∷ drop (at + length text + 1) buf)
    else none

-- snprintf (buf + at, size, "%s", text)
unfoldable pub snprintf : ℕ → ℕ → List ℕ → List ℕ → Option (List ℕ)
unfolding put_str
snprintf at size text buf = if size == 0 then some buf else put_str at (take (size - 1) text) buf

-- strcat (buf + at, text)
unfoldable pub strcat : ℕ → List ℕ → List ℕ → Option (List ℕ)
unfolding put_str c_str
strcat at text buf = put_str (at + length (c_str (drop at buf))) text buf

-- The int a - b, passed on as a size_t.
abbrev pub size_t : ℕ → ℕ → ℕ
size_t a b = if ltb a b then 2 ^ 64 - (b - a) else a - b

abbrev pub dots : List ℕ
dots = b' ' ∷ b'.' ∷ b'.' ∷ b'.' ∷ []

-- gen_log_string on a buffer of out_len bytes: none for a write outside it. `prefix` is what the
-- snprintf prints, `text` what the vsnprintf prints. Behind `out -= len` the int out_len - 4 is
-- the out_len at first, less the length of `prefix` and 4.
unfoldable pub gen_log_string : ℕ → List ℕ → List ℕ → List ℕ → Option (List ℕ)
unfolding snprintf strcat
gen_log_string out_len prefix text out = elim (snprintf 0 out_len prefix out) [
  | none ↦ none
  | some out₁ ↦
      let len = length prefix in
      elim (snprintf len (size_t out_len (len + 4)) text out₁) [
        | none ↦ none
        | some out₂ ↦
            if leb out_len (length text + len + 4)
            then strcat (out_len - 5) dots out₂
            else some out₂
      ]
]

-- arg.log_file with what has been written to it, none for NULL, and the static buffer.
pub record Log : Type 0 where
  pub log_file : Option (List ℕ)
  pub buf : List ℕ

-- fprintf (arg.log_file, ..): none where it is NULL.
abbrev pub print : List ℕ → Log → Option Log
print text l = elim l.log_file [
  | none ↦ none
  | some file ↦ some (record l { log_file = some (file ++ text) })
]

-- _PROXY_LOG; `verbose` is arg.verbose.
unfoldable pub proxy_log : ℕ → ℕ → List ℕ → List ℕ → Log → Option Log
unfolding gen_log_string c_str
proxy_log verbose level prefix text l =
    if ltb level verbose then some l else elim (gen_log_string proxy_log_len prefix text l.buf) [
      | none ↦ none
      | some b ↦ print (c_str b ++ 10 ∷ []) (record l { buf = b })
    ]

-- log_http_req; `time_str` and `ip_str` are what strftime and inet_ntop give.
unfoldable pub log_http_req : List ℕ → List ℕ → List ℕ → List ℕ → ℤ → Log → Option Log
unfolding sprintf_d
log_http_req time_str ip_str host path size l =
    print
      (time_str
        ++ b':' ∷ b' ' ∷ []
        ++ ip_str
        ++ b' ' ∷ b'h' ∷ b't' ∷ b't' ∷ b'p' ∷ b':' ∷ b'/' ∷ b'/' ∷ []
        ++ host
        ++ path
        ++ space
        ++ sprintf_d size
        ++ 10 ∷ [])
      l

-- proxy_log_init; `opened` is whether fopen succeeds on proxy.log. Its message is left out.
unfoldable pub proxy_log_init : Bool → Log → Log
proxy_log_init opened l = elim l.log_file [
  | some file ↦ l
  | none ↦ record l { log_file = if opened then some [] else none }
]

-- proxy_log_done: what fclose closes, none for NULL. Its message is left out.
unfoldable pub proxy_log_done : Log → Option (List ℕ)
proxy_log_done l = l.log_file
