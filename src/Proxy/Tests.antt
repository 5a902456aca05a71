-- ===== src/Proxy/Tests.antt =====
-- Examples for proxy.c.
use http_proxy.Prelude.{ℕ, ◌≡◌, ◌↔◌, refl, true, none, some, List, [], ◌∷◌, ◌++◌, pos, arith}
use http_proxy.Libc.{decimal}
use http_proxy.Proxy.{http_text, parse_uri, format_log_entry}
use http_proxy.Proxy.Split.{parse_uri_lem}
use http_proxy.Proxy.Dotted.{format_log_entry_iff}

abbrev host : List ℕ
host = b'a' ∷ b'.' ∷ b'b' ∷ []

abbrev path : List ℕ
path = b'x' ∷ b'/' ∷ []

parts_of_uri :
    (parse_uri (http_text ++ (host ++ b':' ∷ (decimal 10 8080 ++ b'/' ∷ path))) [] (pos 0)
      ≡ some (record { ok = true; hostname = host; pathname = path; port = pos 8080 }))
    × (parse_uri (http_text ++ (host ++ b'/' ∷ path)) [] (pos 0)
        ≡ some (record { ok = true; hostname = host; pathname = path; port = pos 80 }))
    × (parse_uri (http_text ++ host) [] (pos 0) ≡ none)
parts_of_uri = parse_uri_lem host path 8080 [] (pos 0) (refl, (refl, (refl, tt))) (omega arith)

abbrev host_a : ℕ
host_a = 2130706433

abbrev host_b : ℕ
host_b = 2130706434

loopback_and_next :
    (format_log_entry [] host_a path (pos 5) ≡ format_log_entry [] host_b path (pos 6))
    ↔ ((host_a ≡ host_b) × (path ≡ path))
loopback_and_next =
    format_log_entry_iff [] host_a host_b path path (pos 5) (pos 6) (omega arith) (omega arith)
