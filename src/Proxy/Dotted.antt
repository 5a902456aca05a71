-- ===== src/Proxy/Dotted.antt =====
-- proxy.c, format_log_entry: the address of a client.
use http_proxy.Prelude.{
  ℕ, ◌+◌, ◌*◌, ◌^◌, ◌<◌, ◌≡◌, ◌↔◌, refl, sym, ap, ◌∙◌, List, [], ◌∷◌, ◌++◌, arith, ℤ,
}
use mathlib.Core.List.{append_assoc}
use http_proxy.Libc.{is_digit, decimal}
use http_proxy.Proxy.{byte_at, dotted, format_log_entry}
use http_proxy.Libc.Digits.{cancel, decimal_apart}

-- The four bytes are the digits of the address to base 256.
bytes_lem :
    (host : ℕ)
    → host < 2 ^ 32
    → ((byte_at 3 host * 256 + byte_at 2 host) * 256 + byte_at 1 host) * 256 + byte_at 0 host ≡ host
bytes_lem host h = omega arith

-- The entry from the address on.
abbrev from_host : ℕ → List ℕ → List ℕ
from_host host uri =
    decimal 10 (byte_at 3 host)
    ++ b'.'
      ∷ (decimal 10 (byte_at 2 host)
          ++ b'.'
            ∷ (decimal 10 (byte_at 1 host) ++ b'.' ∷ (decimal 10 (byte_at 0 host) ++ b' ' ∷ uri)))

entry-from_host :
    (time_str : List ℕ) (host : ℕ) (uri : List ℕ) (size : ℤ)
    → format_log_entry time_str host uri size ≡ (time_str ++ b':' ∷ b' ' ∷ []) ++ from_host host uri
unfolding format_log_entry dotted
entry-from_host time_str host uri size = simp append_assoc

hosts_apart :
    (a b : ℕ) (s t : List ℕ)
    → a < 2 ^ 32
    → b < 2 ^ 32
    → from_host a s ≡ from_host b t
    → (a ≡ b) × (s ≡ t)
unfolding is_digit
hosts_apart a b s t small small' e =
    let (e3, f) =
      decimal_apart (byte_at 3 a) (byte_at 3 b) b'.' _ _ (omega arith) (omega arith) refl e in
    let (e2, g) =
      decimal_apart (byte_at 2 a) (byte_at 2 b) b'.' _ _ (omega arith) (omega arith) refl f in
    let (e1, h) =
      decimal_apart (byte_at 1 a) (byte_at 1 b) b'.' _ _ (omega arith) (omega arith) refl g in
    let (e0, k) =
      decimal_apart (byte_at 0 a) (byte_at 0 b) b' ' _ _ (omega arith) (omega arith) refl h in
    (omega (arith, bytes_lem a small, bytes_lem b small', e3, e2, e1, e0), k)

-- Two entries of format_log_entry with the same time are equal exactly where the addresses
-- and the URIs are: the address can be read from its dotted decimal form, and the
-- size makes no difference. (proxy.c:116)
pub format_log_entry_iff :
    (time_str : List ℕ) (a b : ℕ) (s t : List ℕ) (size size' : ℤ)
    → a < 2 ^ 32
    → b < 2 ^ 32
    → (format_log_entry time_str a s size ≡ format_log_entry time_str b t size')
      ↔ ((a ≡ b) × (s ≡ t))
format_log_entry_iff time_str a b s t size size' small small' =
    let front = time_str ++ b':' ∷ b' ' ∷ [] in
    (
      λ e. hosts_apart a b s t small small' (
          cancel front (from_host a s) (from_host b t)
            (sym (entry-from_host time_str a s size) ∙ e ∙ entry-from_host time_str b t size')),
      λ (h, u).
          entry-from_host time_str a s size
          ∙ ap (λ (n : ℕ). front ++ from_host n s) h
          ∙ ap (λ (l : List ℕ). front ++ from_host b l) u
          ∙ sym (entry-from_host time_str b t size'),
    )
