-- ===== src/Conn/Tostring.antt =====
-- core/conn.c, ep_tostring: an endpoint as a text.
use http_proxy.Prelude.{
  ℕ, ◌+◌, ◌*◌, ◌/◌, ◌%◌, ◌<◌, ◌≡◌, refl, sym, ap, ◌∙◌, Bool, true, false, Option, none, some, List,
  [], ◌∷◌, ◌++◌, arith, ◌==◌, if◌then◌else◌,
}
use mathlib.Core.List.{append_assoc}
use http_proxy.Libc.{is_digit, decimal}
use http_proxy.Libc.Digits.{cancel, decimal_apart}
use http_proxy.Conn.{ConnEndpoint}

abbrev pub af_inet6 : ℕ
af_inet6 = 10

-- ntohs on a machine with the low byte first
abbrev pub ntohs : ℕ → ℕ
ntohs p = p % 256 * 256 + p / 256

-- `addr` is what inet_ntop gives for the address, none for NULL, and `error` what strerror gives.
unfoldable pub ep_tostring : Option (List ℕ) → List ℕ → ConnEndpoint → List ℕ
unfolding decimal
ep_tostring none error ep = error
ep_tostring (some addr) error ep =
    if ep.family == af_inet6
    then b'[' ∷ addr ++ b']' ∷ b':' ∷ decimal 10 (ntohs ep.port)
    else addr ++ b':' ∷ decimal 10 (ntohs ep.port)

-- The text, by whether it is one of IPv6, and with the port in host order.
abbrev text_of : Bool → List ℕ → ℕ → List ℕ
text_of v6 addr port =
    if v6 then b'[' ∷ addr ++ b']' ∷ b':' ∷ decimal 10 port else addr ++ b':' ∷ decimal 10 port

ports_apart :
    (v6 : Bool) (addr : List ℕ) (m n : ℕ)
    → text_of v6 addr m ≡ text_of v6 addr n
    → decimal 10 m ≡ decimal 10 n
ports_apart true addr m n e =
    cancel (b'[' ∷ addr ++ b']' ∷ b':' ∷ []) (decimal 10 m) (decimal 10 n) (
      append_assoc (b'[' ∷ addr) (b']' ∷ b':' ∷ []) (decimal 10 m)
      ∙ e
      ∙ sym (append_assoc (b'[' ∷ addr) (b']' ∷ b':' ∷ []) (decimal 10 n)))
ports_apart false addr m n e = cancel (addr ++ b':' ∷ []) (decimal 10 m) (decimal 10 n) (
    append_assoc addr (b':' ∷ []) (decimal 10 m)
    ∙ e
    ∙ sym (append_assoc addr (b':' ∷ []) (decimal 10 n)))

-- Of two endpoints with the same family and the same address the texts are equal only where the ports
-- are, for ports of sixteen bits.
pub ep_tostring_injective :
    (addr error : List ℕ) (a b : ConnEndpoint)
    → a.family ≡ b.family
    → a.port < 65536
    → b.port < 65536
    → ep_tostring (some addr) error a ≡ ep_tostring (some addr) error b
    → a.port ≡ b.port
unfolding ep_tostring is_digit
ep_tostring_injective addr error a b same small small' e =
    let host = ntohs a.port in
    let host' = ntohs b.port in
    let ports : decimal 10 host ≡ decimal 10 host' → a.port ≡ b.port = λ d.
      let f = ap (λ (l : List ℕ). l ++ b' ' ∷ []) d in
      omega (
        arith,
        (decimal_apart host host' b' ' [] [] (omega (arith, small)) (omega (arith, small')) refl
            f).0,
        small,
        small',
      ) in
    ports (
      ports_apart (b.family == af_inet6) addr host host'
        (ap (λ (f : ℕ). text_of (f == af_inet6) addr host) (sym same) ∙ e))
