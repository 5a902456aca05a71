-- ===== src/NetUtils/Tests.antt =====
-- Examples for core/net_utils.c.
use http_proxy.Prelude.{ℕ, ◌≡◌, refl, some, List, [], ◌∷◌, ◌==◌, pos, negsuc, arith}
use http_proxy.Prelude.Uthash.{Uthash, assoc}
use http_proxy.Libc.{c_str, str_eq}
use http_proxy.Event.{HandlerTable, init}
use http_proxy.NetData.TextTable.{text_assoc}
use http_proxy.NetUtils.{DnsCacheTable, Dns, looked_up, gai_failed, net_dns_lookup_a}
use http_proxy.NetUtils.Cache.{net_dns_lookup_a-again}

abbrev table : Uthash str_eq DnsCacheTable
table = text_assoc DnsCacheTable

abbrev events : Uthash ◌==◌ HandlerTable
events = assoc HandlerTable

abbrev fresh_dns : Dns table events []
fresh_dns = record { cache = []; events = init events }

abbrev alone : Dns table events [] → Dns table events []
alone d = d

abbrev name : List ℕ
name = b'a' ∷ b'.' ∷ b'b' ∷ 0 ∷ []

asked_once :
    net_dns_lookup_a table events [] name
      (gai_failed (negsuc 1))
      alone
      (net_dns_lookup_a table events [] name (looked_up (some 9)) alone fresh_dns).2
    ≡ (
      pos 0,
      some 9,
      (net_dns_lookup_a table events [] name (looked_up (some 9)) alone fresh_dns).2,
    )
unfolding c_str
asked_once =
    net_dns_lookup_a-again table events [] name 9 alone fresh_dns (gai_failed (negsuc 1)) alone
      (omega arith) refl refl
