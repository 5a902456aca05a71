-- ===== src/NetUtils/Cache.antt =====
-- core/net_utils.c, net_dns_lookup_a: a name is asked for once.
use http_proxy.Prelude.{
  ℕ, ◌<◌, ◌≡◌, refl, sym, ap, subst, ◌∙◌, Option, none, some, List, ◌++◌, ℤ, pos, ◌==◌, length,
}
use http_proxy.Prelude.Uthash.{Uthash}
use http_proxy.Libc.{c_str, str_eq}
use http_proxy.Libc.Laws.{str_eq_iff}
use http_proxy.Event.{HandlerTable, event_get_id, event_free_id}
use http_proxy.NetData.{strncpy}
use http_proxy.NetData.Cut.{key_fits}
use http_proxy.NetUtils.{DnsCacheTable, Gai, looked_up, domain_maxlen, Dns, net_dns_lookup_a}

module _ (T : Uthash str_eq DnsCacheTable) (E : Uthash ◌==◌ HandlerTable) (behind : List ℕ) where
  -- The state in which the lookup waits for its event.
  abbrev pub asking : Dns T E behind → Dns T E behind
  asking d = record d { events = (event_get_id E d.events).1 }

  found_again :
      (host : List ℕ) (h : DnsCacheTable) (a : Gai) (others : Dns T E behind → Dns T E behind)
      (d : Dns T E behind)
      → T.find d.cache (c_str host) ≡ some h
      → net_dns_lookup_a T E behind host a others d ≡ (pos 0, some h.result, d)
  unfolding net_dns_lookup_a
  found_again host h a others d e = rw (e, net_dns_lookup_a) refl

  -- The state behind a lookup that has brought `r`.
  abbrev looked : List ℕ → ℕ → (Dns T E behind → Dns T E behind) → Dns T E behind → Dns T E behind
  looked host r others d =
      let h : DnsCacheTable = record { host = strncpy domain_maxlen host; result = r } in
      let w = others (asking d) in
      record {
        cache = T.add w.cache (c_str (h.host ++ behind)) h;
        events = event_free_id E (event_get_id E d.events).0 w.events;
      }

  lookup_looked :
      (host : List ℕ) (r : ℕ) (others : Dns T E behind → Dns T E behind) (d : Dns T E behind)
      → T.find d.cache (c_str host) ≡ none
      → net_dns_lookup_a T E behind host (looked_up (some r)) others d
        ≡ (pos 0, some r, looked host r others d)
  unfolding net_dns_lookup_a
  lookup_looked host r others d absent = rw (absent, net_dns_lookup_a) refl

  -- When a lookup has brought a result for a name that was not in the cache and that fits its array,
  -- and no other coroutine has looked the same name up in the meantime, the next lookup of it returns
  -- that result and changes nothing, whatever getaddrinfo_a would answer.
  pub net_dns_lookup_a-again :
      (host : List ℕ) (r : ℕ) (others : Dns T E behind → Dns T E behind) (d : Dns T E behind)
      (a : Gai) (others₂ : Dns T E behind → Dns T E behind)
      → length (c_str host) < domain_maxlen
      → T.find d.cache (c_str host) ≡ none
      → T.find (others (asking d)).cache (c_str host) ≡ none
      → net_dns_lookup_a T E behind host a others₂
          (net_dns_lookup_a T E behind host (looked_up (some r)) others d).2
        ≡ (pos 0, some r, (net_dns_lookup_a T E behind host (looked_up (some r)) others d).2)
  net_dns_lookup_a-again host r others d a others₂ short absent still =
      let h : DnsCacheTable = record { host = strncpy domain_maxlen host; result = r } in
      let w = others (asking d) in
      let stored =
        ap (λ (k : List ℕ). T.find (T.add w.cache k h) (c_str host))
          (key_fits domain_maxlen host behind short)
        ∙ T.find-add w.cache (c_str host) (c_str host) h still
        ∙ rw ((str_eq_iff (c_str host) (c_str host)).1 refl) refl in
      let e =
        ap (λ (x : ℤ × Option ℕ × Dns T E behind). x.2) (lookup_looked host r others d absent) in
      subst
        (λ (x : Dns T E behind). net_dns_lookup_a T E behind host a others₂ x ≡ (pos 0, some r, x))
        (sym e) (found_again host h a others₂ (looked host r others d) stored)
