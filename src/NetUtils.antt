-- ===== src/NetUtils.antt =====
-- core/net_utils.c: the cache of names, the posting of finished lookups, and net_setnonblocking. The
-- answers of getaddrinfo_a, read and fcntl are arguments; a list of addresses is a number, its pointer.
pub mod Cache
mod Tests
use http_proxy.Prelude.{
  ℕ, ◌+◌, ◌*◌, ◌/◌, ◌%◌, Bool, true, false, Option, none, some, List, [], ◌∷◌, ◌++◌, ℤ, pos, negsuc,
  ◌==◌, if◌then◌else◌,
}
use http_proxy.Prelude.Uthash.{Uthash}
use http_proxy.Libc.{c_str, str_eq}
use http_proxy.Event.{HandlerTable, Events, event_get_id, event_free_id, event_post}
use http_proxy.NetData.{strncpy}

abbrev pub domain_maxlen : ℕ
domain_maxlen = 256

-- struct dns_cache_table: the cells of `host`.
pub record DnsCacheTable : Type 0 where
  pub host : List ℕ
  pub result : ℕ

-- What getaddrinfo_a answers: an error, or 0; then what ar_result is when async_yield returns.
pub data Gai : Type 0 where
  gai_failed : ℤ → Gai
  looked_up : Option ℕ → Gai

abbrev pub gai_ret : Gai → ℤ
gai_ret (gai_failed e) = e
gai_ret (looked_up r) = pos 0

abbrev pub gai_result : Gai → Option ℕ
gai_result (gai_failed e) = none
gai_result (looked_up r) = r

-- `behind` is what strlen reads behind a name that fills its array.
module _ (T : Uthash str_eq DnsCacheTable) (E : Uthash ◌==◌ HandlerTable) (behind : List ℕ) where
  -- dns_cache, and the events.
  pub record Dns : Type 0 where
    pub cache : T.Table
    pub events : Events E

  -- What the other coroutines do to the two, while this one waits for its event.
  abbrev pub waited : Gai → (Dns → Dns) → Dns → Dns
  waited (gai_failed e) others d = d
  waited (looked_up r) others d = others d

  -- net_dns_lookup_a: its result, `*result`, none for NULL, and the new state.
  unfoldable pub net_dns_lookup_a : List ℕ → Gai → (Dns → Dns) → Dns → ℤ × Option ℕ × Dns
  unfolding event_get_id event_free_id
  net_dns_lookup_a host a others d = elim (T.find d.cache (c_str host)) [
    | some h ↦ (pos 0, some h.result, d)
    | none ↦
        let (eid, events) = event_get_id E d.events in
        let d₁ = waited a others (record d { events = events }) in
        let d₂ : Dns = record d₁ { events = event_free_id E eid d₁.events } in
        elim (gai_result a) [
          | none ↦ (gai_ret a, none, d₂)
          | some r ↦
              let h : DnsCacheTable = record { host = strncpy domain_maxlen host; result = r } in
              (gai_ret a, some r, record d₂ { cache = T.add d₂.cache (c_str (h.host ++ behind)) h })
        ]
  ]

  -- dns_notify_handler behind the call that sets it again: the event ids that read brings, and an
  -- event for each. Any other answer of read ends the loop.
  unfoldable pub dns_notify_handler : List ℕ → Events E → Events E
  unfolding event_post
  dns_notify_handler [] s = s
  dns_notify_handler (eid ∷ eids) s = dns_notify_handler eids (event_post E eid 0 s)

-- The bit O_NONBLOCK.
abbrev pub o_nonblock : ℕ
o_nonblock = 2048

-- opts | O_NONBLOCK
unfoldable pub with_nonblock : ℕ → ℕ
with_nonblock opts = if (opts / o_nonblock) % 2 == 0 then opts + o_nonblock else opts

-- net_setnonblocking: what F_GETFL answers, none for a negative result, and whether F_SETFL succeeds
-- on the flags that it is given. True for 0.
unfoldable pub net_setnonblocking : Option ℕ → (ℕ → Bool) → Bool
unfolding with_nonblock
net_setnonblocking none setfl = false
net_setnonblocking (some opts) setfl = setfl (with_nonblock opts)
