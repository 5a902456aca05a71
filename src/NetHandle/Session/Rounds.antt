-- ===== src/NetHandle/Session/Rounds.antt =====
-- core/net_handle.c: a round of net_rsp_handler.
use http_proxy.Prelude.{ℕ, ◌≡◌, Bool, true, false, not, ◌&&◌, List, ℤ}
use http_proxy.Prelude.Uthash.{Uthash}
use http_proxy.Conn.{is_closed}
use http_proxy.ConnPool.{ep_eq}
use http_proxy.NetHandle.Pipeline.{NetHandleList}
use http_proxy.NetHandle.Session.{is_100, Session, RspRound, rsp_goes_on}

module _ (T : Uthash ep_eq ℕ) where
  -- The server is open and has said 100.
  abbrev pub continues : ℤ → NetHandleList → Session T → Bool
  continues ret h s = not (is_closed (s.servers.pool.stat h.server)) && is_100 ret

  -- What a round goes on with: the same state, or the list without its first request.
  abbrev pub GoesOn : NetHandleList → List NetHandleList → ℤ → Session T → RspRound T → Type 0
  GoesOn h rest ret s r =
      (s' : Session T) × (r ≡ rsp_goes_on s')
      × (continues ret h s ≡ true → s' ≡ s)
      × (continues ret h s ≡ false → s'.head ≡ rest)
