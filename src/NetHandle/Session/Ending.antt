-- ===== src/NetHandle/Session/Ending.antt =====
-- core/net_handle.c: how net_req_handler and net_rsp_handler tell each other that they end.
use http_proxy.Prelude.{
  ℕ, ◌+◌, ◌-◌, ◌≤◌, ◌≡◌, ◌≢◌, refl, ap, ◌∙◌, ◌⊎◌, inl, inr, by_test, Bool, true, false, arith,
  if◌then◌else◌,
}

-- What a coroutine does: it works, or waits for input or output; it waits for its event;
-- it has returned.
pub data Place : Type 0 where
  busy waits ended : Place

-- The flags of struct net_handle_cxt that the two ends read, and of each of the two event ids how
-- many events have been posted and not yet been served.
pub record Ending : Type 0 where
  pub req : Place
  pub rsp : Place
  pub req_blocked : Bool
  pub rsp_blocked : Bool
  pub req_will_exit : Bool
  pub rsp_will_exited : Bool
  pub req_notices : ℕ
  pub rsp_notices : ℕ

-- net_req_handler at req_done, up to its wait.
unfoldable pub req_ends : Ending → Ending
req_ends e =
    if e.rsp_will_exited then record e { req = ended; req_will_exit = true } else record e {
      req = waits;
      req_will_exit = true;
      rsp_notices = e.rsp_notices + 1;
      req_blocked = true;
    }

-- net_rsp_handler behind its loop.
unfoldable pub rsp_ends : Ending → Ending
rsp_ends e = record e {
  rsp = ended;
  req_will_exit = true;
  req_notices = if e.req_blocked then e.req_notices + 1 else e.req_notices;
}

-- An event for net_req_handler is served at its end.
unfoldable pub req_told : Ending → Ending
req_told e = record e { req = ended; req_blocked = false; req_notices = e.req_notices - 1 }

-- The steps with what the code tests before each. An event that comes while net_rsp_handler does not
-- wait for it changes none of the flags; `add` is a request put into the list.
pub data EndStep : Ending → Ending → Type 0 where
  req_ends_step : (e : Ending) → e.req ≡ busy → EndStep e (req_ends e)
  rsp_ends_step : (e : Ending) → e.rsp ≡ busy → EndStep e (rsp_ends e)
  req_told_step : (e : Ending) → e.req ≡ waits → 1 ≤ e.req_notices → EndStep e (req_told e)
  rsp_waits_step :
      (e : Ending) → e.rsp ≡ busy → EndStep e (record e { rsp = waits; rsp_blocked = true })
  rsp_told_step :
      (e : Ending)
      → e.rsp ≡ waits
      → 1 ≤ e.rsp_notices
      → EndStep e (record e { rsp = busy; rsp_blocked = false; rsp_notices = e.rsp_notices - 1 })
  missed_step :
      (e : Ending)
      → e.rsp ≢ waits
      → 1 ≤ e.rsp_notices
      → EndStep e (record e { rsp_notices = e.rsp_notices - 1 })
  add_step : (e : Ending) → e.req ≡ busy → EndStep e (record e { rsp_notices = e.rsp_notices + 1 })

pub data EndSteps : Ending → Ending → Type 0 where
  end_stop : (e : Ending) → EndSteps e e
  end_step : {e f g : Ending} → EndStep e f → EndSteps f g → EndSteps e g

-- net_rsp_handler has ended, and net_req_handler has not been told.
abbrev pub LeftAlone : Ending → Type 0
LeftAlone e = (e.rsp ≡ ended) × (e.req ≢ ended) × (e.req_notices ≡ 0) × (e.rsp_will_exited ≡ false)

EndStep-LeftAlone : {e f : Ending} → EndStep e f → LeftAlone e → LeftAlone f
unfolding req_ends rsp_ends req_told
EndStep-LeftAlone (req_ends_step e b) (r, q, n, x) =
    by_test LeftAlone e.rsp_will_exited (λ y. absurd (cc)) (λ _. (r, λ u. absurd (cc), n, x))
EndStep-LeftAlone (rsp_ends_step e b) (r, q, n, x) = absurd (cc)
EndStep-LeftAlone (req_told_step e w n') (r, q, n, x) = absurd (omega arith)
EndStep-LeftAlone (rsp_waits_step e b) (r, q, n, x) = absurd (cc)
EndStep-LeftAlone (rsp_told_step e w n') (r, q, n, x) = absurd (cc)
EndStep-LeftAlone (missed_step e w n') k = k
EndStep-LeftAlone (add_step e b) k = k

EndSteps-LeftAlone : {e f : Ending} → EndSteps e f → LeftAlone e → LeftAlone f
EndSteps-LeftAlone (end_stop e) k = k
EndSteps-LeftAlone (end_step s rest) k = EndSteps-LeftAlone rest (EndStep-LeftAlone s k)

-- Once net_rsp_handler has returned while net_req_handler was at work, net_req_handler
-- never returns: no sequence of steps leads there. The premises are what holds while both are
-- at work, and that rsp_will_exited is not set. (core/net_handle.c:256)
pub rsp_ends-hangs :
    (e f : Ending)
    → e.rsp ≡ busy
    → e.req ≡ busy
    → e.req_blocked ≡ false
    → e.req_notices ≡ 0
    → e.rsp_will_exited ≡ false
    → EndSteps (rsp_ends e) f
    → f.req ≢ ended
unfolding rsp_ends
rsp_ends-hangs e f a b c d x steps =
    let n : (rsp_ends e).req_notices ≡ 0 =
      ap (λ (y : Bool). if y then e.req_notices + 1 else e.req_notices) c ∙ d in
    (EndSteps-LeftAlone steps (refl, λ u. absurd (cc), n, x)).1

-- net_req_handler waits at its end, or has ended; where it waits and net_rsp_handler has ended, an
-- event for it has been posted.
abbrev pub IsTold : Ending → Type 0
IsTold e =
    (e.req ≡ ended)
    ⊎ ((e.req ≡ waits) × (e.req_blocked ≡ true) × (e.rsp ≡ ended → 1 ≤ e.req_notices))

EndStep-IsTold : {e f : Ending} → EndStep e f → IsTold e → IsTold f
unfolding req_ends rsp_ends req_told
EndStep-IsTold (req_ends_step e b) (inl r) = absurd (cc)
EndStep-IsTold (req_ends_step e b) (inr (w, t, k)) = absurd (cc)
EndStep-IsTold (rsp_ends_step e b) (inl r) = inl r
EndStep-IsTold (rsp_ends_step e b) (inr (w, t, k)) = inr (w, t, λ _. ground arith)
EndStep-IsTold (req_told_step e w n) k = inl refl
EndStep-IsTold (rsp_waits_step e b) (inl r) = inl r
EndStep-IsTold (rsp_waits_step e b) (inr (w, t, k)) = inr (w, t, λ u. absurd (cc))
EndStep-IsTold (rsp_told_step e b n) (inl r) = inl r
EndStep-IsTold (rsp_told_step e b n) (inr (w, t, k)) = inr (w, t, λ u. absurd (cc))
EndStep-IsTold (missed_step e b n) k = k
EndStep-IsTold (add_step e b) (inl r) = absurd (cc)
EndStep-IsTold (add_step e b) (inr (w, t, k)) = absurd (cc)

EndSteps-IsTold : {e f : Ending} → EndSteps e f → IsTold e → IsTold f
EndSteps-IsTold (end_stop e) k = k
EndSteps-IsTold (end_step s rest) k = EndSteps-IsTold rest (EndStep-IsTold s k)

-- Where net_req_handler comes to its end first, it is told: whatever happens then, it has returned,
-- or it waits with req_blocked set, and once net_rsp_handler has returned there is an event for it.
pub req_ends-IsTold :
    (e f : Ending) → e.rsp ≢ ended → e.rsp_will_exited ≡ false → EndSteps (req_ends e) f → IsTold f
unfolding req_ends
req_ends-IsTold e f r x steps =
    EndSteps-IsTold steps (
      by_test IsTold e.rsp_will_exited (λ y. absurd (cc))
        (λ _. inr (refl, refl, λ u. absurd (r u))))
