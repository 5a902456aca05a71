-- ===== src/NetHandle/Pipeline.antt =====
-- core/net_handle.c and core/net_http.c: the list of requests between the coroutine that reads them
-- (net_req_handler) and the one that copies their responses back (net_rsp_handler). The steps are
-- what the two do to the list while the connection is open; `head` is the list from cxt->head to
-- cxt->tail, whose pointers are those of NetHandle/Nodes, and `notices` counts the events posted to ev_notice_rsp and not yet served.
use http_proxy.Prelude.{
  ℕ, ◌+◌, ◌-◌, ◌≤◌, ◌≡◌, ◌⊎◌, inl, inr, Bool, true, false, List, [], ◌∷◌, ◌++◌, arith,
  if◌then◌else◌,
}

-- struct net_handle_list: the server connection and the request.
pub record NetHandleList : Type 0 where
  pub server : ℕ
  pub req : ℕ

-- The part of struct net_handle_cxt that the two share.
pub record NetHandleCxt : Type 0 where
  pub head : List NetHandleList
  pub rsp_blocked : Bool
  pub notices : ℕ

-- net_req_handler: the empty list.
abbrev pub cxt_init : NetHandleCxt
cxt_init = record { head = []; rsp_blocked = false; notices = 0 }

-- net_http_req_handler: the request is put behind the others, and a waiting net_rsp_handler is told.
unfoldable pub add_http : NetHandleList → NetHandleCxt → NetHandleCxt
add_http p c = record c {
  head = c.head ++ p ∷ [];
  notices = if c.rsp_blocked then c.notices + 1 else c.notices;
}

-- net_connect_req_handler: net_rsp_handler is told in any case.
unfoldable pub add_connect : NetHandleList → NetHandleCxt → NetHandleCxt
add_connect p c = record c { head = c.head ++ p ∷ []; notices = c.notices + 1 }

-- net_rsp_handler in front of its loop: an event for itself, and a wait for it.
unfoldable pub rsp_start : NetHandleCxt → NetHandleCxt
rsp_start c = record c { rsp_blocked = true; notices = c.notices + 1 }

-- net_rsp_handler on an empty list.
unfoldable pub rsp_wait : NetHandleCxt → NetHandleCxt
rsp_wait c = record c { rsp_blocked = true }

-- An event is served: net_rsp_handler goes on if it waits for one.
unfoldable pub notice : NetHandleCxt → NetHandleCxt
notice c = record c { rsp_blocked = false; notices = c.notices - 1 }

-- The end of a round of net_rsp_handler.
unfoldable pub rsp_next : List NetHandleList → NetHandleCxt → NetHandleCxt
rsp_next rest c = record c { head = rest }

-- What a step does to the list as seen from outside.
pub data Act : Type 0 where
  added served : NetHandleList → Act
  silent : Act

-- The steps with what the code tests before each.
pub data Step : NetHandleCxt → Act → NetHandleCxt → Type 0 where
  http : (p : NetHandleList) (c : NetHandleCxt) → Step c (added p) (add_http p c)
  connect : (p : NetHandleList) (c : NetHandleCxt) → Step c (added p) (add_connect p c)
  start : (c : NetHandleCxt) → Step c silent (rsp_start c)
  wait : (c : NetHandleCxt) → c.rsp_blocked ≡ false → c.head ≡ [] → Step c silent (rsp_wait c)
  told : (c : NetHandleCxt) → 1 ≤ c.notices → Step c silent (notice c)
  next :
      (p : NetHandleList) (rest : List NetHandleList) (c : NetHandleCxt)
      → c.rsp_blocked ≡ false
      → c.head ≡ p ∷ rest
      → Step c (served p) (rsp_next rest c)

pub data Steps : NetHandleCxt → List Act → NetHandleCxt → Type 0 where
  stop : (c : NetHandleCxt) → Steps c [] c
  step :
      {c d e : NetHandleCxt} {a : Act} (acts : List Act)
      → Step c a d
      → Steps d acts e
      → Steps c (a ∷ acts) e

-- net_rsp_handler does not sleep over a request.
abbrev pub IsWoken : NetHandleCxt → Type 0
IsWoken c = c.rsp_blocked ≡ true → (c.head ≡ []) ⊎ (1 ≤ c.notices)

Step-IsWoken : {c d : NetHandleCxt} {a : Act} → Step c a d → IsWoken c → IsWoken d
unfolding add_http add_connect rsp_start rsp_wait notice rsp_next
Step-IsWoken (http p c) w =
    λ b. elim (w b) [ inl e ↦ rw b (inr (omega arith)) | inr n ↦ rw b (inr (omega arith)) ]
Step-IsWoken (connect p c) w = λ b. inr (omega arith)
Step-IsWoken (start c) w = λ b. inr (omega arith)
Step-IsWoken (wait c b e) w = λ _. inl e
Step-IsWoken (told c n) w = λ b. absurd (cc)
Step-IsWoken (next p xs c b e) w = λ b'. absurd (cc)

-- No wake-up is lost: after any sequence of steps from a state with
-- this property, as the empty list has it, where net_rsp_handler waits for an
-- event and a request is in the list, an event for it has been posted and not yet been served.
pub Steps-IsWoken : {c d : NetHandleCxt} {acts : List Act} → Steps c acts d → IsWoken c → IsWoken d
Steps-IsWoken (stop c) w = w
Steps-IsWoken (step acts s rest) w = Steps-IsWoken rest (Step-IsWoken s w)
