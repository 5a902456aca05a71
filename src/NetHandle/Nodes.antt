-- ===== src/NetHandle/Nodes.antt =====
-- core/net_http.c and core/net_handle.c: the list of requests from cxt->head to cxt->tail by its
-- nodes, struct net_handle_list, each by its address.
pub mod Order
mod Tests
use http_proxy.Prelude.{ℕ, Option, none, some, List, [], ◌∷◌}
use http_proxy.ConnPool.Node.{upd}
use http_proxy.NetHandle.Pipeline.{NetHandleList}

-- cxt->head and cxt->tail, and of each node its pointer `next` and its server and request.
pub record Cells : Type 0 where
  pub head : Option ℕ
  pub tail : Option ℕ
  pub next : ℕ → Option ℕ
  pub item : ℕ → NetHandleList

-- cxt->tail->next = p, which is undefined where cxt->tail is NULL, and cxt->tail = p.
abbrev pub put_behind : Option ℕ → ℕ → Cells → Option Cells
put_behind none p q = none
put_behind (some t) p q = some (record q { tail = some p; next = upd q.next t (some p) })

-- A node for this server and request at the end of the list: none is undefined behaviour.
unfoldable pub put_node : ℕ → NetHandleList → Cells → Option Cells
put_node p e q =
    let q₁ = record q { next = upd q.next p none; item = upd q.item p e } in
    elim q₁.head [
      | none ↦ some (record q₁ { head = some p; tail = some p })
      | some h ↦ put_behind q₁.tail p q₁
    ]

-- The end of a round for the request at `h`, which is cxt->head.
unfoldable pub take_node : ℕ → Cells → Cells
take_node h q = elim (q.next h) [
  | none ↦ record q { head = none; tail = none }
  | some x ↦ record q { head = some x }
]

-- What the handlers of requests and net_rsp_handler do to the list.
pub data NodeCall : Type 0 where
  put : ℕ → NetHandleList → NodeCall
  take : NodeCall

-- One request more in front of those that have been served.
abbrev pub serve_first :
    NetHandleList → Option (List NetHandleList × Cells) → Option (List NetHandleList × Cells)
serve_first e none = none
serve_first e (some (served, q)) = some (e ∷ served, q)

-- The calls in turn: the requests that net_rsp_handler has served, in its order, and the list.
-- On an empty list it waits.
unfoldable pub run_calls : List NodeCall → Cells → Option (List NetHandleList × Cells)
unfolding put_node take_node
run_calls [] q = some ([], q)
run_calls (put p e ∷ calls) q = elim (put_node p e q) [ none ↦ none | some q₁ ↦ run_calls calls q₁ ]
run_calls (take ∷ calls) q = elim q.head [
  | none ↦ run_calls calls q
  | some h ↦ serve_first (q.item h) (run_calls calls (take_node h q))
]
