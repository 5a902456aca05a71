-- ===== src/ConnPool/Done.antt =====
-- core/conn.c, conn_module_done: the loops over free_pool.
pub mod Released
use http_proxy.Prelude.{ℕ, zero, suc, Option, none, some, List, [], ◌∷◌}
use http_proxy.Prelude.Uthash.{Uthash, Entries}
use http_proxy.Conn.{ConnEndpoint}
use http_proxy.ConnPool.{ep_eq, Pool, decref_conn}

module _ (T : Uthash ep_eq ℕ) where
  -- The nodes from `p` on, with the number of nodes that are looked at: none where that does not
  -- lead to the end.
  unfoldable pub done_nodes : ℕ → Option ℕ → Pool T.Table → Option (Pool T.Table)
  unfolding decref_conn
  done_nodes fuel none s = some s
  done_nodes zero (some p) s = none
  done_nodes (suc fuel) (some p) s =
      done_nodes fuel (s.links.next p) (decref_conn T (s.elem_conn p) s)

  -- The heads that HASH_ITER gives, each with its endpoint.
  unfoldable pub done_pools : ℕ → List (ConnEndpoint × ℕ) → Pool T.Table → Option (Pool T.Table)
  unfolding done_nodes
  done_pools fuel [] s = some s
  done_pools fuel ((ep, head) ∷ es) s = elim (done_nodes fuel (s.links.next head) s) [
    | none ↦ none
    | some t ↦ done_pools fuel es (record t { table = T.del t.table ep })
  ]

  -- conn_module_done behind its first loop; `free_pool = NULL` is the empty table.
  unfoldable pub conn_module_done : Entries T → ℕ → Pool T.Table → Option (Pool T.Table)
  unfolding done_pools
  conn_module_done I fuel s = elim (done_pools fuel (I.entries s.table) s) [
    | none ↦ none
    | some t ↦ some (record t { table = T.empty })
  ]
