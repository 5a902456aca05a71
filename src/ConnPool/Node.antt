-- ===== src/ConnPool/Node.antt =====
-- core/conn.c, struct conn_pool_ent: the two pointers of each node, by its address, and the two
-- changes that conn_addrpool_add, conn_addrpool_del and conn_addrpool_try_get_and_del make to them.
use http_proxy.Prelude.{ℕ, Option, none, some, ◌==◌, if◌then◌else◌}

pub record Links : Type 0 where
  pub next : ℕ → Option ℕ
  pub prev : ℕ → Option ℕ

-- A write to the cell of `x`.
abbrev pub upd : {A : Type 0} → (ℕ → A) → ℕ → A → ℕ → A
upd f x v y = if x == y then v else f y

-- `if (x) x->prev = v`
abbrev pub set_prev : Option ℕ → Option ℕ → (ℕ → Option ℕ) → ℕ → Option ℕ
set_prev none v g = g
set_prev (some x) v g = upd g x v

-- The end of conn_addrpool_add: `elem` between the head `h` and its first node.
abbrev pub put_between : ℕ → ℕ → Option ℕ → Links → Links
put_between h elem first k = record {
  next = upd (upd k.next elem first) h (some elem);
  prev = set_prev first (some elem) (upd k.prev elem (some h));
}

unfoldable pub push_front : ℕ → ℕ → Links → Links
push_front h elem k = put_between h elem (k.next h) k

-- What leads to `elem` from `q` and back is led past it, to the node behind it.
abbrev pub lead_past : ℕ → Option ℕ → Links → Links
lead_past q behind k = record { next = upd k.next q behind; prev = set_prev behind (some q) k.prev }

unfoldable pub unlink : ℕ → ℕ → Links → Links
unlink q elem k = lead_past q (k.next elem) k

-- The first node of a new pool.
abbrev pub put_alone : ℕ → ℕ → Links → Links
put_alone head elem k = record {
  next = upd (upd k.next elem none) head (some elem);
  prev = upd (upd k.prev elem (some head)) head none;
}
