-- ===== src/NetHandle/Nodes/Order.antt =====
-- core/net_http.c and core/net_handle.c: the order in which the requests of the list are served.
use http_proxy.Prelude.{
  ℕ, ◌≡◌, refl, sym, ap, subst, ◌∙◌, false, Option, none, some, List, [], ◌∷◌, ◌++◌, arith, ◌==◌,
}
use mathlib.Core.List.{append_assoc, append-nil}
use http_proxy.ConnPool.Node.{upd}
use http_proxy.ConnPool.Chain.{NotIn, Distinct, last, upd_self, upd-other}
use http_proxy.NetHandle.Pipeline.{NetHandleList, NetHandleCxt, add_http}
use http_proxy.NetHandle.Nodes.{
  Cells, put_node, take_node, NodeCall, put, take, serve_first, run_calls,
}

-- From `x` the pointers lead through these nodes to NULL.
abbrev pub Linked : (ℕ → Option ℕ) → ℕ → List ℕ → Type 0
Linked f x [] = f x ≡ none
Linked f x (y ∷ l) = (f x ≡ some y) × Linked f y l

-- The list has these nodes.
abbrev pub IsQueue : Cells → List ℕ → Type 0
IsQueue q [] = (q.head ≡ none) × (q.tail ≡ none)
IsQueue q (x ∷ l) =
    (q.head ≡ some x) × (q.tail ≡ some (last x l)) × Linked q.next x l × Distinct (x ∷ l)

abbrev pub items : (ℕ → NetHandleList) → List ℕ → List NetHandleList
items f [] = []
items f (x ∷ l) = f x ∷ items f l

-- What malloc gives for a node is no node of the list at that time.
abbrev pub IsFresh : List NodeCall → List ℕ → Type 0
IsFresh [] l = Unit {0}
IsFresh (put p e ∷ calls) l = NotIn p l × IsFresh calls (l ++ p ∷ [])
IsFresh (take ∷ calls) [] = IsFresh calls []
IsFresh (take ∷ calls) (x ∷ l) = IsFresh calls l

abbrev pub all_put : List NodeCall → List NetHandleList
all_put [] = []
all_put (put p e ∷ calls) = e ∷ all_put calls
all_put (take ∷ calls) = all_put calls

last_not : (a x : ℕ) (l : List ℕ) → NotIn a (x ∷ l) → (last x l == a) ≡ false
last_not a x [] out = let o = out.0 in ground arith
last_not a x (y ∷ l) out = last_not a y l out.1

NotIn-append : (x p : ℕ) (l : List ℕ) → NotIn x l → (x == p) ≡ false → NotIn x (l ++ (p ∷ []))
NotIn-append x p [] out e = (e, tt)
NotIn-append x p (y ∷ l) out e = (out.0, NotIn-append x p l out.1 e)

Distinct-append : (l : List ℕ) (p : ℕ) → Distinct l → NotIn p l → Distinct (l ++ (p ∷ []))
Distinct-append [] p d out = (tt, tt)
Distinct-append (x ∷ l) p d out =
    let o = out.0 in (NotIn-append x p l d.0 (ground arith), Distinct-append l p d.1 out.1)

last-append : (x p : ℕ) (l : List ℕ) → last x (l ++ (p ∷ [])) ≡ p
last-append x p [] = refl
last-append x p (y ∷ l) = last-append y p l

items-upd :
    (f : ℕ → NetHandleList) (p : ℕ) (e : NetHandleList) (l : List ℕ)
    → NotIn p l
    → items (upd f p e) (l ++ (p ∷ [])) ≡ items f l ++ (e ∷ [])
items-upd f p e [] out = ap (λ (x : NetHandleList). x ∷ []) (upd_self f p e)
items-upd f p e (x ∷ l) out =
    ap (λ (y : NetHandleList). y ∷ items (upd f p e) (l ++ (p ∷ []))) (upd-other f p x e out.0)
    ∙ ap (λ (r : List NetHandleList). f x ∷ r) (items-upd f p e l out.1)

-- The list leads on to the new node.
Linked-put :
    (f : ℕ → Option ℕ) (p x : ℕ) (l : List ℕ)
    → Distinct (x ∷ l)
    → NotIn p (x ∷ l)
    → Linked f x l
    → Linked (upd (upd f p none) (last x l) (some p)) x (l ++ (p ∷ []))
Linked-put f p x [] d out k =
    let o = out.0 in
    let other : (x == p) ≡ false = ground arith in
    (
      upd_self (upd f p none) x (some p),
      upd-other (upd f p none) x p (some p) other ∙ upd_self f p none,
    )
Linked-put f p x (y ∷ l) d out k = (
  upd-other (upd f p none) (last y l) x (some p) (last_not x y l d.0)
      ∙ upd-other f p x none out.0
      ∙ k.0,
  Linked-put f p y l d.1 out.1 k.1,
)

-- A new node comes behind the others.
put_node-IsQueue :
    (p : ℕ) (e : NetHandleList) (q : Cells) (l : List ℕ)
    → IsQueue q l
    → NotIn p l
    → (r : Cells) × (put_node p e q ≡ some r)
      × IsQueue r (l ++ (p ∷ []))
      × (items r.item (l ++ (p ∷ [])) ≡ items q.item l ++ (e ∷ []))
unfolding put_node
put_node-IsQueue p e q [] (head, tail) out =
    let next = upd q.next p none in
    let item = upd q.item p e in
    (
      record { head = some p; tail = some p; next = next; item = item },
      rw (head, put_node) refl,
      (refl, refl, upd_self q.next p none, (tt, tt)),
      items-upd q.item p e [] tt,
    )
put_node-IsQueue p e q (x ∷ l) (head, tail, linked, distinct) out =
    let next = upd (upd q.next p none) (last x l) (some p) in
    let item = upd q.item p e in
    (
      record { head = some x; tail = some p; next = next; item = item },
      rw (head, put_node) (rw (tail) (rw (head) refl)),
      (
        refl,
        ap (λ (n : ℕ). some n) (sym (last-append x p l)),
        Linked-put q.next p x l distinct out linked,
        Distinct-append (x ∷ l) p distinct out,
      ),
      items-upd q.item p e (x ∷ l) out,
    )

-- What add_http of NetHandle/Pipeline does to the list as a whole, put_node does to its nodes.
put_node-add_http :
    (p : ℕ) (e : NetHandleList) (q : Cells) (l : List ℕ) (c : NetHandleCxt)
    → IsQueue q l
    → NotIn p l
    → c.head ≡ items q.item l
    → (r : Cells) × (put_node p e q ≡ some r)
      × IsQueue r (l ++ (p ∷ []))
      × ((add_http e c).head ≡ items r.item (l ++ (p ∷ [])))
unfolding add_http
put_node-add_http p e q l c v out same =
    let (r, run, ordered, order) = put_node-IsQueue p e q l v out in
    (r, run, ordered, ap (λ (xs : List NetHandleList). xs ++ (e ∷ [])) same ∙ sym order)

take_node-IsQueue :
    (x : ℕ) (q : Cells) (l : List ℕ)
    → IsQueue q (x ∷ l)
    → IsQueue (take_node x q) l × ((take_node x q).item ≡ q.item)
unfolding take_node
take_node-IsQueue x q [] (head, tail, linked, distinct) =
    rw (linked, take_node) ((refl, refl), refl)
take_node-IsQueue x q (y ∷ l) (head, tail, linked, distinct) =
    rw (linked.0, take_node) ((refl, tail, linked.1, distinct.1), refl)

-- After these calls: the list is in order, and the requests that have been served and then those that
-- still wait are these.
abbrev pub Ordered : List NetHandleList → Option (List NetHandleList × Cells) → Type 0
Ordered all r =
    (served : List NetHandleList) × (q : Cells) × (l : List ℕ) × (r ≡ some (served, q))
    × IsQueue q l
    × (served ++ items q.item l ≡ all)

serve_first-Ordered :
    (e : NetHandleList) (all : List NetHandleList) (r : Option (List NetHandleList × Cells))
    → Ordered all r
    → Ordered (e ∷ all) (serve_first e r)
serve_first-Ordered e all r (served, q, l, run, ordered, order) = (
  e ∷ served,
  q,
  l,
  ap (serve_first e) run,
  ordered,
  ap (λ (rest : List NetHandleList). e ∷ rest) order,
)

-- The requests are served in the order in which they were added: whatever the order of the calls, on
-- a list of nodes that is in order none of them is undefined and the list stays in order, and what has
-- been served and then what still waits is what waited at first and then what was added. A new node must
-- be none of those in the list.
pub run_calls-Ordered :
    (calls : List NodeCall) (q : Cells) (l : List ℕ)
    → IsQueue q l
    → IsFresh calls l
    → Ordered (items q.item l ++ all_put calls) (run_calls calls q)
unfolding run_calls
run_calls-Ordered [] q l v f = ([], q, l, refl, v, sym (append-nil (items q.item l)))
run_calls-Ordered (put p e ∷ calls) q l v f =
    let (r, run, ordered, order) = put_node-IsQueue p e q l v f.0 in
    let rest = run_calls-Ordered calls r (l ++ (p ∷ [])) ordered f.1 in
    let same : items r.item (l ++ (p ∷ [])) ++ all_put calls
        ≡ items q.item l ++ (e ∷ all_put calls) =
      ap (λ (a : List NetHandleList). a ++ all_put calls) order
      ∙ append_assoc (items q.item l) (e ∷ []) (all_put calls) in
    rw (run, run_calls)
      (subst (λ (a : List NetHandleList). Ordered a (run_calls calls r)) same rest)
run_calls-Ordered (take ∷ calls) q [] v f = rw (v.0, run_calls) (run_calls-Ordered calls q [] v f)
run_calls-Ordered (take ∷ calls) q (x ∷ l) v f =
    let (ordered, same) = take_node-IsQueue x q l v in
    let rest = run_calls-Ordered calls (take_node x q) l ordered f in
    let all = items q.item l ++ all_put calls in
    rw (v.0, run_calls)
      (serve_first-Ordered (q.item x) all (run_calls calls (take_node x q)) (
        subst
          (λ (g : ℕ → NetHandleList).
            Ordered (items g l ++ all_put calls) (run_calls calls (take_node x q)))
          same rest))
