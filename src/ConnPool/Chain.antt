-- ===== src/ConnPool/Chain.antt =====
-- core/conn.c: the doubly linked list behind the head of a pool, as the list of its nodes.
use http_proxy.Prelude.{
  ℕ, ◌≡◌, refl, sym, subst, ◌∙◌, false, Option, none, some, List, [], ◌∷◌, ◌++◌, arith, ◌==◌,
}
use http_proxy.ConnPool.Node.{Links, upd, put_between, push_front, lead_past, unlink}

-- `x` is none of these nodes.
abbrev pub NotIn : ℕ → List ℕ → Type 0
NotIn x [] = Unit {0}
NotIn x (y ∷ l) = ((x == y) ≡ false) × NotIn x l

abbrev pub Distinct : List ℕ → Type 0
Distinct [] = Unit {0}
Distinct (x ∷ l) = NotIn x l × Distinct l

-- None of the nodes of the first list is in the second.
abbrev pub Apart : List ℕ → List ℕ → Type 0
Apart [] m = Unit {0}
Apart (x ∷ l) m = NotIn x m × Apart l m

-- From `a` the `next` pointers lead through the nodes to NULL, and the `prev` pointers lead back.
abbrev pub Chain : (ℕ → Option ℕ) → (ℕ → Option ℕ) → ℕ → List ℕ → Type 0
Chain f g a [] = f a ≡ none
Chain f g a (x ∷ l) = (f a ≡ some x) × (g x ≡ some a) × Chain f g x l

-- A chain whose nodes, the head included, are distinct.
pub record IsChain (k : Links) (h : ℕ) (l : List ℕ) : Type 0 where
  pub chain : Chain k.next k.prev h l
  pub distinct : Distinct (h ∷ l)

pub upd_self : {A : Type 0} (f : ℕ → A) (x : ℕ) (v : A) → upd f x v x ≡ v
upd_self f x v = ground arith

pub upd-other : {A : Type 0} (f : ℕ → A) (x y : ℕ) (v : A) → (x == y) ≡ false → upd f x v y ≡ f y
upd-other f x y v h = rw h refl

pub Chain-next :
    (f g : ℕ → Option ℕ) (x : ℕ) (v : Option ℕ) (a : ℕ) (l : List ℕ)
    → NotIn x (a ∷ l)
    → Chain f g a l
    → Chain (upd f x v) g a l
Chain-next f g x v a [] out c = upd-other f x a v out.0 ∙ c
Chain-next f g x v a (y ∷ l) out c =
    (upd-other f x a v out.0 ∙ c.0, c.1, Chain-next f g x v y l out.1 c.2)

pub Chain-prev :
    (f g : ℕ → Option ℕ) (x : ℕ) (v : Option ℕ) (a : ℕ) (l : List ℕ)
    → NotIn x l
    → Chain f g a l
    → Chain f (upd g x v) a l
Chain-prev f g x v a [] out c = c
Chain-prev f g x v a (y ∷ l) out c =
    (c.0, upd-other g x y v out.0 ∙ c.1, Chain-prev f g x v y l out.1 c.2)

-- push_front puts the node in front.
pub push_front-IsChain :
    (k : Links) (h elem : ℕ) (l : List ℕ)
    → IsChain k h l
    → NotIn elem (h ∷ l)
    → IsChain (push_front h elem k) h (elem ∷ l)
unfolding push_front
push_front-IsChain k h elem [] c out =
    let e = c.chain in
    let o = out.0 in record { chain = rw e (ground arith); distinct = ground arith }
push_front-IsChain k h elem (x ∷ l) c out =
    let (e, b, t) = c.chain in
    let (d, (dx, dl)) = c.distinct in
    let (o, (ox, ol)) = out in
    let rest =
      Chain-next (upd k.next elem (some x)) (upd (upd k.prev elem (some h)) x (some elem)) h
        (some elem) x l d
        (Chain-next k.next (upd (upd k.prev elem (some h)) x (some elem)) elem (some x) x l (ox, ol)
          (Chain-prev k.next (upd k.prev elem (some h)) x (some elem) x l dx
            (Chain-prev k.next k.prev elem (some h) x l ol t))) in
    let ho : (h == elem) ≡ false = ground arith in
    let xo : (x == elem) ≡ false = ground arith in
    record {
      chain =
          subst
            (λ (o : Option ℕ).
              Chain (put_between h elem o k).next (put_between h elem o k).prev h (elem ∷ (x ∷ l)))
            (sym e) (ground arith, ground arith, (ground arith, ground arith, rest));
      distinct = ((ho, d), (out.1, (dx, dl)));
    }

-- Without its first node the list is what the head leads to.
unlink_front :
    (k : Links) (h elem : ℕ) (l : List ℕ)
    → Chain k.next k.prev h (elem ∷ l)
    → Distinct (h ∷ elem ∷ l)
    → Chain (unlink h elem k).next (unlink h elem k).prev h l
unfolding unlink
unlink_front k h elem [] (e, b, t) d = rw t (ground arith)
unlink_front k h elem (x ∷ l) (e, b, (f, g, t)) (d, (o, (dx, dl))) =
    let rest =
      Chain-next k.next (upd k.prev x (some h)) h (some x) x l d.1
        (Chain-prev k.next k.prev x (some h) x l dx t) in
    subst (λ (o : Option ℕ). Chain (lead_past h o k).next (lead_past h o k).prev h (x ∷ l)) (sym f)
      (ground arith, ground arith, rest)

-- The node in front of which a list ends.
abbrev pub last : ℕ → List ℕ → ℕ
last a [] = a
last a (x ∷ l) = last x l

not_last : (a x : ℕ) (l m : List ℕ) → NotIn a (x ∷ (l ++ m)) → (last x l == a) ≡ false
not_last a x [] m out = let o = out.0 in ground arith
not_last a x (y ∷ l) m out = not_last a y l m out.1

not_behind :
    (a : ℕ) (l : List ℕ) (x y : ℕ) (m : List ℕ) → NotIn a (l ++ (x ∷ (y ∷ m))) → (y == a) ≡ false
not_behind a [] x y m out = let o = out.1.0 in ground arith
not_behind a (z ∷ l) x y m out = not_behind a l x y m out.1

pub end_of :
    (f g : ℕ → Option ℕ) (a : ℕ) (l : List ℕ) (x : ℕ) → Chain f g a (l ++ (x ∷ [])) → f x ≡ none
end_of f g a [] x c = c.2
end_of f g a (y ∷ l) x c = end_of f g y l x c.2

pub middle_of :
    (f g : ℕ → Option ℕ) (a : ℕ) (l : List ℕ) (x y : ℕ) (m : List ℕ)
    → Chain f g a (l ++ (x ∷ (y ∷ m)))
    → f x ≡ some y
middle_of f g a [] x y m c = c.2.0
middle_of f g a (z ∷ l) x y m c = middle_of f g z l x y m c.2

unlink_next : (k : Links) (q elem a : ℕ) → (q == a) ≡ false → (unlink q elem k).next a ≡ k.next a
unfolding unlink
unlink_next k q elem a h = rw h refl

unlink_prev :
    (k : Links) (q elem a : ℕ) (l m : List ℕ)
    → Chain k.next k.prev a (l ++ (elem ∷ m))
    → Distinct (a ∷ (l ++ (elem ∷ m)))
    → (unlink q elem k).prev a ≡ k.prev a
unfolding unlink
unlink_prev k q elem a l [] c d = rw (end_of k.next k.prev a l elem c) refl
unlink_prev k q elem a l (y ∷ m) c d =
    let ne = not_behind a l elem y m d.0 in rw (middle_of k.next k.prev a l elem y m c, ne) refl

unlink-Chain :
    (k : Links) (a elem : ℕ) (l m : List ℕ)
    → Chain k.next k.prev a (l ++ (elem ∷ m))
    → Distinct (a ∷ (l ++ (elem ∷ m)))
    → Chain (unlink (last a l) elem k).next (unlink (last a l) elem k).prev a (l ++ m)
unlink-Chain k a elem [] m c d = unlink_front k a elem m c d
unlink-Chain k a elem (x ∷ l) m (e, b, t) (o, d) =
    let q = not_last a x l (elem ∷ m) o in
    (
      unlink_next k (last x l) elem a q ∙ e,
      unlink_prev k (last x l) elem x l m t d ∙ b,
      unlink-Chain k x elem l m t d,
    )

prev_of :
    (f g : ℕ → Option ℕ) (a : ℕ) (l : List ℕ) (x : ℕ) (m : List ℕ)
    → Chain f g a (l ++ (x ∷ m))
    → g x ≡ some (last a l)
prev_of f g a [] x m c = c.1
prev_of f g a (y ∷ l) x m c = prev_of f g y l x m c.2

NotIn-without :
    (a : ℕ) (l : List ℕ) (x : ℕ) (m : List ℕ) → NotIn a (l ++ (x ∷ m)) → NotIn a (l ++ m)
NotIn-without a [] x m out = out.1
NotIn-without a (y ∷ l) x m out = (out.0, NotIn-without a l x m out.1)

Distinct-without : (l : List ℕ) (x : ℕ) (m : List ℕ) → Distinct (l ++ (x ∷ m)) → Distinct (l ++ m)
Distinct-without [] x m d = d.1
Distinct-without (y ∷ l) x m d = (NotIn-without y l x m d.0, Distinct-without l x m d.1)

-- unlink, at the node before it, takes a node out of its list, wherever it stands in it.
pub unlink-IsChain :
    (k : Links) (h elem : ℕ) (l m : List ℕ)
    → IsChain k h (l ++ (elem ∷ m))
    → (k.prev elem ≡ some (last h l)) × IsChain (unlink (last h l) elem k) h (l ++ m)
unlink-IsChain k h elem l m c = (
  prev_of k.next k.prev h l elem m c.chain,
  record {
    chain = unlink-Chain k h elem l m c.chain c.distinct;
    distinct = Distinct-without (h ∷ l) elem m c.distinct;
  },
)
