-- ===== src/ConnPool/Others.antt =====
-- core/conn.c: a change to the list of one pool leaves the lists of the others as they were.
use http_proxy.Prelude.{ℕ, sym, subst, Option, none, some, List, [], ◌∷◌, ◌++◌}
use http_proxy.ConnPool.Node.{Links, upd, put_between, push_front, lead_past, unlink}
use http_proxy.ConnPool.Chain.{
  NotIn, Apart, Chain, IsChain, last, Chain-next, Chain-prev, end_of, middle_of,
}

Apart-last :
    (h : ℕ) (l : List ℕ) (x : ℕ) (m j : List ℕ) → Apart (h ∷ (l ++ (x ∷ m))) j → NotIn (last h l) j
Apart-last h [] x m j a = a.0
Apart-last h (y ∷ l) x m j a = Apart-last y l x m j a.1

Apart-behind : (l : List ℕ) (x y : ℕ) (m j : List ℕ) → Apart (l ++ (x ∷ (y ∷ m))) j → NotIn y j
Apart-behind [] x y m j a = a.1.0
Apart-behind (z ∷ l) x y m j a = Apart-behind l x y m j a.1

-- A list that shares no node with the one that is changed stays as it is.
pub unlink-other :
    (k : Links) (h elem : ℕ) (l m : List ℕ) (g : ℕ) (j : List ℕ)
    → IsChain k h (l ++ (elem ∷ m))
    → Apart (h ∷ (l ++ (elem ∷ m))) (g ∷ j)
    → IsChain k g j
    → IsChain (unlink (last h l) elem k) g j
unfolding unlink
unlink-other k h elem l [] g j c a o =
    let e = end_of k.next k.prev h l elem c.chain in
    let q = Apart-last h l elem [] (g ∷ j) a in
    record {
      chain =
          subst
            (λ (b : Option ℕ).
              Chain (lead_past (last h l) b k).next (lead_past (last h l) b k).prev g j)
            (sym e) (Chain-next k.next k.prev (last h l) none g j q o.chain);
      distinct = o.distinct;
    }
unlink-other k h elem l (y ∷ m) g j c a o =
    let e = middle_of k.next k.prev h l elem y m c.chain in
    let q = Apart-last h l elem (y ∷ m) (g ∷ j) a in
    let p = Apart-behind (h ∷ l) elem y m (g ∷ j) a in
    record {
      chain =
          subst
            (λ (b : Option ℕ).
              Chain (lead_past (last h l) b k).next (lead_past (last h l) b k).prev g j)
            (sym e)
            (Chain-next k.next (upd k.prev y (some (last h l))) (last h l) (some y) g j q
              (Chain-prev k.next k.prev y (some (last h l)) g j p.1 o.chain));
      distinct = o.distinct;
    }

pub push_front-other :
    (k : Links) (h elem : ℕ) (l : List ℕ) (g : ℕ) (j : List ℕ)
    → IsChain k h l
    → Apart (elem ∷ (h ∷ l)) (g ∷ j)
    → IsChain k g j
    → IsChain (push_front h elem k) g j
unfolding push_front
push_front-other k h elem [] g j c a o = record {
  chain =
      subst
        (λ (b : Option ℕ). Chain (put_between h elem b k).next (put_between h elem b k).prev g j)
        (sym c.chain)
        (Chain-next (upd k.next elem none) (upd k.prev elem (some h)) h (some elem) g j a.1.0 (
          Chain-next k.next (upd k.prev elem (some h)) elem none g j a.0
            (Chain-prev k.next k.prev elem (some h) g j a.0.1 o.chain)));
  distinct = o.distinct;
}
push_front-other k h elem (x ∷ l) g j c a o = record {
  chain =
      subst
        (λ (b : Option ℕ). Chain (put_between h elem b k).next (put_between h elem b k).prev g j)
        (sym c.chain.0)
        (Chain-next (upd k.next elem (some x)) (upd (upd k.prev elem (some h)) x (some elem)) h
          (some elem) g j a.1.0
          (Chain-next k.next (upd (upd k.prev elem (some h)) x (some elem)) elem (some x) g j a.0 (
            Chain-prev k.next (upd k.prev elem (some h)) x (some elem) g j a.1.1.0.1
              (Chain-prev k.next k.prev elem (some h) g j a.0.1 o.chain))));
  distinct = o.distinct;
}
