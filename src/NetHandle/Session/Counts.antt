-- ===== src/NetHandle/Session/Counts.antt =====
-- core/net_handle.c: counts of owners against the owners that there are.
use http_proxy.Prelude.{
  ℕ, zero, suc, ◌+◌, ◌≡◌, refl, sym, ap, ◌∙◌, false, [], ◌∷◌, ℤ, pos, negsuc, suc_ℤ, pred_ℤ, add_ℤ,
  arith, times, ◌==◌, inl, inr, Bool-cases, ==_iff, subst,
}
use http_proxy.ConnPool.Node.{upd}

pred-suc : (z : ℤ) → pred_ℤ (suc_ℤ z) ≡ z
pred-suc (pos n) = refl
pred-suc (negsuc zero) = refl
pred-suc (negsuc (suc n)) = refl

suc-pred : (z : ℤ) → suc_ℤ (pred_ℤ z) ≡ z
suc-pred (pos zero) = refl
suc-pred (pos (suc n)) = refl
suc-pred (negsuc n) = refl

add-suc : (z : ℤ) (n : ℕ) → add_ℤ (suc_ℤ z) n ≡ suc_ℤ (add_ℤ z n)
add-suc z zero = refl
add-suc z (suc n) = ap suc_ℤ (add-suc z n)

add-pred : (z : ℤ) (n : ℕ) → add_ℤ (pred_ℤ z) n ≡ pred_ℤ (add_ℤ z n)
add-pred z zero = refl
add-pred z (suc n) = ap suc_ℤ (add-pred z n) ∙ suc-pred (add_ℤ z n) ∙ sym (pred-suc (add_ℤ z n))

-- Each count is that of the owners elsewhere and `own` here.
abbrev pub IsCount : (ℕ → ℤ) → (ℕ → ℤ) → (ℕ → ℕ) → Type 0
IsCount refs others own = (x : ℕ) → refs x ≡ add_ℤ (others x) (own x)

-- A cell is changed, and nothing else.
at_cell :
    {A : Type 0} (P : ℕ → A → Type 0) (f : ℕ → A) (c : ℕ) (v : A)
    → P c v
    → ((x : ℕ) → (c == x) ≡ false → P x (f x))
    → (x : ℕ) → P x (upd f c v x)
at_cell P f c v h k x = elim (Bool-cases (c == x)) [
  | inl e ↦ rw e (subst (λ (y : ℕ). P y v) ((==_iff c x).0 e) h)
  | inr e ↦ rw e (k x e)
]

pub one_self : (c : ℕ) → times c (c ∷ []) ≡ 1
unfolding times
one_self c = ground arith

pub none_other : (c x : ℕ) → (c == x) ≡ false → times x (c ∷ []) ≡ 0
unfolding times
none_other c x e = rw e refl

pub incref-IsCount :
    (refs others : ℕ → ℤ) (own own' : ℕ → ℕ) (c : ℕ)
    → ((x : ℕ) → own' x ≡ own x + times x (c ∷ []))
    → IsCount refs others own
    → IsCount (upd refs c (suc_ℤ (refs c))) others own'
incref-IsCount refs others own own' c more k =
    at_cell (λ x z. z ≡ add_ℤ (others x) (own' x)) refs c _
      (let e : suc (own c) ≡ own' c = omega (arith, more c, one_self c) in
        ap suc_ℤ (k c) ∙ ap (add_ℤ (others c)) e)
      (λ x miss.
        let e : own x ≡ own' x = omega (arith, more x, none_other c x miss) in
        k x ∙ ap (add_ℤ (others x)) e)

pub decref-IsCount :
    (refs others : ℕ → ℤ) (own own' : ℕ → ℕ) (c : ℕ)
    → ((x : ℕ) → own x ≡ own' x + times x (c ∷ []))
    → IsCount refs others own
    → IsCount (upd refs c (pred_ℤ (refs c))) others own'
decref-IsCount refs others own own' c less k =
    at_cell (λ x z. z ≡ add_ℤ (others x) (own' x)) refs c _
      (let e : own c ≡ suc (own' c) = omega (arith, less c, one_self c) in
        ap pred_ℤ (k c ∙ ap (add_ℤ (others c)) e) ∙ pred-suc (add_ℤ (others c) (own' c)))
      (λ x miss.
        let e : own x ≡ own' x = omega (arith, less x, none_other c x miss) in
        k x ∙ ap (add_ℤ (others x)) e)

-- An owner elsewhere comes, and goes.
pub hold-IsCount :
    (refs others : ℕ → ℤ) (own : ℕ → ℕ) (c : ℕ)
    → IsCount refs others own
    → IsCount (upd refs c (suc_ℤ (refs c))) (upd others c (suc_ℤ (others c))) own
hold-IsCount refs others own c k x = elim (Bool-cases (c == x)) [
  | inl e ↦ rw e (
      subst (λ (y : ℕ). suc_ℤ (refs c) ≡ add_ℤ (suc_ℤ (others c)) (own y)) ((==_iff c x).0 e)
        (ap suc_ℤ (k c) ∙ sym (add-suc (others c) (own c))))
  | inr e ↦ rw e (k x)
]

pub unhold-IsCount :
    (refs others : ℕ → ℤ) (own : ℕ → ℕ) (c : ℕ)
    → IsCount refs others own
    → IsCount (upd refs c (pred_ℤ (refs c))) (upd others c (pred_ℤ (others c))) own
unhold-IsCount refs others own c k x = elim (Bool-cases (c == x)) [
  | inl e ↦ rw e (
      subst (λ (y : ℕ). pred_ℤ (refs c) ≡ add_ℤ (pred_ℤ (others c)) (own y)) ((==_iff c x).0 e)
        (ap pred_ℤ (k c) ∙ sym (add-pred (others c) (own c))))
  | inr e ↦ rw e (k x)
]

-- The owners are counted in another way.
pub recount-IsCount :
    (refs others : ℕ → ℤ) (own own' : ℕ → ℕ)
    → ((x : ℕ) → own x ≡ own' x)
    → IsCount refs others own
    → IsCount refs others own'
recount-IsCount refs others own own' same k x = k x ∙ ap (add_ℤ (others x)) (same x)

-- An owner elsewhere gives its hold to an owner here.
pub move-IsCount :
    (refs others : ℕ → ℤ) (own own' : ℕ → ℕ) (c : ℕ)
    → ((x : ℕ) → own' x ≡ own x + times x (c ∷ []))
    → IsCount refs others own
    → IsCount refs (upd others c (pred_ℤ (others c))) own'
move-IsCount refs others own own' c more k =
    at_cell (λ x z. refs x ≡ add_ℤ z (own' x)) others c _
      (let e : suc (own c) ≡ own' c = omega (arith, more c, one_self c) in
        k c
        ∙ sym (suc-pred (add_ℤ (others c) (own c)))
        ∙ ap suc_ℤ (sym (add-pred (others c) (own c)))
        ∙ ap (add_ℤ (pred_ℤ (others c))) e)
      (λ x miss.
        let e : own x ≡ own' x = omega (arith, more x, none_other c x miss) in
        k x ∙ ap (add_ℤ (others x)) e)

-- A count is set for a cell that nothing owned.
pub fresh-IsCount :
    (refs others : ℕ → ℤ) (own own' : ℕ → ℕ) (c n : ℕ)
    → others c ≡ pos 0
    → own' c ≡ n
    → ((x : ℕ) → (c == x) ≡ false → own x ≡ own' x)
    → IsCount refs others own
    → IsCount (upd refs c (add_ℤ (pos 0) n)) others own'
fresh-IsCount refs others own own' c n out one same k =
    at_cell (λ x z. z ≡ add_ℤ (others x) (own' x)) refs c _
      (ap (add_ℤ (pos 0)) (sym one) ∙ ap (λ (z : ℤ). add_ℤ z (own' c)) (sym out))
      (λ x miss. k x ∙ ap (add_ℤ (others x)) (same x miss))
