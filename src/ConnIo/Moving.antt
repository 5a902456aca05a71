-- ===== src/ConnIo/Moving.antt =====
-- core/conn_io.c, conn_copy: what goes from one connection to the other.
use http_proxy.Prelude.{
  ℕ, ◌-◌, ◌≤◌, ◌≡◌, refl, sym, ap, ◌∙◌, ◌⊎◌, inl, inr, Bool, true, false, List, [], ◌++◌, arith,
  length, length-append,
}
use mathlib.Core.List.{append_assoc, append-nil}
use http_proxy.Run.{Run, Keeps, ends, stays}
use http_proxy.Conn.{is_closed}
use http_proxy.ConnIo.{State, Pair, stream, on_out, on_inp}
use http_proxy.ConnIo.Buffer.{IsBuffered}

-- What has gone out is the front of what came in, and no more than `len` bytes.
pub record Passed (len : ℕ) (p q : Pair) : Type 0 where
  pub part : List ℕ
  pub rest : List ℕ
  pub front : stream p.inp ≡ part ++ rest
  pub out : q.out.sent ≡ p.out.sent ++ part
  pub most : length part ≤ len

-- With 0, `len` bytes have been read off, and they have gone out or `out` is closed; with -1 one of the
-- two connections is closed.
pub record Moved (len : ℕ) (p : Pair) (ok : Bool) (q : Pair) : Type 0 where
  pub passed : Passed len p q
  pub whole :
      ok ≡ true
      → (used : List ℕ) × (length used ≡ len)
        × (stream p.inp ≡ used ++ stream q.inp)
        × ((passed.part ≡ used) ⊎ (is_closed q.out.stat ≡ true))
  pub kept : ok ≡ true → IsBuffered q.inp
  pub shut : ok ≡ false → (is_closed q.inp.stat ≡ true) ⊎ (is_closed q.out.stat ≡ true)

module _ {A : Type 0} {P : A → State → Type 0} {Q : State → Type 0} where
  pub lift_inp :
      (r : Run State A) (p : Pair)
      → Keeps P Q r
      → Keeps
          (λ (a : A) (q : Pair). P a (q.inp, q.world) × (q.out ≡ p.out))
          (λ (q : Pair). Q (q.inp, q.world) × (q.out ≡ p.out))
          (on_inp (λ s. r) p)
  lift_inp r p (ends h) = ends (h, refl)
  lift_inp r p (stays h) = stays (h, refl)

  pub lift_out :
      (r : Run State A) (p : Pair)
      → Keeps P Q r
      → Keeps
          (λ (a : A) (q : Pair). P a (q.out, q.world) × (q.inp ≡ p.inp))
          (λ (q : Pair). Q (q.out, q.world) × (q.inp ≡ p.inp))
          (on_out (λ s. r) p)
  lift_out r p (ends h) = ends (h, refl)
  lift_out r p (stays h) = stays (h, refl)

-- The bytes `x` have been read off and have gone out; the rest of the work is done from there.
unfoldable pub passed_more :
    (len : ℕ) (p m q : Pair) (x : List ℕ) (n : ℕ)
    → stream p.inp ≡ x ++ stream m.inp
    → m.out.sent ≡ p.out.sent ++ x
    → length x ≡ n
    → n ≤ len
    → Passed (len - n) m q
    → Passed len p q
passed_more len p m q x n s o i l h = record {
  part = x ++ h.part;
  rest = h.rest;
  front = s ∙ ap (λ (y : List ℕ). x ++ y) h.front ∙ sym (append_assoc x h.part h.rest);
  out = h.out ∙ ap (λ (y : List ℕ). y ++ h.part) o ∙ append_assoc p.out.sent x h.part;
  most = omega (arith, length-append x h.part, h.most, i);
}

pub Moved-more :
    (len : ℕ) (p m q : Pair) (ok : Bool) (x : List ℕ) (n : ℕ)
    → stream p.inp ≡ x ++ stream m.inp
    → m.out.sent ≡ p.out.sent ++ x
    → length x ≡ n
    → n ≤ len
    → Moved (len - n) m ok q
    → Moved len p ok q
unfolding passed_more
Moved-more len p m q ok x n s o i l h = record {
  passed = passed_more len p m q x n s o i l h.passed;
  whole = λ e.
      let (used, k, t, c) = h.whole e in
      (
        x ++ used,
        omega (arith, length-append x used, k, i),
        s ∙ ap (λ (y : List ℕ). x ++ y) t ∙ sym (append_assoc x used (stream q.inp)),
        elim c [ inl same ↦ inl (ap (λ (y : List ℕ). x ++ y) same) | inr closed ↦ inr closed ],
      );
  kept = h.kept;
  shut = h.shut;
}

-- Nothing has gone out.
unfoldable pub passed_none : (len : ℕ) (p q : Pair) → q.out.sent ≡ p.out.sent → Passed len p q
passed_none len p q o = record {
  part = [];
  rest = stream p.inp;
  front = refl;
  out = o ∙ sym (append-nil p.out.sent);
  most = omega arith;
}

-- A first part of `x` has gone out, and that was all.
pub passed_part :
    (len : ℕ) (p q : Pair) (x y part rest : List ℕ)
    → stream p.inp ≡ x ++ y
    → x ≡ part ++ rest
    → q.out.sent ≡ p.out.sent ++ part
    → length x ≤ len
    → Passed len p q
passed_part len p q x y part rest s e o l = record {
  part = part;
  rest = rest ++ y;
  front = s ∙ ap (λ (z : List ℕ). z ++ y) e ∙ append_assoc part rest y;
  out = o;
  most = omega (arith, ap length e, length-append part rest);
}
