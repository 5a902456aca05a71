-- ===== src/Prelude/Uthash/Iter.antt =====
-- HASH_ITER of the vendored uthash/uthash.h: the entries of a table in some order, each once, with
-- what uthash's manual says of them, and the entries of an association list.
use Prim.Native.Nat.{ℕ, ◌+◌}
use mathlib.Core.Path.{◌≡◌, refl, ap, ◌∙◌, fun_ext}
use mathlib.Core.Logic.{◌↔◌}
use mathlib.Core.Bool.{Bool, true, false, ◌||◌}
use mathlib.Core.Option.{none, some}
use mathlib.Core.List.{List, [], ◌∷◌}
use native.Mathlib.Omega.{arith}
use http_proxy.Prelude.Tests.{if◌then◌else◌}
use http_proxy.Prelude.Lists.{times, times-cons}
use http_proxy.Prelude.Uthash.Interface.{Uthash}
use http_proxy.Prelude.Uthash.Keyed.{find, del, keyed}

-- The values of entries.
abbrev pub values {ℓ} : {K : Type ℓ} → List (K × ℕ) → List ℕ
values [] = []
values (e ∷ es) = e.1 ∷ values es

pub record Entries {K : Type 0} {eq : K → K → Bool} (T : Uthash eq ℕ) : Type 0 where
  pub entries : T.Table → List (K × ℕ)
  pub entries-empty : entries T.empty ≡ []
  pub entries-add :
      (t : T.Table) (k : K) (v x : ℕ)
      → T.find t k ≡ none
      → times x (values (entries (T.add t k v))) ≡ times x (values (entries t)) + times x (v ∷ [])
  pub entries-del :
      (t : T.Table) (k : K) (v x : ℕ)
      → T.find t k ≡ some v
      → times x (values (entries t)) ≡ times x (values (entries (T.del t k))) + times x (v ∷ [])

module _ {K : Type 0} (eq : K → K → Bool) where
  -- `k` has been seen too.
  abbrev and_seen : K → (K → Bool) → K → Bool
  and_seen k seen j = eq k j || seen j

  -- The first entry of each key that has not been seen.
  abbrev pub shown : (K → Bool) → List (K × ℕ) → List (K × ℕ)
  shown seen [] = []
  shown seen ((k, v) ∷ t) =
      let skipped = shown seen t in
      let taken = shown (and_seen k seen) t in if seen k then skipped else (k, v) ∷ taken

  swap : (j k : K) (seen : K → Bool) → and_seen j (and_seen k seen) ≡ and_seen k (and_seen j seen)
  swap j k seen = fun_ext λ i. ground arith

  shown-del :
      (seen : K → Bool) (t : List (K × ℕ)) (k : K)
      → ((a b : K) → (eq a b ≡ true) ↔ (a ≡ b))
      → shown seen (del eq t k) ≡ shown (and_seen k seen) t
  shown-del seen [] k iff = refl
  shown-del seen ((j, v) ∷ t) k iff =
      let e = ap (λ (s : K → Bool). (j, v) ∷ shown s t) (swap j k seen) in
      ground
        (arith, iff j k, iff k j, shown-del seen t k iff, shown-del (and_seen j seen) t k iff, e)

  shown-absent :
      (seen : K → Bool) (t : List (K × ℕ)) (k : K)
      → ((a b : K) → (eq a b ≡ true) ↔ (a ≡ b))
      → find eq t k ≡ none
      → shown (and_seen k seen) t ≡ shown seen t
  shown-absent seen [] k iff h = refl
  shown-absent seen ((j, v) ∷ t) k iff h =
      let e = ap (λ (s : K → Bool). (j, v) ∷ shown s t) (swap j k seen) in
      ground (
        arith,
        iff j k,
        iff k j,
        shown-absent seen t k iff,
        shown-absent (and_seen j seen) t k iff,
        e,
      )

  pub times-shown :
      (seen : K → Bool) (t : List (K × ℕ)) (k : K) (v x : ℕ)
      → ((a b : K) → (eq a b ≡ true) ↔ (a ≡ b))
      → seen k ≡ false
      → find eq t k ≡ some v
      → times x (values (shown seen t))
        ≡ times x (values (shown seen (del eq t k))) + times x (v ∷ [])
  times-shown seen [] k v x iff out h = absurd (cc)
  times-shown seen ((j, w) ∷ t) k v x iff out h = ground (
    arith,
    iff j k,
    iff k j,
    ap (λ (l : List (K × ℕ)). times x (values l)) (shown-del seen t k iff),
    times-shown seen t k v x iff out,
    times-shown (and_seen j seen) t k v x iff,
    times-cons x w (values (shown (and_seen j seen) t)),
    times-cons x w (values (shown (and_seen j seen) (del eq t k))),
  )

pub shown_added :
    {K : Type 0} (eq : K → K → Bool) (iff : (a b : K) → (eq a b ≡ true) ↔ (a ≡ b))
    (t : List (K × ℕ)) (k : K) (v x : ℕ)
    → find eq t k ≡ none
    → times x (values (shown eq (λ j. false) ((k, v) ∷ t)))
      ≡ times x (values (shown eq (λ j. false) t)) + times x (v ∷ [])
shown_added eq iff t k v x h =
    times-cons x v (values (shown eq (and_seen eq k (λ j. false)) t))
    ∙ ap (λ (l : List (_ × ℕ)). times x (values l) + times x (v ∷ []))
        (shown-absent eq (λ j. false) t k iff h)

-- HASH_ITER on an association list.
abbrev pub keyed_entries :
    {K : Type 0} (eq : K → K → Bool) (iff : (a b : K) → (eq a b ≡ true) ↔ (a ≡ b))
    → Entries (keyed eq iff ℕ)
keyed_entries {K} eq iff = record {
  entries = shown eq (λ k. false);
  entries-empty = refl;
  entries-add = λ t k v x h. shown_added eq iff t k v x h;
  entries-del = λ t k v x h. times-shown eq (λ k. false) t k v x iff refl h;
}
