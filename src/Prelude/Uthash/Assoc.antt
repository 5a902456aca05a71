-- ===== src/Prelude/Uthash/Assoc.antt =====
-- An association list as a table: not the code of uthash, but a table that meets the interface.
-- The keys are numbers; the newest entry stands first and hides no other.
use Prim.Native.Nat.{ℕ}
use mathlib.Core.Path.{◌≡◌, refl}
use mathlib.Core.Option.{Option, none, some}
use mathlib.Core.List.{List, [], ◌∷◌}
use native.Mathlib.Omega.{arith}
use http_proxy.Prelude.Uthash.Interface.{Uthash}
use http_proxy.Prelude.Tests.{◌==◌, if◌then◌else◌}

module _ {V : Type 0} where
  abbrev pub find : List (ℕ × V) → ℕ → Option V
  find [] k = none
  find ((j, v) ∷ t) k = if j == k then some v else find t k

  abbrev pub del : List (ℕ × V) → ℕ → List (ℕ × V)
  del [] k = []
  del ((j, v) ∷ t) k = if j == k then del t k else (j, v) ∷ del t k

  abbrev pub update : List (ℕ × V) → ℕ → V → List (ℕ × V)
  update [] k w = []
  update ((j, v) ∷ t) k w = if j == k then (j, w) ∷ t else (j, v) ∷ update t k w

  pub find-del :
      (t : List (ℕ × V)) (k j : ℕ) → find (del t k) j ≡ (if k == j then none else find t j)
  find-del [] k j = ground arith
  find-del ((i, v) ∷ t) k j = ground (arith, find-del t k j)

  pub find-update :
      (t : List (ℕ × V)) (k j : ℕ) (u v : V)
      → find t k ≡ some u
      → find (update t k v) j ≡ (if k == j then some v else find t j)
  find-update [] k j u v h = ground arith
  find-update ((i, w) ∷ t) k j u v h = ground (arith, find-update t k j u v)

  pub find-add :
      (t : List (ℕ × V)) (k j : ℕ) (v : V)
      → find t k ≡ none
      → find ((k, v) ∷ t) j ≡ (if k == j then some v else find t j)
  find-add t k j v h = refl

-- The table over which the examples of the other modules run.
abbrev pub assoc : (V : Type 0) → Uthash ◌==◌ V
assoc V = record {
  Table = List (ℕ × V);
  empty = [];
  find = find;
  add = λ t k v. (k, v) ∷ t;
  del = del;
  update = update;
  find-empty = λ j. refl;
  find-add = find-add;
  find-del = find-del;
  find-update = find-update;
}
