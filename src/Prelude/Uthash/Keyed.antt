-- ===== src/Prelude/Uthash/Keyed.antt =====
-- An association list as a table: not the code of uthash, but a table that meets the interface, for
-- keys of any type with a test for equality.
use mathlib.Core.Path.{◌≡◌, refl}
use mathlib.Core.Logic.{◌↔◌}
use mathlib.Core.Bool.{Bool, true}
use mathlib.Core.Option.{Option, none, some}
use mathlib.Core.List.{List, [], ◌∷◌}
use native.Mathlib.Omega.{arith}
use http_proxy.Prelude.Uthash.Interface.{Uthash}
use http_proxy.Prelude.Tests.{if◌then◌else◌}

module _ {K V : Type 0} (eq : K → K → Bool) where
  abbrev pub find : List (K × V) → K → Option V
  find [] k = none
  find ((j, v) ∷ t) k = if eq j k then some v else find t k

  abbrev pub del : List (K × V) → K → List (K × V)
  del [] k = []
  del ((j, v) ∷ t) k = if eq j k then del t k else (j, v) ∷ del t k

  abbrev pub update : List (K × V) → K → V → List (K × V)
  update [] k w = []
  update ((j, v) ∷ t) k w = if eq j k then (j, w) ∷ t else (j, v) ∷ update t k w

module _ {K V : Type 0} (eq : K → K → Bool) (iff : (a b : K) → (eq a b ≡ true) ↔ (a ≡ b)) where
  pub find-del :
      (t : List (K × V)) (k j : K) → find eq (del eq t k) j ≡ (if eq k j then none else find eq t j)
  find-del [] k j = ground arith
  find-del ((i, v) ∷ t) k j = ground (arith, find-del t k j, iff i k, iff k j, iff i j)

  pub find-update :
      (t : List (K × V)) (k j : K) (u v : V)
      → find eq t k ≡ some u
      → find eq (update eq t k v) j ≡ (if eq k j then some v else find eq t j)
  find-update [] k j u v h = ground arith
  find-update ((i, w) ∷ t) k j u v h =
      ground (arith, find-update t k j u v, iff i k, iff k j, iff i j)

  pub find-add :
      (t : List (K × V)) (k j : K) (v : V)
      → find eq t k ≡ none
      → find eq ((k, v) ∷ t) j ≡ (if eq k j then some v else find eq t j)
  find-add t k j v h = refl

-- The table over which examples run.
abbrev pub keyed :
    {K : Type 0} (eq : K → K → Bool) (iff : (a b : K) → (eq a b ≡ true) ↔ (a ≡ b)) (V : Type 0)
    → Uthash eq V
keyed {K} eq iff V = record {
  Table = List (K × V);
  empty = [];
  find = find eq;
  add = λ t k v. (k, v) ∷ t;
  del = del eq;
  update = update eq;
  find-empty = λ j. refl;
  find-add = find-add eq iff;
  find-del = find-del eq iff;
  find-update = find-update eq iff;
}
