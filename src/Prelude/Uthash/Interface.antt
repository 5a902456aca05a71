-- ===== src/Prelude/Uthash/Interface.antt =====
-- The operations of the vendored hash table uthash/uthash.h that the proxy calls on tables with
-- one entry to a key, as an interface: HASH_FIND, HASH_ADD, HASH_DEL, the change of a found entry
-- through its pointer, with what uthash's manual says of them.
use mathlib.Core.Path.{◌≡◌}
use mathlib.Core.Bool.{Bool}
use mathlib.Core.Option.{Option, none, some}
use http_proxy.Prelude.Tests.{if◌then◌else◌}

pub record Uthash {K : Type 0} (eq : K → K → Bool) (V : Type 0) : Type 1 where
  pub Table : Type 0
  pub empty : Table
  pub find : Table → K → Option V
  pub add : Table → K → V → Table
  pub del : Table → K → Table
  pub update : Table → K → V → Table
  pub find-empty : (j : K) → find empty j ≡ none
  -- A key is added only where it is absent.
  pub find-add :
      (t : Table) (k j : K) (v : V)
      → find t k ≡ none
      → find (add t k v) j ≡ (if eq k j then some v else find t j)
  pub find-del : (t : Table) (k j : K) → find (del t k) j ≡ (if eq k j then none else find t j)
  -- An entry is changed only where it was found.
  pub find-update :
      (t : Table) (k j : K) (u v : V)
      → find t k ≡ some u
      → find (update t k v) j ≡ (if eq k j then some v else find t j)
