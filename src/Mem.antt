-- ===== src/Mem.antt =====
-- core/mem.c: memory with reference counts. A pointer is the index of its block; a block that has
-- been freed has no count, and a use of it has no result.
pub mod Counting
mod Tests
use http_proxy.Prelude.{
  ℕ, zero, suc, Bool, true, false, Option, none, some, List, [], ◌∷◌, ◌++◌, ℤ, pos, suc_ℤ, pred_ℤ,
  is_zero, if◌then◌else◌, length, set,
}

-- The counts of the blocks, and the pointers that final functions were called with.
pub record Mem : Type 0 where
  pub cnts : List (Option ℤ)
  pub finals : List ℕ

-- MEM_CNT
unfoldable pub mem_cnt : List (Option ℤ) → ℕ → Option ℤ
mem_cnt [] ptr = none
mem_cnt (c ∷ cs) zero = c
mem_cnt (c ∷ cs) (suc ptr) = mem_cnt cs ptr

unfoldable pub mem_alloc_auto : Mem → ℕ × Mem
mem_alloc_auto m = (length m.cnts, record m { cnts = m.cnts ++ some (pos 1) ∷ [] })

unfoldable pub mem_incref : ℕ → Mem → Option Mem
unfolding mem_cnt
mem_incref ptr m = elim (mem_cnt m.cnts ptr) [
  | none ↦ none
  | some c ↦ some (record m { cnts = set m.cnts ptr (some (suc_ℤ c)) })
]

-- mem_decref with a final function: its result, true for 1.
unfoldable pub mem_decref : ℕ → Mem → Option (Bool × Mem)
unfolding mem_cnt
mem_decref ptr m = elim (mem_cnt m.cnts ptr) [
  | none ↦ none
  | some c ↦
      if is_zero (pred_ℤ c)
      then some (false, record { cnts = set m.cnts ptr none; finals = m.finals ++ ptr ∷ [] })
      else some (true, record m { cnts = set m.cnts ptr (some (pred_ℤ c)) })
]

-- The two calls on one pointer.
pub data RefCall : Type 0 where
  incref decref : RefCall

unfoldable pub ref_call : RefCall → ℕ → Mem → Option Mem
unfolding mem_incref mem_decref
ref_call incref ptr m = mem_incref ptr m
ref_call decref ptr m = elim (mem_decref ptr m) [ none ↦ none | some (left, m') ↦ some m' ]

unfoldable pub ref_calls : List RefCall → ℕ → Mem → Option Mem
unfolding ref_call
ref_calls [] ptr m = some m
ref_calls (c ∷ cs) ptr m = elim (ref_call c ptr m) [ none ↦ none | some m' ↦ ref_calls cs ptr m' ]
