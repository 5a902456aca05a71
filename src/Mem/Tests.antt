-- ===== src/Mem/Tests.antt =====
-- Examples for core/mem.c.
use http_proxy.Prelude.{some, List, [], ◌∷◌, pos}
use http_proxy.Mem.{Mem, mem_alloc_auto, RefCall, incref, decref, ref_calls}
use http_proxy.Mem.Counting.{owners, Agree, ref_calls-owners}

-- One block that is in use already.
abbrev heap : Mem
heap = record { cnts = some (pos 2) ∷ []; finals = [] }

abbrev two_owners : List RefCall
two_owners = incref ∷ decref ∷ decref ∷ []

freed_once :
    Agree
      (mem_alloc_auto heap).0
      heap.finals
      (owners 1 two_owners)
      (ref_calls two_owners (mem_alloc_auto heap).0 (mem_alloc_auto heap).1)
freed_once = ref_calls-owners two_owners heap
