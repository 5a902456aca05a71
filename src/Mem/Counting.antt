-- ===== src/Mem/Counting.antt =====
-- core/mem.c: calls on one pointer against a plain count of its owners.
use http_proxy.Prelude.{
  ℕ, zero, suc, ◌≡◌, refl, ap, Option, none, some, List, [], ◌∷◌, ◌++◌, ℤ, pos, length, set,
}
use http_proxy.Mem.{
  Mem, mem_cnt, mem_alloc_auto, mem_incref, mem_decref, RefCall, incref, decref, ref_call,
  ref_calls,
}

-- How many owners n owners are after the calls; none for a call when there is no owner left.
unfoldable pub owners : ℕ → List RefCall → Option ℕ
owners n [] = some n
owners zero (c ∷ cs) = none
owners (suc n) (incref ∷ cs) = owners (suc (suc n)) cs
owners (suc n) (decref ∷ cs) = owners n cs

-- The block has n owners: with none it has been freed, and its final function was called once more
-- than in `finals`.
abbrev pub HasOwners : ℕ → List ℕ → ℕ → Mem → Type 0
HasOwners ptr finals zero m = (mem_cnt m.cnts ptr ≡ none) × (m.finals ≡ finals ++ ptr ∷ [])
HasOwners ptr finals (suc n) m = (mem_cnt m.cnts ptr ≡ some (pos (suc n))) × (m.finals ≡ finals)

-- The calls and the count agree: both have no result, or the memory has as many owners.
abbrev pub Agree : ℕ → List ℕ → Option ℕ → Option Mem → Type 0
Agree ptr finals none r = r ≡ none
Agree ptr finals (some n) r = (m : Mem) × (r ≡ some m) × HasOwners ptr finals n m

mem_cnt-set :
    (cs : List (Option ℤ)) (ptr : ℕ) (c : ℤ) (v : Option ℤ)
    → mem_cnt cs ptr ≡ some c
    → mem_cnt (set cs ptr v) ptr ≡ v
unfolding mem_cnt
mem_cnt-set [] ptr c v h = absurd (cc)
mem_cnt-set (b ∷ cs) zero c v h = refl
mem_cnt-set (b ∷ cs) (suc ptr) c v h = mem_cnt-set cs ptr c v h

mem_cnt-new : (cs : List (Option ℤ)) (v : Option ℤ) → mem_cnt (cs ++ v ∷ []) (length cs) ≡ v
unfolding mem_cnt
mem_cnt-new [] v = refl
mem_cnt-new (c ∷ cs) v = mem_cnt-new cs v

incref_lem :
    (ptr n : ℕ) (m : Mem)
    → mem_cnt m.cnts ptr ≡ some (pos (suc n))
    → ref_call incref ptr m ≡ some (record m { cnts = set m.cnts ptr (some (pos (suc (suc n)))) })
unfolding ref_call mem_incref
incref_lem ptr n m h = rw (h, mem_incref) refl

decref_more :
    (ptr n : ℕ) (m : Mem)
    → mem_cnt m.cnts ptr ≡ some (pos (suc (suc n)))
    → ref_call decref ptr m ≡ some (record m { cnts = set m.cnts ptr (some (pos (suc n))) })
unfolding ref_call mem_decref
decref_more ptr n m h = rw (h, ref_call, mem_decref) refl

decref_last :
    (ptr : ℕ) (m : Mem)
    → mem_cnt m.cnts ptr ≡ some (pos 1)
    → ref_call decref ptr m
      ≡ some (record { cnts = set m.cnts ptr none; finals = m.finals ++ ptr ∷ [] })
unfolding ref_call mem_decref
decref_last ptr m h = rw (h, ref_call, mem_decref) refl

freed :
    (cs : List RefCall) (ptr : ℕ) (finals : List ℕ) (m : Mem)
    → HasOwners ptr finals zero m
    → Agree ptr finals (owners zero cs) (ref_calls cs ptr m)
unfolding owners ref_calls ref_call mem_incref mem_decref
freed [] ptr finals m h = (m, refl, h)
freed (incref ∷ cs) ptr finals m h = rw (h.0, ref_calls, ref_call, mem_incref) refl
freed (decref ∷ cs) ptr finals m h = rw (h.0, ref_calls, ref_call, mem_decref) refl

counted :
    (cs : List RefCall) (ptr : ℕ) (finals : List ℕ) (n : ℕ) (m : Mem)
    → HasOwners ptr finals (suc n) m
    → Agree ptr finals (owners (suc n) cs) (ref_calls cs ptr m)
unfolding owners ref_calls
counted [] ptr finals n m h = (m, refl, h)
counted (incref ∷ cs) ptr finals n m h =
    rw (incref_lem ptr n m h.0, ref_calls)
      (counted cs ptr finals (suc n) _ (mem_cnt-set m.cnts ptr _ _ h.0, h.1))
counted (decref ∷ cs) ptr finals zero m h =
    rw (decref_last ptr m h.0, ref_calls)
      (freed cs ptr finals _
        (mem_cnt-set m.cnts ptr _ none h.0, ap (λ (x : List ℕ). x ++ ptr ∷ []) h.1))
counted (decref ∷ cs) ptr finals (suc n) m h =
    rw (decref_more ptr n m h.0, ref_calls)
      (counted cs ptr finals n _ (mem_cnt-set m.cnts ptr _ _ h.0, h.1))

-- From mem_alloc_auto on, calls of mem_incref and mem_decref on the new pointer do what counting
-- owners from one on does: the block is freed, with one call of the final function, by the call that
-- takes the last owner away and by no other, and it is a use after that which has no result.
pub ref_calls-owners :
    (cs : List RefCall) (m : Mem)
    → Agree
        (mem_alloc_auto m).0
        m.finals
        (owners 1 cs)
        (ref_calls cs (mem_alloc_auto m).0 (mem_alloc_auto m).1)
unfolding mem_alloc_auto
ref_calls-owners cs m =
    counted cs (length m.cnts) m.finals zero _ (mem_cnt-new m.cnts (some (pos 1)), refl)
