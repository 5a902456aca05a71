-- ===== src/Event/Drained.antt =====
-- core/event.c: event_work comes to an end.
use http_proxy.Prelude.{
  ℕ, zero, suc, ◌+◌, ◌<◌, ◌≡◌, refl, sym, ap, subst, ◌∙◌, inl, inr, Bool, true, false, Option, some,
  List, [], ◌∷◌, ◌++◌, arith, ◌==◌, Option-cases, length, length-append,
}
use http_proxy.Prelude.Uthash.{Uthash}
use http_proxy.Event.{
  HandlerTable, Event, Dispatch, EventCall, dispatch, pop, next_calls, later_calls, Events,
  do_calls, work_loop, event_work,
}
use http_proxy.Event.Queue.{
  posted, posts, IsLinked, IsLinked-false, IsLinked-tail, table_calls, state, do_calls_lem,
}

module _ (T : Uthash ◌==◌ HandlerTable) where
  posts-split :
      (script : List (List EventCall))
      → posts script ≡ length (posted (next_calls script)) + posts (later_calls script)
  posts-split [] = omega arith
  posts-split (cs ∷ script) = refl

  -- An ended run has emptied the queue and reset `tail`.
  abbrev pub Drained : Option (List Dispatch × Events T) → Type 0
  Drained r =
      (log : List Dispatch) × (s : Events T) × (r ≡ some (log, s))
      × (s.head ≡ [])
      × (s.tail_null ≡ true)

  work_loop_total :
      (fuel : ℕ) (script : List (List EventCall)) (log : List Dispatch) (t : T.Table) (i : ℕ)
      (q : List Event) (b : Bool)
      → IsLinked q b
      → length q + posts script < fuel
      → Drained (work_loop T fuel script log (state T t i q b))
  unfolding work_loop
  work_loop_total zero script log t i q b h more = elim more [ ]
  work_loop_total (suc fuel) script log t i [] b h more =
      (log, state T t i [] true, refl, refl, refl)
  work_loop_total (suc fuel) script log t i (e ∷ es) b h more =
      elim (Option-cases (T.find t e.eid)) [
        | inl n ↦
            rw (n, work_loop)
              (work_loop_total fuel script log t i es b (IsLinked-tail es b h) (omega arith))
        | inr (x, f) ↦
            let cs = next_calls script in
            let (j, r) = do_calls_lem T cs t i e es in
            let log' = log ++ dispatch x e ∷ [] in
            rw (f, work_loop)
              (subst
                (λ (s' : Events T).
                  Drained
                    (work_loop T fuel (later_calls script) log' (record s' { head = pop s'.head })))
                (sym (ap (λ (c : Bool). do_calls T cs (state T t i (e ∷ es) c)) h ∙ r))
                (work_loop_total fuel (later_calls script) log' (table_calls T cs t) j
                  (es ++ posted cs) false (IsLinked-false (es ++ posted cs))
                  (omega (arith, posts-split script, length-append es (posted cs)))))
      ]

  -- With fuel for the events that wait and for those that the handlers post, event_work ends; the
  -- queue is then empty and `tail` is NULL again, so that the next post starts a new queue.
  pub event_work_total :
      (fuel : ℕ) (script : List (List EventCall)) (s : Events T)
      → IsLinked s.head s.tail_null
      → length s.head + posts script < fuel
      → Drained (event_work T fuel script s)
  unfolding event_work
  event_work_total fuel script s h =
      work_loop_total fuel script [] s.handlers s.id_max s.head s.tail_null h
