-- ===== src/Event/Queue.antt =====
-- core/event.c: the queue behind `head` and `tail` is first in, first out, also for events that
-- handlers post while it is served.
use http_proxy.Prelude.{
  ℕ, zero, suc, ◌+◌, ◌%◌, ◌^◌, ◌≡◌, refl, ap, ◌∙◌, inl, inr, Bool, false, Option, none, some, List,
  [], ◌∷◌, ◌++◌, ◌==◌, Option-cases, length,
}
use mathlib.Core.List.{append_assoc, append-nil}
use http_proxy.Prelude.Uthash.{Uthash}
use http_proxy.Event.{
  HandlerTable, Event, Dispatch, EventCall, get_id, free_id, set_handler, post, dispatch, pop,
  next_calls, later_calls, Events, do_call, do_calls, work_loop, event_work,
}

-- The events that a handler posts, in order.
abbrev pub posted : List EventCall → List Event
posted [] = []
posted (post eid d ∷ cs) = record { eid = eid; data1 = d } ∷ posted cs
posted (get_id ∷ cs) = posted cs
posted (free_id _ ∷ cs) = posted cs
posted (set_handler _ _ _ ∷ cs) = posted cs

abbrev pub posts : List (List EventCall) → ℕ
posts [] = 0
posts (cs ∷ script) = length (posted cs) + posts script

-- `tail` is not NULL while there is a node.
abbrev pub IsLinked : List Event → Bool → Type 0
IsLinked [] b = Unit {0}
IsLinked (e ∷ es) b = b ≡ false

pub IsLinked-false : (q : List Event) → IsLinked q false
IsLinked-false [] = tt
IsLinked-false (e ∷ es) = refl

pub IsLinked-tail : (q : List Event) (b : Bool) → b ≡ false → IsLinked q b
IsLinked-tail [] b h = tt
IsLinked-tail (e ∷ es) b h = h

module _ (T : Uthash ◌==◌ HandlerTable) where
  -- What a call does to the table of handlers.
  unfoldable pub table_call : EventCall → T.Table → T.Table
  table_call get_id t = t
  table_call (free_id eid) t = elim (T.find t eid) [ none ↦ t | some h ↦ T.del t eid ]
  table_call (set_handler eid h d) t =
      let ent : HandlerTable = record { handler = h; data0 = d } in
      elim (T.find t eid) [ none ↦ T.add t eid ent | some _ ↦ T.update t eid ent ]
  table_call (post eid d) t = t

  unfoldable pub table_calls : List EventCall → T.Table → T.Table
  unfolding table_call
  table_calls [] t = t
  table_calls (c ∷ cs) t = table_calls cs (table_call c t)

  -- The specification: the queue is a list that is served from the front, and what a handler posts
  -- goes to the back.
  unfoldable pub serve :
      ℕ
      → List (List EventCall)
      → List Dispatch
      → T.Table
      → List Event
      → Option (List Dispatch × T.Table)
  unfolding table_calls
  serve zero script log t q = none
  serve (suc fuel) script log t [] = some (log, t)
  serve (suc fuel) script log t (ev ∷ rest) = elim (T.find t ev.eid) [
    | none ↦ serve fuel script log t rest
    | some h ↦
        serve fuel (later_calls script) (log ++ dispatch h ev ∷ [])
          (table_calls (next_calls script) t) (rest ++ posted (next_calls script))
  ]

  -- What of a result the specification speaks of.
  abbrev pub view : Option (List Dispatch × Events T) → Option (List Dispatch × T.Table)
  view none = none
  view (some (log, s)) = some (log, s.handlers)

  abbrev pub state : T.Table → ℕ → List Event → Bool → Events T
  state t i q b = record { handlers = t; id_max = i; head = q; tail_null = b }

  free_id_lem :
      (o : Option HandlerTable) (eid : ℕ) (t : T.Table) (i : ℕ) (q : List Event)
      → ◌≡◌ {A = Events T}
          (elim o [ none ↦ state t i q false | some h ↦ state (T.del t eid) i q false ])
          (state (elim o [ none ↦ t | some h ↦ T.del t eid ]) i q false)
  free_id_lem none eid t i q = refl
  free_id_lem (some h) eid t i q = refl

  set_handler_lem :
      (o : Option HandlerTable) (eid : ℕ) (ent : HandlerTable) (t : T.Table) (i : ℕ)
      (q : List Event)
      → ◌≡◌ {A = Events T}
          (elim o [
            | none ↦ state (T.add t eid ent) i q false
            | some _ ↦ state (T.update t eid ent) i q false
          ])
          (state (elim o [ none ↦ T.add t eid ent | some _ ↦ T.update t eid ent ]) i q false)
  set_handler_lem none eid ent t i q = refl
  set_handler_lem (some h) eid ent t i q = refl

  -- The next id.
  abbrev id_after : EventCall → ℕ → ℕ
  id_after get_id i = (i + 1) % 2 ^ 32
  id_after (free_id _) i = i
  id_after (set_handler _ _ _) i = i
  id_after (post _ _) i = i

  do_call_lem :
      (c : EventCall) (t : T.Table) (i : ℕ) (e : Event) (es : List Event)
      → do_call T c (state t i (e ∷ es) false)
        ≡ state (table_call c t) (id_after c i) (e ∷ es ++ posted (c ∷ [])) false
  unfolding do_call table_call
  do_call_lem get_id t i e es = rw (append-nil es)
  do_call_lem (free_id eid) t i e es =
      rw (append-nil es) (free_id_lem (T.find t eid) eid t i (e ∷ es))
  do_call_lem (set_handler eid h d) t i e es =
      rw (append-nil es)
        (set_handler_lem (T.find t eid) eid (record { handler = h; data0 = d }) t i (e ∷ es))
  do_call_lem (post eid d) t i e es = refl

  posted-cons :
      (c : EventCall) (cs : List EventCall) → posted (c ∷ []) ++ posted cs ≡ posted (c ∷ cs)
  posted-cons get_id cs = refl
  posted-cons (free_id _) cs = refl
  posted-cons (set_handler _ _ _) cs = refl
  posted-cons (post _ _) cs = refl

  -- On a queue with a node the calls of a handler change the table, and add at the end.
  pub do_calls_lem :
      (cs : List EventCall) (t : T.Table) (i : ℕ) (e : Event) (es : List Event)
      → (j : ℕ) × (do_calls T cs (state t i (e ∷ es) false)
          ≡ state (table_calls cs t) j (e ∷ es ++ posted cs) false)
  unfolding do_calls table_calls
  do_calls_lem [] t i e es = (i, rw (append-nil es))
  do_calls_lem (c ∷ cs) t i e es =
      let (j, r) = do_calls_lem cs (table_call c t) (id_after c i) e (es ++ posted (c ∷ [])) in
      (
        j,
        ap (do_calls T cs) (do_call_lem c t i e es)
            ∙ r
            ∙ ap (λ (q : List Event). state (table_calls cs (table_call c t)) j (e ∷ q) false)
                (append_assoc es (posted (c ∷ [])) (posted cs) ∙ ap (◌++◌ es) (posted-cons c cs)),
      )

  -- The result of event_work, as the specification sees it.
  work_loop_lem :
      (fuel : ℕ) (script : List (List EventCall)) (log : List Dispatch) (t : T.Table) (i : ℕ)
      (q : List Event) (b : Bool)
      → IsLinked q b
      → view (work_loop T fuel script log (state t i q b)) ≡ serve fuel script log t q
  unfolding work_loop serve
  work_loop_lem zero script log t i q b h = refl
  work_loop_lem (suc fuel) script log t i [] b h = refl
  work_loop_lem (suc fuel) script log t i (e ∷ es) b h = elim (Option-cases (T.find t e.eid)) [
    | inl n ↦
        rw (n, work_loop, serve) (work_loop_lem fuel script log t i es b (IsLinked-tail es b h))
    | inr (x, f) ↦
        let (j, r) = do_calls_lem (next_calls script) t i e es in
        rw (f, work_loop, serve)
          (ap
              (λ (s' : Events T). view (
                work_loop T fuel (later_calls script) (log ++ dispatch x e ∷ [])
                  (record s' { head = pop s'.head })))
              (ap (λ (c : Bool). do_calls T (next_calls script) (state t i (e ∷ es) c)) h ∙ r)
            ∙ work_loop_lem fuel (later_calls script) (log ++ dispatch x e ∷ [])
                (table_calls (next_calls script) t) j (es ++ posted (next_calls script)) false
                (IsLinked-false (es ++ posted (next_calls script))))
  ]

  -- event_work does what the specification says: it calls the handlers of the events in the order
  -- in which these were posted, those posted meanwhile by handlers at the end, and leaves out the
  -- events whose id has no handler at its turn.
  pub event_work-serve :
      (fuel : ℕ) (script : List (List EventCall)) (s : Events T)
      → IsLinked s.head s.tail_null
      → view (event_work T fuel script s) ≡ serve fuel script [] s.handlers s.head
  unfolding event_work
  event_work-serve fuel script s h =
      work_loop_lem fuel script [] s.handlers s.id_max s.head s.tail_null h
