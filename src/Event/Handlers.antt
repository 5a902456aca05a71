-- ===== src/Event/Handlers.antt =====
-- core/event.c: the handler that an event reaches is the one its id has when the event is served.
use http_proxy.Prelude.{
  ℕ, suc, ◌≡◌, refl, sym, ap, subst, ◌∙◌, inl, inr, true, false, none, some, List, [], ◌∷◌, arith,
  ◌==◌, Bool-cases, Option-cases, if◌then◌else◌,
}
use http_proxy.Prelude.Uthash.{Uthash}
use http_proxy.Event.{
  HandlerTable, Event, Events, event_free_id, event_set_handler, event_post, event_work,
}
use http_proxy.Event.Queue.{IsLinked, serve, view, event_work-serve}

module _ (T : Uthash ◌==◌ HandlerTable) where
  -- Registration replaces what the id had, and leaves every other id alone.
  pub find-event_set_handler :
      (eid handler d j : ℕ) (s : Events T)
      → T.find (event_set_handler T eid handler d s).handlers j
        ≡ (if eid == j then some (record { handler = handler; data0 = d }) else T.find s.handlers j)
  unfolding event_set_handler
  find-event_set_handler eid handler d j s = elim (Option-cases (T.find s.handlers eid)) [
    | inl n ↦ rw (n, event_set_handler) (T.find-add s.handlers eid j _ n)
    | inr (u, f) ↦ rw (f, event_set_handler) (T.find-update s.handlers eid j u _ f)
  ]

  pub find-event_free_id :
      (eid j : ℕ) (s : Events T)
      → T.find (event_free_id T eid s).handlers j ≡ (if eid == j then none else T.find s.handlers j)
  unfolding event_free_id
  find-event_free_id eid j s = elim (Option-cases (T.find s.handlers eid)) [
    | inl n ↦
        rw (n, event_free_id)
          (elim (Bool-cases (eid == j)) [
            | inl same ↦ let e : eid ≡ j = ground arith in rw (same, ← e) n
            | inr other ↦ rw other
          ])
    | inr (u, f) ↦ rw (f, event_free_id) (T.find-del s.handlers eid j)
  ]

  serve_one :
      (fuel : ℕ) (t : T.Table) (ev : Event) (h : HandlerTable)
      → T.find t ev.eid ≡ some h
      → serve T (suc (suc fuel)) [] [] t (ev ∷ [])
        ≡ some (
          record { handler = h.handler; eid = ev.eid; data0 = h.data0; data1 = ev.data1 } ∷ [],
          t,
        )
  unfolding serve
  serve_one fuel t ev h f = rw (f, serve)

  serve-none :
      (fuel : ℕ) (t : T.Table) (ev : Event)
      → T.find t ev.eid ≡ none
      → serve T (suc (suc fuel)) [] [] t (ev ∷ []) ≡ some ([], t)
  unfolding serve
  serve-none fuel t ev f = rw (f, serve)

  set-keeps :
      (eid handler d : ℕ) (s : Events T)
      → ((event_set_handler T eid handler d s).head ≡ s.head)
        × ((event_set_handler T eid handler d s).tail_null ≡ s.tail_null)
  unfolding event_set_handler
  set-keeps eid handler d s = elim (Option-cases (T.find s.handlers eid)) [
    | inl n ↦ rw (n, event_set_handler) (refl, refl)
    | inr (u, f) ↦ rw (f, event_set_handler) (refl, refl)
  ]

  free-keeps :
      (eid : ℕ) (s : Events T)
      → ((event_free_id T eid s).head ≡ s.head) × ((event_free_id T eid s).tail_null ≡ s.tail_null)
  unfolding event_free_id
  free-keeps eid s = elim (Option-cases (T.find s.handlers eid)) [
    | inl n ↦ rw (n, event_free_id) (refl, refl)
    | inr (u, f) ↦ rw (f, event_free_id) (refl, refl)
  ]

  post_idle :
      (eid d1 : ℕ) (s : Events T)
      → s.tail_null ≡ true
      → ((event_post T eid d1 s).head ≡ record { eid = eid; data1 = d1 } ∷ [])
        × ((event_post T eid d1 s).tail_null ≡ false)
  unfolding event_post
  post_idle eid d1 s h = ground arith

  linked :
      (s : Events T) (ev : Event)
      → s.head ≡ ev ∷ []
      → s.tail_null ≡ false
      → IsLinked s.head s.tail_null
  linked s ev h b = subst (λ (q : List Event). IsLinked q s.tail_null) (sym h) b

  same_id : {A : Type 0} (eid : ℕ) (a b : A) → (if eid == eid then a else b) ≡ a
  same_id eid a b = ground arith

  -- One event is posted to an idle queue before its id has a handler, as the request and response
  -- coroutines do: the handler registered afterwards is called for it, once, with both data.
  pub post-set_handler :
      (fuel eid handler d0 d1 : ℕ) (s : Events T)
      → s.tail_null ≡ true
      → let s' = event_set_handler T eid handler d0 (event_post T eid d1 s) in
        view T (event_work T (suc (suc fuel)) [] s')
        ≡ some (record { handler = handler; eid = eid; data0 = d0; data1 = d1 } ∷ [], s'.handlers)
  post-set_handler fuel eid handler d0 d1 s h =
      let p = event_post T eid d1 s in
      let s' = event_set_handler T eid handler d0 p in
      let ev : Event = record { eid = eid; data1 = d1 } in
      let (q, b) = set-keeps eid handler d0 p in
      let (q', b') = post_idle eid d1 s h in
      event_work-serve T (suc (suc fuel)) [] s' (linked s' ev (q ∙ q') (b ∙ b'))
      ∙ ap (serve T (suc (suc fuel)) [] [] s'.handlers) (q ∙ q')
      ∙ serve_one fuel s'.handlers ev (record { handler = handler; data0 = d0 })
          (find-event_set_handler eid handler d0 eid p ∙ same_id eid _ _)

  -- An event whose id is freed before its turn reaches no handler.
  pub post-free_id :
      (fuel eid d1 : ℕ) (s : Events T)
      → s.tail_null ≡ true
      → let s' = event_free_id T eid (event_post T eid d1 s) in
        view T (event_work T (suc (suc fuel)) [] s') ≡ some ([], s'.handlers)
  post-free_id fuel eid d1 s h =
      let p = event_post T eid d1 s in
      let s' = event_free_id T eid p in
      let ev : Event = record { eid = eid; data1 = d1 } in
      let (q, b) = free-keeps eid p in
      let (q', b') = post_idle eid d1 s h in
      event_work-serve T (suc (suc fuel)) [] s' (linked s' ev (q ∙ q') (b ∙ b'))
      ∙ ap (serve T (suc (suc fuel)) [] [] s'.handlers) (q ∙ q')
      ∙ serve-none fuel s'.handlers ev (find-event_free_id eid eid p ∙ same_id eid _ _)
