-- ===== src/Event.antt =====
-- core/event.c and core/event.h: event ids, the table of their handlers, and the queue of posted
-- events that event_work serves. A handler and a `void*` are numbers. The queue is the list of the
-- nodes from `head` on; `tail_null` says whether `tail` is NULL.
pub mod Queue
pub mod Drained
pub mod Handlers
mod Tests
use http_proxy.Prelude.{
  ℕ, zero, suc, ◌+◌, ◌%◌, ◌^◌, Bool, true, false, Option, none, some, List, [], ◌∷◌, ◌++◌, ◌==◌,
  if◌then◌else◌,
}
use http_proxy.Prelude.Uthash.{Uthash}

-- struct handler_table, less its key
pub record HandlerTable : Type 0 where
  pub handler : ℕ
  pub data0 : ℕ

-- struct event
pub record Event : Type 0 where
  pub eid : ℕ
  pub data1 : ℕ

-- A call of a handler by event_work.
pub record Dispatch : Type 0 where
  pub handler : ℕ
  pub eid : ℕ
  pub data0 : ℕ
  pub data1 : ℕ

-- What a handler does to this component.
pub data EventCall : Type 0 where
  get_id : EventCall
  free_id : ℕ → EventCall
  set_handler : ℕ → ℕ → ℕ → EventCall
  post : ℕ → ℕ → EventCall

abbrev pub dispatch : HandlerTable → Event → Dispatch
dispatch h ev = record { handler = h.handler; eid = ev.eid; data0 = h.data0; data1 = ev.data1 }

-- `tail->next = ev`: on a queue whose nodes have all been freed the event is lost.
abbrev pub link : List Event → Event → List Event
link [] ev = []
link (e ∷ es) ev = e ∷ es ++ ev ∷ []

abbrev pub pop : List Event → List Event
pop [] = []
pop (e ∷ es) = es

-- The calls of the next handler, and those of the handlers after it: what the handlers do is given
-- as a script, handler by handler; behind its end they do nothing.
abbrev pub next_calls : List (List EventCall) → List EventCall
next_calls [] = []
next_calls (cs ∷ script) = cs

abbrev pub later_calls : List (List EventCall) → List (List EventCall)
later_calls [] = []
later_calls (cs ∷ script) = script

module _ (T : Uthash ◌==◌ HandlerTable) where
  pub record Events : Type 0 where
    pub handlers : T.Table
    pub id_max : ℕ
    pub head : List Event
    pub tail_null : Bool

  -- The initial values of the statics.
  abbrev pub init : Events
  init = record { handlers = T.empty; id_max = 0; head = []; tail_null = true }

  -- `id_max++` on a uint32_t
  unfoldable pub event_get_id : Events → ℕ × Events
  event_get_id s = (s.id_max, record s { id_max = (s.id_max + 1) % 2 ^ 32 })

  unfoldable pub event_free_id : ℕ → Events → Events
  event_free_id eid s = elim (T.find s.handlers eid) [
    | none ↦ s
    | some h ↦ record s { handlers = T.del s.handlers eid }
  ]

  unfoldable pub event_set_handler : ℕ → ℕ → ℕ → Events → Events
  event_set_handler eid handler d s =
      let ent : HandlerTable = record { handler = handler; data0 = d } in
      elim (T.find s.handlers eid) [
        | none ↦ record s { handlers = T.add s.handlers eid ent }
        | some h ↦ record s { handlers = T.update s.handlers eid ent }
      ]

  unfoldable pub event_post : ℕ → ℕ → Events → Events
  event_post eid d s =
      let ev : Event = record { eid = eid; data1 = d } in
      if s.tail_null
      then record s { head = ev ∷ []; tail_null = false }
      else record s { head = link s.head ev }

  unfoldable pub do_call : EventCall → Events → Events
  unfolding event_get_id event_free_id event_set_handler event_post
  do_call get_id s = (event_get_id s).1
  do_call (free_id eid) s = event_free_id eid s
  do_call (set_handler eid h d) s = event_set_handler eid h d s
  do_call (post eid d) s = event_post eid d s

  unfoldable pub do_calls : List EventCall → Events → Events
  unfolding do_call
  do_calls [] s = s
  do_calls (c ∷ cs) s = do_calls cs (do_call c s)

  -- `while (head)` of event_work. The node is freed after its handler has run.
  unfoldable pub work_loop :
      ℕ → List (List EventCall) → List Dispatch → Events → Option (List Dispatch × Events)
  unfolding do_calls
  work_loop zero script log s = none
  work_loop (suc fuel) script log s = elim s.head [
    | [] ↦ some (log, record s { tail_null = true })
    | ev ∷ rest ↦ elim (T.find s.handlers ev.eid) [
      | none ↦ work_loop fuel script log (record s { head = pop s.head })
      | some h ↦
          let s' = do_calls (next_calls script) s in
          work_loop fuel (later_calls script) (log ++ dispatch h ev ∷ [])
            (record s' { head = pop s'.head })
    ]
  ]

  -- event_work: the handlers called, in order, and the state afterwards; none if the fuel runs out.
  unfoldable pub event_work : ℕ → List (List EventCall) → Events → Option (List Dispatch × Events)
  unfolding work_loop
  event_work fuel script s = work_loop fuel script [] s
