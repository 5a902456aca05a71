-- ===== src/Event/Tests.antt =====
-- Examples for core/event.c.
use http_proxy.Prelude.{◌≡◌, refl, false, some, List, [], ◌∷◌}
use http_proxy.Prelude.Uthash.{assoc}
use http_proxy.Event.{HandlerTable, EventCall, post, Dispatch, Events, event_work}
use http_proxy.Event.Queue.{serve, view, event_work-serve}

-- Event 0 has handler 7 and waits; event 1 has handler 8.
abbrev waiting : Events (assoc HandlerTable)
waiting = record {
  handlers = (0, record { handler = 7; data0 = 70 }) ∷ (1, record { handler = 8; data0 = 80 }) ∷ [];
  id_max = 2;
  head = record { eid = 0; data1 = 5 } ∷ [];
  tail_null = false;
}

-- The first handler posts event 1.
abbrev script : List (List EventCall)
script = (post 1 6 ∷ []) ∷ []

abbrev served : List Dispatch
served =
    record { handler = 7; eid = 0; data0 = 70; data1 = 5 }
    ∷ record { handler = 8; eid = 1; data0 = 80; data1 = 6 }
    ∷ []

in_order :
    view (assoc HandlerTable) (event_work (assoc HandlerTable) 4 script waiting)
    ≡ some (served, waiting.handlers)
unfolding serve
in_order = event_work-serve (assoc HandlerTable) 4 script waiting refl
