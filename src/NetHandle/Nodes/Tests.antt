-- ===== src/NetHandle/Nodes/Tests.antt =====
-- Examples for the list of requests.
use http_proxy.Prelude.{ℕ, refl, none, [], ◌∷◌, List}
use http_proxy.NetHandle.Pipeline.{NetHandleList}
use http_proxy.NetHandle.Nodes.{Cells, NodeCall, put, take, run_calls}
use http_proxy.NetHandle.Nodes.Order.{Ordered, run_calls-Ordered}

abbrev request : ℕ → NetHandleList
request r = record { server = 1; req = r }

abbrev no_cells : Cells
no_cells = record { head = none; tail = none; next = λ p. none; item = request }

-- The first node is freed, and its memory is used again for the third.
abbrev calls : List NodeCall
calls = put 5 (request 7) ∷ put 6 (request 8) ∷ take ∷ put 5 (request 9) ∷ take ∷ take ∷ take ∷ []

in_turn : Ordered (request 7 ∷ request 8 ∷ request 9 ∷ []) (run_calls calls no_cells)
in_turn = run_calls-Ordered calls no_cells [] (refl, refl) (tt, ((refl, tt), ((refl, tt), tt)))
