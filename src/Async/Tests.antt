-- ===== src/Async/Tests.antt =====
-- Examples for core/async.c.
use http_proxy.Prelude.{refl, none, [], ◌∷◌, ℤ, pos, negsuc}
use http_proxy.Async.{
  async_pause, conn_io_will_block, conn_wait_for_event, Code, yields, returns, Coroutine,
  async_resumes,
}
use http_proxy.Async.Resume.{after, StandsAt, async_resumes-StandsAt}

-- It waits on a descriptor, then for an event, and returns.
abbrev code : ℤ → Code
code r = yields conn_io_will_block 5 (λ x. yields conn_wait_for_event 1 (λ y. returns))

abbrev paused : Coroutine
paused = record {
  cxt = record { stat = async_pause; yield_type = none; yield_data = none };
  rest = code;
}

waits_for_event :
    StandsAt
      (after (paused.rest (pos 0)) (negsuc 0 ∷ []))
      (async_resumes paused (pos 0 ∷ negsuc 0 ∷ []))
waits_for_event = async_resumes-StandsAt paused (pos 0) (negsuc 0 ∷ []) refl
