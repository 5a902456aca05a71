-- ===== src/Async.antt =====
-- core/async.c and core/async.h: coroutines. What a coroutine does between two yields is its code, a
-- tree: it yields and goes on with what async_yield returns, or it returns. swapcontext switches to
-- the code and back; the stack is not modelled.
pub mod Resume
mod Tests
use http_proxy.Prelude.{ℕ, Option, none, some, List, [], ◌∷◌, ℤ, negsuc}

pub data AsyncStat : Type 0 where
  async_init_stat async_running async_pause async_finish : AsyncStat

pub data AsyncYieldType : Type 0 where
  yield_none conn_io_will_block conn_wait_for_event : AsyncYieldType

-- struct async_cxt; `none` as a type is the -1 of async_init, as data NULL.
pub record AsyncCxt : Type 0 where
  pub stat : AsyncStat
  pub yield_type : Option AsyncYieldType
  pub yield_data : Option ℕ

pub data Code : Type 0 where
  yields : AsyncYieldType → ℕ → (ℤ → Code) → Code
  returns : Code

-- A context with the code that its stack will go on with, given a value.
pub record Coroutine : Type 0 where
  pub cxt : AsyncCxt
  pub rest : ℤ → Code

unfoldable pub async_init : AsyncCxt
async_init = record { stat = async_init_stat; yield_type = none; yield_data = none }

-- async_yield, up to the switch back.
unfoldable pub async_yield : AsyncYieldType → ℕ → AsyncCxt → AsyncCxt
async_yield data_type d cxt = record {
  stat = async_pause;
  yield_type = some data_type;
  yield_data = some d;
}

-- From the switch to the code on, back in async_resume.
unfoldable pub switch : Code → Coroutine → Coroutine
unfolding async_yield
switch (yields t d next) c = record { cxt = async_yield t d c.cxt; rest = next }
switch returns c = record c { cxt = record c.cxt { stat = async_finish } }

unfoldable pub async_resume : Coroutine → ℤ → Coroutine
unfolding switch
async_resume c retval = elim c.cxt.stat [
  | async_init_stat ↦ c
  | async_running ↦ c
  | async_finish ↦ c
  | async_pause ↦ switch (c.rest retval) (record c {
    cxt = record { stat = async_running; yield_type = some yield_none; yield_data = none };
  })
]

-- The resumes of the proxy, in order.
unfoldable pub async_resumes : Coroutine → List ℤ → Coroutine
unfolding async_resume
async_resumes c [] = c
async_resumes c (r ∷ rs) = async_resumes (async_resume c r) rs
