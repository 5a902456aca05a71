-- ===== src/Async/Resume.antt =====
-- core/async.c: a coroutine under a sequence of resumes.
use http_proxy.Prelude.{ℕ, ◌≡◌, refl, Option, none, some, List, [], ◌∷◌, ℤ}
use http_proxy.Async.{
  async_pause, async_finish, AsyncYieldType, Code, yields, returns, Coroutine, async_yield, switch,
  async_resume, async_resumes,
}

-- Where a code stands after these values, one at each yield: what it yields then and how it goes on,
-- none once it has returned. Values that come later are not used.
unfoldable pub after : Code → List ℤ → Option (AsyncYieldType × (ℕ × (ℤ → Code)))
after returns rs = none
after (yields t d next) [] = some (t, (d, next))
after (yields t d next) (r ∷ rs) = after (next r) rs

-- The coroutine is where the code stands: paused with what was yielded, or finished.
abbrev pub StandsAt : Option (AsyncYieldType × (ℕ × (ℤ → Code))) → Coroutine → Type 0
StandsAt none c = c.cxt.stat ≡ async_finish
StandsAt (some (t, (d, next))) c =
    (c.cxt.stat ≡ async_pause)
    × (c.cxt.yield_type ≡ some t)
    × (c.cxt.yield_data ≡ some d)
    × (c.rest ≡ next)

finished :
    (c : Coroutine) (rs : List ℤ)
    → c.cxt.stat ≡ async_finish
    → (async_resumes c rs).cxt.stat ≡ async_finish
unfolding async_resumes async_resume
finished c [] h = h
finished c (r ∷ rs) h =
    let e : async_resume c r ≡ c = simp (h, async_resume) in rw (e, async_resumes) (finished c rs h)

switched :
    (code : Code) (rs : List ℤ) (c : Coroutine)
    → StandsAt (after code rs) (async_resumes (switch code c) rs)
unfolding after async_resumes async_resume switch async_yield
switched returns rs c = finished (switch returns c) rs refl
switched (yields t d next) [] c = (refl, refl, refl, refl)
switched (yields t d next) (r ∷ rs) c = switched (next r) rs _

-- A paused coroutine that is resumed with one value after the other is always where its code stands
-- after these values: each value goes to one yield, in order, what it has yielded last is in the
-- context, and once it has returned, further resumes do nothing.
pub async_resumes-StandsAt :
    (c : Coroutine) (r : ℤ) (rs : List ℤ)
    → c.cxt.stat ≡ async_pause
    → StandsAt (after (c.rest r) rs) (async_resumes c (r ∷ rs))
unfolding async_resumes async_resume
async_resumes-StandsAt c r rs h = rw (h, async_resumes, async_resume) (switched (c.rest r) rs _)
