-- ===== src/Run.antt =====
-- Code that may wait: every function of the proxy that can reach async_yield. A run ends with a
-- value, or it still waits because the environment has given no further answer; `out_of_fuel` marks
-- a loop that was given too few rounds.

use http_proxy.Prelude.{◌≡◌, refl, Bool, true, false, if◌then◌else◌}

pub data Run (S A : Type 0) : Type 0 where
  done : A → S → Run S A
  waits : S → Run S A
  out_of_fuel : Run S A

abbrev pub Io : Type 0 → Type 0 → Type 0
Io S A = S → Run S A

abbrev pub pure : {S A : Type 0} → A → Io S A
pure a s = done a s

module _ {S A B : Type 0} where
  abbrev pub and_then : Run S A → (A → Io S B) → Run S B
  and_then (done a s) k = k a s
  and_then (waits s) k = waits s
  and_then out_of_fuel k = out_of_fuel

  infixl 5 ◌>>=◌
  abbrev pub ◌>>=◌ : Io S A → (A → Io S B) → Io S B
  m >>= k = λ s. and_then (m s) k

  infixl 5 ◌>>◌
  abbrev pub ◌>>◌ : Io S A → Io S B → Io S B
  m >> n = m >>= λ _. n

-- The run ends, and what it ends with has P: total correctness.
pub data Returns {S A : Type 0} (P : A → S → Type 0) : Run S A → Type 0 where
  returns : {a : A} {s : S} → P a s → Returns P (done a s)

-- If the run ends, what it ends with has P; where it still waits, the state has Q; it is never cut
-- off for lack of fuel.
pub data Keeps {S A : Type 0} (P : A → S → Type 0) (Q : S → Type 0) : Run S A → Type 0 where
  ends : {a : A} {s : S} → P a s → Keeps P Q (done a s)
  stays : {s : S} → Q s → Keeps P Q (waits s)

module _ {S A B : Type 0} {P : A → S → Type 0} {R : B → S → Type 0} where
  pub Returns-bind :
      {r : Run S A} {k : A → Io S B}
      → Returns P r
      → ((a : A) (s : S) → P a s → Returns R (k a s))
      → Returns R (and_then r k)
  Returns-bind (returns p) next = next _ _ p

  pub Keeps-bind :
      {Q : S → Type 0} {r : Run S A} {k : A → Io S B}
      → Keeps P Q r
      → ((a : A) (s : S) → P a s → Keeps R Q (k a s))
      → Keeps R Q (and_then r k)
  Keeps-bind (ends p) next = next _ _ p
  Keeps-bind (stays q) next = stays q

module _ {S A : Type 0} {P R : A → S → Type 0} where
  pub Returns-mono : {r : Run S A} → Returns P r → ((a : A) (s : S) → P a s → R a s) → Returns R r
  Returns-mono (returns p) weaken = returns (weaken _ _ p)

  pub Keeps-mono :
      {Q T : S → Type 0} {r : Run S A}
      → Keeps P Q r
      → ((a : A) (s : S) → P a s → R a s)
      → ((s : S) → Q s → T s)
      → Keeps R T r
  Keeps-mono (ends p) f g = ends (f _ _ p)
  Keeps-mono (stays q) f g = stays (g _ q)

module _ {S A : Type 0} {P : A → S → Type 0} where
  pub Returns-if :
      (b : Bool) {m n : Run S A}
      → (b ≡ true → Returns P m)
      → (b ≡ false → Returns P n)
      → Returns P (if b then m else n)
  Returns-if true f g = f refl
  Returns-if false f g = g refl

  pub Keeps-if :
      {Q : S → Type 0} (b : Bool) {m n : Run S A}
      → (b ≡ true → Keeps P Q m)
      → (b ≡ false → Keeps P Q n)
      → Keeps P Q (if b then m else n)
  Keeps-if true f g = f refl
  Keeps-if false f g = g refl

module _ {S A : Type 0} {P R : A → S → Type 0} {Q : S → Type 0} where
  -- What holds of every end and that the run ends.
  pub Returns-and : {r : Run S A} → Returns R r → Keeps P Q r → Returns (λ a s. R a s × P a s) r
  Returns-and (returns p) (ends q) = returns (p, q)

module _ {S A : Type 0} {P : A → S → Type 0} {Q : S → Type 0} where
  -- An end is the one of this run.
  pub Keeps-run : {r : Run S A} → Keeps P Q r → Keeps (λ a s. (r ≡ done a s) × P a s) Q r
  Keeps-run (ends p) = ends (refl, p)
  Keeps-run (stays q) = stays q

module _ {S A : Type 0} {P R : A → S → Type 0} {Q T : S → Type 0} where
  pub Keeps-both :
      {r : Run S A} → Keeps P Q r → Keeps R T r → Keeps (λ a s. P a s × R a s) (λ s. Q s × T s) r
  Keeps-both (ends p) (ends q) = ends (p, q)
  Keeps-both (stays p) (stays q) = stays (p, q)
