-- ===== src/NetHandle/Registry.antt =====
-- core/net_handle.c: the methods and their handlers.
use http_proxy.Prelude.{
  ℕ, ◌≡◌, refl, ap, ◌↔◌, Bool, true, false, Option, none, some, List, [], ◌∷◌, inl, inr, arith,
  ◌==◌, Bool-cases, if◌then◌else◌,
}
use http_proxy.NetHandle.{NetHandlers, net_handle_register, method_strcmp, net_get_handler}

-- The text in front of the first space: the method of a start line.
unfoldable pub word : List ℕ → List ℕ
word [] = []
word (c ∷ s) = if c == b' ' then [] else c ∷ word s

-- No space stands in a registered method.
abbrev pub NoSpace : List ℕ → Type 0
NoSpace [] = Unit {0}
NoSpace (c ∷ s) = ((c == b' ') ≡ false) × NoSpace s

-- method_strcmp returns 0 exactly where the second text is the first method up to its first space,
-- for a first text without spaces.
pub method_strcmp_iff :
    (m0 m1 : List ℕ) → NoSpace m0 → (method_strcmp m0 m1 ≡ true) ↔ (m0 ≡ word m1)
unfolding method_strcmp word
method_strcmp_iff [] [] h = (λ _. refl, λ _. refl)
method_strcmp_iff [] (b ∷ m1) h = ground arith
method_strcmp_iff (a ∷ m0) [] h = (λ e. cc, λ e. cc)
method_strcmp_iff (a ∷ m0) (b ∷ m1) h = ground (arith, method_strcmp_iff m0 m1 h.1, h.0)

-- Some slot is free.
unfoldable pub has_room : List (Option NetHandlers) → Bool
has_room [] = false
has_room (none ∷ slots) = true
has_room (some h ∷ slots) = has_room slots

-- No slot is in use; no slot in use stands behind a free one.
unfoldable pub is_unused : List (Option NetHandlers) → Bool
is_unused [] = true
is_unused (none ∷ slots) = is_unused slots
is_unused (some h ∷ slots) = false

unfoldable pub is_packed : List (Option NetHandlers) → Bool
unfolding is_unused
is_packed [] = true
is_packed (none ∷ slots) = is_unused slots
is_packed (some h ∷ slots) = is_packed slots

unused_packed :
    (slots : List (Option NetHandlers)) → is_unused slots ≡ true → is_packed slots ≡ true
unfolding is_unused is_packed
unused_packed [] e = refl
unused_packed (none ∷ slots) e = e
unused_packed (some h ∷ slots) e = absurd (cc)

get-unused :
    (slots : List (Option NetHandlers)) (method : List ℕ)
    → is_unused slots ≡ true
    → net_get_handler method slots ≡ none
unfolding net_get_handler is_unused
get-unused [] method e = refl
get-unused (none ∷ slots) method e = refl
get-unused (some h ∷ slots) method e = absurd (cc)

-- What is found first, and another choice where nothing is.
abbrev pub or_else : Option NetHandlers → Option NetHandlers → Option NetHandlers
or_else none g = g
or_else (some h) g = some h

-- While a slot is free and the used ones stand in front, a registered handler is found for the methods that it matches and that no
-- earlier one matches; what the earlier ones match is found as before.
pub get-register :
    (h : NetHandlers) (slots : List (Option NetHandlers)) (method : List ℕ)
    → has_room slots ≡ true
    → is_packed slots ≡ true
    → net_get_handler method (net_handle_register h slots)
      ≡ or_else
          (net_get_handler method slots)
          (if method_strcmp h.method method then some h else none)
unfolding net_handle_register net_get_handler has_room is_packed
get-register h [] method room packed = absurd (cc)
get-register h (none ∷ slots) method room packed = ground (arith, get-unused slots method packed)
get-register h (some g ∷ slots) method room packed =
    elim (Bool-cases (method_strcmp g.method method)) [
      | inl found ↦ rw (found) refl
      | inr next ↦ rw next (get-register h slots method room packed)
    ]

-- Registering keeps the used slots in front.
pub is_packed-register :
    (h : NetHandlers) (slots : List (Option NetHandlers))
    → is_packed slots ≡ true
    → is_packed (net_handle_register h slots) ≡ true
unfolding net_handle_register is_packed
is_packed-register h [] packed = refl
is_packed-register h (none ∷ slots) packed = unused_packed slots packed
is_packed-register h (some g ∷ slots) packed = is_packed-register h slots packed

-- On a full table net_handle_register changes nothing.
pub register-full :
    (h : NetHandlers) (slots : List (Option NetHandlers))
    → has_room slots ≡ false
    → net_handle_register h slots ≡ slots
unfolding net_handle_register has_room
register-full h [] full = refl
register-full h (none ∷ slots) full = absurd (cc)
register-full h (some g ∷ slots) full =
    ap (λ (t : List (Option NetHandlers)). some g ∷ t) (register-full h slots full)
