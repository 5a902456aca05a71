-- ===== src/Listen/Closed.antt =====
-- core/conn.c: every socket that conn_module_init opens is closed, and once.
use http_proxy.Prelude.{
  ℕ, zero, suc, ◌+◌, ◌-◌, ◌≤◌, ◌<◌, ◌≡◌, refl, sym, ap, subst, ◌∙◌, ◌↔◌, inl, inr, Bool, true, not,
  Option, none, some, List, [], ◌∷◌, ◌++◌, map, arith, ltb, ◌==◌, Bool-cases, Option-cases, length,
  set, length-append, times, times-append,
}
use mathlib.Core.List.{append_assoc, append-nil}
use http_proxy.Listen.{
  server_max_fd, Address, ListenCall, pull_add, pull_set, close_fd, Listening, unused, listen_init,
  is_bound, listen_on, listen_loop, conn_module_init, done_loop,
}

-- The descriptors that the calls close.
unfoldable pub closed : List ListenCall → List ℕ
closed [] = []
closed (close_fd fd ∷ calls) = fd ∷ closed calls
closed (pull_add fd ∷ calls) = closed calls
closed (pull_set fd slot ∷ calls) = closed calls

-- The sockets that were opened for the addresses.
unfoldable pub sockets : List Address → List ℕ
sockets [] = []
sockets (a ∷ addrs) = elim a.socket [ none ↦ sockets addrs | some fd ↦ fd ∷ sockets addrs ]

closed-append : (xs ys : List ListenCall) → closed (xs ++ ys) ≡ closed xs ++ closed ys
unfolding closed
closed-append [] ys = refl
closed-append (close_fd fd ∷ xs) ys = ap (λ (l : List ℕ). fd ∷ l) (closed-append xs ys)
closed-append (pull_add fd ∷ xs) ys = closed-append xs ys
closed-append (pull_set fd slot ∷ xs) ys = closed-append xs ys

-- sfds holds `fds` in front and has a free cell behind them, and each of the sockets `seen` so far has
-- been closed or is in `fds`.
record Kept (seen : List ℕ) (l : Listening) : Type 0 where
  fds : List ℕ
  left : ℕ
  cells : l.sfds ≡ map some fds ++ unused (suc left)
  count : l.sfd_cnt ≡ length fds
  size : length fds + suc left ≡ server_max_fd
  few : length fds ≤ length seen
  accounts : (fd : ℕ) → times fd (closed l.calls) + times fd fds ≡ times fd seen

set_next :
    (fds : List ℕ) (fd n : ℕ)
    → set (map some fds ++ unused (suc n)) (length fds) (some fd)
      ≡ map some (fds ++ fd ∷ []) ++ unused n
set_next [] fd n = refl
set_next (x ∷ fds) fd n = ap (λ (l : List (Option ℕ)). some x ∷ l) (set_next fds fd n)

length-cells : (fds : List ℕ) (n : ℕ) → length (map some fds ++ unused n) ≡ length fds + n
length-cells [] zero = refl
length-cells [] (suc n) = omega (arith, length-cells [] n)
length-cells (x ∷ fds) n = omega (arith, length-cells fds n)

done_held : (fds : List ℕ) (n : ℕ) → done_loop (map some fds ++ unused (suc n)) ≡ some fds
unfolding done_loop
done_held [] n = refl
done_held (x ∷ fds) n = rw (done_held fds n) refl

one_more : (fd x : ℕ) (xs : List ℕ) → times fd (xs ++ x ∷ []) ≡ times fd xs + times fd (x ∷ [])
one_more fd x xs = times-append fd xs (x ∷ [])

-- A socket that listens.
put_Kept :
    (l : Listening) (seen : List ℕ) (fd : ℕ) (k : Kept seen l) (n : ℕ)
    → k.left ≡ suc n
    → Kept (seen ++ fd ∷ []) (record {
      sfds = set l.sfds l.sfd_cnt (some fd);
      sfd_cnt = l.sfd_cnt + 1;
      calls = l.calls ++ pull_add fd ∷ pull_set fd l.sfd_cnt ∷ [];
    })
unfolding closed
put_Kept l seen fd k n e =
    let xs = k.fds in
    let cells = k.cells ∙ ap (λ (i : ℕ). map some xs ++ unused (suc i)) e in
    let grown = length-append xs (fd ∷ []) in
    record {
      fds = xs ++ fd ∷ [];
      left = n;
      cells =
          ap (λ (c : List (Option ℕ)). set c l.sfd_cnt (some fd)) cells
          ∙ ap (λ (i : ℕ). set (map some xs ++ unused (suc (suc n))) i (some fd)) k.count
          ∙ set_next xs fd (suc n);
      count = omega (arith, k.count, grown);
      size = omega (arith, k.size, e, grown);
      few = omega (arith, k.few, grown, length-append seen (fd ∷ []));
      accounts = λ x.
          let c = closed-append l.calls (pull_add fd ∷ pull_set fd l.sfd_cnt ∷ []) in
          omega (
            arith,
            ap (times x) (c ∙ append-nil (closed l.calls)),
            one_more x fd xs,
            one_more x fd seen,
            k.accounts x,
          );
    }

-- A socket that is closed at once.
close_Kept :
    (l : Listening) (seen : List ℕ) (fd : ℕ)
    → Kept seen l
    → Kept (seen ++ fd ∷ []) (record l { calls = l.calls ++ close_fd fd ∷ [] })
unfolding closed
close_Kept l seen fd k = record {
  fds = k.fds;
  left = k.left;
  cells = k.cells;
  count = k.count;
  size = k.size;
  few = omega (arith, k.few, length-append seen (fd ∷ []));
  accounts = λ x. omega (
    arith,
    ap (times x) (closed-append l.calls (close_fd fd ∷ [])),
    one_more x fd (closed l.calls),
    one_more x fd seen,
    k.accounts x,
  );
}

listen_on-Kept :
    (a : Address) (l : Listening) (seen : List ℕ) (fd : ℕ)
    → a.socket ≡ some fd
    → length seen + 1 < server_max_fd
    → Kept seen l
    → (l' : Listening) × (listen_on a l ≡ some l') × Kept (seen ++ fd ∷ []) l'
unfolding listen_on
listen_on-Kept a l seen fd e room k = elim (Bool-cases (is_bound a)) [
  | inr failed ↦ (_, rw (e, listen_on) (rw failed refl), close_Kept l seen fd k)
  | inl bound ↦
      let fits : ltb l.sfd_cnt (length l.sfds) ≡ true =
        ground (arith, ap length k.cells, length-cells k.fds (suc k.left), k.count) in
      (
        _,
        rw (e, listen_on) (rw bound (rw fits refl)),
        put_Kept l seen fd k (k.left - 1) (omega (arith, k.size, k.few)),
      )
]

loop_step :
    (a : Address) (addrs : List Address) (l m : Listening)
    → listen_on a l ≡ some m
    → listen_loop (a ∷ addrs) l ≡ listen_loop addrs m
unfolding listen_loop
loop_step a addrs l m e =
    ap (λ (o : Option Listening). elim o [ none ↦ none | some l' ↦ listen_loop addrs l' ]) e

sockets_step :
    (a : Address) (addrs : List Address) (fd : ℕ)
    → a.socket ≡ some fd
    → sockets (a ∷ addrs) ≡ fd ∷ sockets addrs
unfolding sockets
sockets_step a addrs fd e =
    ap (λ (o : Option ℕ). elim o [ none ↦ sockets addrs | some x ↦ x ∷ sockets addrs ]) e

listen_loop-Kept :
    (addrs : List Address) (l : Listening) (seen : List ℕ)
    → length seen + length addrs < server_max_fd
    → Kept seen l
    → (l' : Listening) × (listen_loop addrs l ≡ some l') × Kept (seen ++ sockets addrs) l'
unfolding listen_loop sockets listen_on
listen_loop-Kept [] l seen room k =
    (l, refl, subst (λ (s : List ℕ). Kept s l) (sym (append-nil seen)) k)
listen_loop-Kept (a ∷ addrs) l seen room k = elim (Option-cases a.socket) [
  | inl e ↦ rw (e, listen_loop) (listen_loop-Kept addrs l seen (omega arith) k)
  | inr (fd, e) ↦
      let (m, f, g) = listen_on-Kept a l seen fd e (omega arith) k in
      let (l', h, i) =
        listen_loop-Kept addrs m (seen ++ fd ∷ []) (omega (arith, length-append seen (fd ∷ [])))
          g in
      (
        l',
        loop_step a addrs l m f ∙ h,
        subst (λ (s : List ℕ). Kept s l')
            (append_assoc seen (fd ∷ []) (sockets addrs)
              ∙ ap (λ (s : List ℕ). seen ++ s) (sym (sockets_step a addrs fd e)))
            i,
      )
]

-- Nothing has been opened.
init-Kept : Kept [] listen_init
unfolding closed times
init-Kept = record {
  fds = [];
  left = 31;
  cells = refl;
  count = refl;
  size = refl;
  few = omega arith;
  accounts = λ fd. refl;
}

-- With fewer addresses than sfds has cells, conn_module_init stays inside sfds, and so does the first
-- loop of conn_module_done behind it; together they close every socket that conn_module_init has opened,
-- and each as often as it has been opened. conn_module_init returns 0 exactly where a socket is left
-- for conn_module_done to close.
pub conn_module_init-closed :
    (addrs : List Address)
    → length addrs < server_max_fd
    → (ok : Bool) × (l : Listening) × (fds : List ℕ) × (conn_module_init addrs ≡ some (ok, l))
      × (done_loop l.sfds ≡ some fds)
      × ((ok ≡ true) ↔ (0 < length fds))
      × ((fd : ℕ) → times fd (closed l.calls) + times fd fds ≡ times fd (sockets addrs))
unfolding conn_module_init
conn_module_init-closed addrs h =
    let (l, e, k) = listen_loop-Kept addrs listen_init [] (omega arith) init-Kept in
    (
      not (l.sfd_cnt == 0),
      l,
      k.fds,
      rw (e, conn_module_init) refl,
      ap done_loop k.cells ∙ done_held k.fds k.left,
      ground (arith, k.count),
      k.accounts,
    )
