-- ===== src/NetPull/Table.antt =====
-- core/net_pull.c: what the calls do to the table, and that fd_cnt counts its entries.
use http_proxy.Prelude.{
  ℕ, suc, ◌≡◌, refl, sym, ap, ◌∙◌, inl, inr, Bool, true, false, Option, none, some, List, [], ◌∷◌,
  arith, pos, pred_ℤ, ◌==◌, Bool-cases, Option-cases, if◌then◌else◌, length,
}
use http_proxy.Prelude.Uthash.{Uthash}
use http_proxy.NetPull.{
  NetHandler, PullCall, add, set_handler, del, Pull, net_pull_add, net_pull_set_handler,
  net_pull_del, do_call,
}

abbrev pub has : ℕ → List ℕ → Bool
has x [] = false
has x (y ∷ ys) = if y == x then true else has x ys

abbrev pub remove : ℕ → List ℕ → List ℕ
remove x [] = []
remove x (y ∷ ys) = if y == x then ys else y ∷ remove x ys

abbrev pub IsDistinct : List ℕ → Type 0
IsDistinct [] = Unit {0}
IsDistinct (y ∷ ys) = (has y ys ≡ false) × IsDistinct ys

abbrev pub is_some : {A : Type 0} → Option A → Bool
is_some none = false
is_some (some _) = true

has-remove :
    (x j : ℕ) (ys : List ℕ)
    → IsDistinct ys
    → has j (remove x ys) ≡ (if x == j then false else has j ys)
has-remove x j [] d = ground arith
has-remove x j (y ∷ ys) d = ground (arith, has-remove x j ys d.1, d.0)

IsDistinct-remove : (x : ℕ) (ys : List ℕ) → IsDistinct ys → IsDistinct (remove x ys)
IsDistinct-remove x [] d = tt
IsDistinct-remove x (y ∷ ys) d = ground (arith, IsDistinct-remove x ys d.1, has-remove x y ys d.1)

length-remove : (x : ℕ) (ys : List ℕ) → has x ys ≡ true → suc (length (remove x ys)) ≡ length ys
length-remove x [] h = cc
length-remove x (y ∷ ys) h = ground (arith, length-remove x ys)

module _ (T : Uthash ◌==◌ NetHandler) where
  -- The descriptors of the table are `fds`, each once, and fd_cnt is their number.
  pub record Counts (fds : List ℕ) (s : Pull T) : Type 0 where
    pub distinct : IsDistinct fds
    pub entries : (j : ℕ) → is_some (T.find s.handlers j) ≡ has j fds
    pub count : s.fd_cnt ≡ pos (length fds)

  -- The descriptors after a call.
  abbrev pub fds_after : PullCall → List ℕ → List ℕ
  fds_after (add fd h ctl) fds = if ctl then fd ∷ fds else fds
  fds_after (set_handler fd inp out h) fds = fds
  fds_after (del fd ctl) fds = if has fd fds then (if ctl then remove fd fds else fds) else fds

  -- epoll_ctl refuses to add a descriptor twice.
  abbrev pub AddsNew : PullCall → List ℕ → Type 0
  AddsNew (add fd h ctl) fds = ctl ≡ true → has fd fds ≡ false
  AddsNew (set_handler _ _ _ _) fds = Unit {0}
  AddsNew (del _ _) fds = Unit {0}

  add-Counts :
      (fd : ℕ) (h : Option ℕ) (ctl : Bool) (fds : List ℕ) (s : Pull T)
      → (ctl ≡ true → has fd fds ≡ false)
      → Counts fds s
      → Counts (fds_after (add fd h ctl) fds) (net_pull_add T fd h ctl s).1
  unfolding net_pull_add
  add-Counts fd h false fds s new c = c
  add-Counts fd h true fds s new c = elim (Option-cases (T.find s.handlers fd)) [
    | inl n ↦
        rw (n, net_pull_add)
          (record {
            distinct = (new refl, c.distinct);
            entries = λ j. rw (T.find-add s.handlers fd j _ n) (ground (arith, c.entries j));
            count = rw (c.count);
          })
    | inr (x, f) ↦ absurd (cc (c.entries fd, new refl))
  ]

  set_handler-Counts :
      (fd : ℕ) (inp out : Bool) (h : Option ℕ) (fds : List ℕ) (s : Pull T)
      → Counts fds s
      → Counts fds (net_pull_set_handler T fd inp out h s).1
  unfolding net_pull_set_handler
  set_handler-Counts fd inp out h fds s c = elim (Option-cases (T.find s.handlers fd)) [
    | inl n ↦ rw (n, net_pull_set_handler) c
    | inr (x, f) ↦
        rw (f, net_pull_set_handler)
          (record {
            distinct = c.distinct;
            entries = λ j. rw (T.find-update s.handlers fd j x _ f) (elim (Bool-cases (fd == j)) [
              | inl same ↦ let e : fd ≡ j = ground arith in rw same (cc (c.entries j, e, f))
              | inr other ↦ rw other (c.entries j)
            ]);
            count = c.count;
          })
  ]

  del-Counts :
      (fd : ℕ) (ctl : Bool) (fds : List ℕ) (s : Pull T)
      → Counts fds s
      → Counts (fds_after (del fd ctl) fds) (net_pull_del T fd ctl s).1
  unfolding net_pull_del
  del-Counts fd ctl fds s c = elim (Option-cases (T.find s.handlers fd)) [
    | inl n ↦ let gone : has fd fds ≡ false = cc (c.entries fd, n) in rw (n, net_pull_del, gone) c
    | inr (x, f) ↦
        let there : has fd fds ≡ true = cc (c.entries fd, f) in
        rw (f, net_pull_del, there) (deleted ctl x f there)
  ]
    where
      deleted :
          (ctl : Bool) (x : NetHandler)
          → T.find s.handlers fd ≡ some x
          → has fd fds ≡ true
          → Counts
              (if ctl then remove fd fds else fds)
              (if◌then◌else◌ {A = Bool × Pull T} ctl
                (true, record s { handlers = T.del s.handlers fd; fd_cnt = pred_ℤ s.fd_cnt })
                (false, s)).1
      deleted false x f there = c
      deleted true x f there = record {
        distinct = IsDistinct-remove fd fds c.distinct;
        entries = λ j.
            rw (T.find-del s.handlers fd j, has-remove fd j fds c.distinct)
              (ground (arith, c.entries j));
        count = ap pred_ℤ (c.count ∙ ap pos (sym (length-remove fd fds there)));
      }

  -- Every call of this module, by a handler or by other code, keeps fd_cnt the number of entries.
  pub do_call-Counts :
      (call : PullCall) (fds : List ℕ) (s : Pull T)
      → AddsNew call fds
      → Counts fds s
      → Counts (fds_after call fds) (do_call T call s)
  unfolding do_call
  do_call-Counts (add fd h ctl) fds s new c = add-Counts fd h ctl fds s new c
  do_call-Counts (set_handler fd inp out h) fds s new c = set_handler-Counts fd inp out h fds s c
  do_call-Counts (del fd ctl) fds s new c = del-Counts fd ctl fds s c
