-- ===== src/ConnIo/Writing.antt =====
-- core/conn_io.c, conn_write: what it sends.
use http_proxy.Prelude.{
  ℕ, zero, suc, ◌+◌, ◌≤◌, ◌≡◌, refl, sym, ap, ◌∙◌, Bool, true, false, not, none, some, List, [],
  ◌∷◌, ◌++◌, arith, ℤ, add_ℤ, suc_ℤ, ◌==◌, Bool-cases, inl, inr, length, length-append, take, drop,
  length-take, length-drop, take-append-drop,
}
use mathlib.Core.List.{append_assoc, append-nil}
use http_proxy.Run.{Keeps, ends, Keeps-if, Keeps-mono, Keeps-bind}
use http_proxy.Conn.{Conn, World, is_closed, conn_close}
use http_proxy.ConnIo.Buffer.{close-is_closed}
use http_proxy.ConnIo.{State, conn_send, write_loop, conn_write}
use http_proxy.ConnIo.Sending.{SameReads, Sends, same_refl, try_send_lem}

-- Of the bytes `bs` a first part has been sent, in order, and counted in tx; the rest has not.
pub record Wrote (bs : List ℕ) (c d : Conn) : Type 0 where
  pub part : List ℕ
  pub rest : List ℕ
  pub same : SameReads c d
  pub split : bs ≡ part ++ rest
  pub out : d.sent ≡ c.sent ++ part
  pub tx : d.tx ≡ add_ℤ c.tx (length part)

-- conn_write has ended: with 0 everything is sent, with -1 the connection is closed.
pub record WroteAll (bs : List ℕ) (c : Conn) (ok : Bool) (s : State) : Type 0 where
  pub wrote : Wrote bs c s.0
  pub whole : ok ≡ true → wrote.rest ≡ []
  pub shut : ok ≡ false → is_closed s.0.stat ≡ true

add_ℤ-add : (x : ℤ) (m n : ℕ) → add_ℤ x (m + n) ≡ add_ℤ (add_ℤ x n) m
add_ℤ-add x zero n = let e : 0 + n ≡ n = omega arith in ap (add_ℤ x) e
add_ℤ-add x (suc m) n =
    let e : suc m + n ≡ suc (m + n) = omega arith in ap (add_ℤ x) e ∙ ap suc_ℤ (add_ℤ-add x m n)

pub close-same : (c : Conn) (w : World) → SameReads c (conn_close c w).0
unfolding conn_close
close-same c w = elim (Bool-cases (is_closed c.stat)) [
  | inl shut ↦ rw (shut, conn_close) (same_refl c c.sends c.sent)
  | inr live ↦
      rw (live, conn_close)
        (record {
          fd = refl;
          buf = refl;
          buf_cap = refl;
          buf_s = refl;
          buf_e = refl;
          recvs = refl;
          shut = λ h. refl;
        })
]

pub close-sent :
    (c : Conn) (w : World) → ((conn_close c w).0.sent ≡ c.sent) × ((conn_close c w).0.tx ≡ c.tx)
unfolding conn_close
close-sent c w = ground arith

pub trans_same : (c d e : Conn) → SameReads c d → SameReads d e → SameReads c e
trans_same c d e g h = record {
  fd = h.fd ∙ g.fd;
  buf = h.buf ∙ g.buf;
  buf_cap = h.buf_cap ∙ g.buf_cap;
  buf_s = h.buf_s ∙ g.buf_s;
  buf_e = h.buf_e ∙ g.buf_e;
  recvs = h.recvs ∙ g.recvs;
  shut = λ s. h.shut (g.shut s);
}

-- Nothing of `bs` has been sent yet.
wrote_none :
    (bs : List ℕ) (c d : Conn) → SameReads c d → d.sent ≡ c.sent → d.tx ≡ c.tx → Wrote bs c d
wrote_none bs c d same out tx = record {
  part = [];
  rest = bs;
  same = same;
  split = refl;
  out = out ∙ sym (append-nil c.sent);
  tx = tx;
}

-- `n` bytes have been sent, and then what `v` says of the others.
wrote_more :
    (bs : List ℕ) (n : ℕ) (c d e : Conn)
    → SameReads c d
    → d.sent ≡ c.sent ++ take n bs
    → d.tx ≡ add_ℤ c.tx n
    → n ≤ length bs
    → Wrote (drop n bs) d e
    → Wrote bs c e
wrote_more bs n c d e same out tx most v =
    let k : length v.part + n ≡ length (take n bs ++ v.part) =
      omega (arith, length-append (take n bs) v.part, length-take n bs) in
    record {
      part = take n bs ++ v.part;
      rest = v.rest;
      same = trans_same c d e same v.same;
      split =
          sym (take-append-drop n bs)
          ∙ ap (◌++◌ (take n bs)) v.split
          ∙ sym (append_assoc (take n bs) v.part v.rest);
      out = v.out ∙ ap (λ (x : List ℕ). x ++ v.part) out ∙ append_assoc c.sent (take n bs) v.part;
      tx =
          v.tx
          ∙ ap (λ (x : ℤ). add_ℤ x (length v.part)) tx
          ∙ sym (add_ℤ-add c.tx (length v.part) n)
          ∙ ap (add_ℤ c.tx) k;
    }

after_send :
    (bs : List ℕ) (fuel : ℕ) (c : Conn) (n : ℕ) (s : State)
    → Sends bs c (some n) s
    → Keeps
        (WroteAll (drop n bs) (record s.0 { tx = add_ℤ s.0.tx n }))
        (λ t. Wrote (drop n bs) (record s.0 { tx = add_ℤ s.0.tx n }) t.0)
        (write_loop fuel (drop n bs) (record s.0 { tx = add_ℤ s.0.tx n }, s.1))
    → Keeps
        (WroteAll bs c)
        (λ t. Wrote bs c t.0)
        (write_loop fuel (drop n bs) (record s.0 { tx = add_ℤ s.0.tx n }, s.1))
unfolding wrote_more
after_send bs fuel c n s e k =
    let d = record s.0 { tx = add_ℤ s.0.tx n } in
    let same : SameReads c d = record {
      fd = e.same.fd;
      buf = e.same.buf;
      buf_cap = e.same.buf_cap;
      buf_s = e.same.buf_s;
      buf_e = e.same.buf_e;
      recvs = e.same.recvs;
      shut = e.same.shut;
    } in
    let tx : d.tx ≡ add_ℤ c.tx n = ap (λ (x : ℤ). add_ℤ x n) e.tx in
    Keeps-mono k
      (λ ok t v. record {
        wrote = wrote_more bs n c d t.0 same e.out tx e.most v.wrote;
        whole = v.whole;
        shut = v.shut;
      })
      (λ t v. wrote_more bs n c d t.0 same e.out tx e.most v)

nil_of_length : (bs : List ℕ) → length bs ≤ 0 → bs ≡ []
nil_of_length [] h = refl
nil_of_length (b ∷ bs) h = absurd (omega arith)

all_sent : (bs : List ℕ) (c : Conn) (w : World) → length bs ≤ 0 → WroteAll bs c true (c, w)
unfolding wrote_none
all_sent bs c w h = record {
  wrote = wrote_none bs c c (same_refl c c.sends c.sent) refl refl;
  whole = λ _. nil_of_length bs h;
  shut = λ e. cc;
}

none_sent :
    (bs : List ℕ) (c d : Conn) (w : World)
    → SameReads c d
    → d.sent ≡ c.sent
    → d.tx ≡ c.tx
    → WroteAll bs c false (conn_close d w)
none_sent bs c d w same out tx = record {
  wrote =
      wrote_none bs c (conn_close d w).0 (trans_same c d _ same (close-same d w))
        ((close-sent d w).0 ∙ out) ((close-sent d w).1 ∙ tx);
  whole = λ e. cc;
  shut = λ _. close-is_closed d w;
}

write_loop_lem :
    (fuel : ℕ) (bs : List ℕ) (c : Conn) (w : World)
    → length bs ≤ fuel
    → Keeps (WroteAll bs c) (λ s. Wrote bs c s.0) (write_loop fuel bs (c, w))
unfolding write_loop conn_send
write_loop_lem zero bs c w h = rw (nil_of_length bs h) (ends (all_sent [] c w (omega arith)))
write_loop_lem (suc fuel) bs c w h =
    Keeps-if (length bs == 0) (λ none_left. ends (all_sent bs c w (ground arith)))
      (λ more.
        Keeps-bind
          (Keeps-mono (try_send_lem bs (not (is_closed c.stat)) c.sends c w) (λ o s d. d)
            (λ s d. wrote_none bs c s.0 d.0 d.2 d.1))
          (elim [
            | none ↦ λ s d. ends (none_sent bs c s.0 s.1 d.same (d.out ∙ append-nil c.sent) d.tx)
            | some n ↦ λ s d. after_send bs fuel c n s d (
                write_loop_lem fuel (drop n bs) (record s.0 { tx = add_ℤ s.0.tx n }) s.1
                  (omega (arith, length-drop n bs, d.least n refl)))
          ]))

-- Whatever the environment answers, conn_write ends or still waits, and what it has sent is a first
-- part of its argument, in order and counted in tx: all of it when it returns 0; and when it returns
-- -1 the connection is closed.
pub conn_write_lem :
    (bs : List ℕ) (c : Conn) (w : World)
    → Keeps (WroteAll bs c) (λ s. Wrote bs c s.0) (conn_write bs (c, w))
unfolding conn_write
conn_write_lem bs c w =
    Keeps-if (is_closed c.stat)
      (λ _. ends (none_sent bs c c w (same_refl c c.sends c.sent) refl refl))
      (λ _. write_loop_lem (length bs) bs c w (omega arith))
