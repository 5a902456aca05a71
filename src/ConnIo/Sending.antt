-- ===== src/ConnIo/Sending.antt =====
-- core/conn_io.c, one conn_try_io for sending: how many bytes it takes, and what stays as it was.
use http_proxy.Prelude.{
  ℕ, ◌≤◌, ◌<◌, ◌≡◌, refl, sym, ap, ◌∙◌, Bool, true, Option, none, some, List, [], ◌∷◌, ◌++◌, arith,
  ◌==◌, length, take, min,
}
use mathlib.Core.List.{append-nil}
use http_proxy.Run.{Keeps, ends, stays, Keeps-if, Keeps-mono}
use http_proxy.Conn.{Conn, Wake, Send, took, World, is_closed}
use http_proxy.ConnIo.{State, wake_conn, wake_world, try_send}

abbrev pub count_of : Option ℕ → ℕ
count_of none = 0
count_of (some n) = n

-- What sending leaves alone: the read side, and a closed connection stays closed.
pub record SameReads (c d : Conn) : Type 0 where
  pub fd : d.fd ≡ c.fd
  pub buf : d.buf ≡ c.buf
  pub buf_cap : d.buf_cap ≡ c.buf_cap
  pub buf_s : d.buf_s ≡ c.buf_s
  pub buf_e : d.buf_e ≡ c.buf_e
  pub recvs : d.recvs ≡ c.recvs
  pub shut : is_closed c.stat ≡ true → is_closed d.stat ≡ true

-- One send: at least one byte if it does not fail, and none if it does.
pub record Sends (bs : List ℕ) (c : Conn) (o : Option ℕ) (s : State) : Type 0 where
  pub same : SameReads c s.0
  pub tx : s.0.tx ≡ c.tx
  pub out : s.0.sent ≡ c.sent ++ take (count_of o) bs
  pub most : count_of o ≤ length bs
  pub least : (n : ℕ) → o ≡ some n → 0 < n

abbrev pub SendWaits : Conn → State → Type 0
SendWaits c s = SameReads c s.0 × (s.0.tx ≡ c.tx) × (s.0.sent ≡ c.sent)

pub same_refl :
    (c : Conn) (ss : List Send) (xs : List ℕ) → SameReads c (record c { sends = ss; sent = xs })
same_refl c ss xs = record {
  fd = refl;
  buf = refl;
  buf_cap = refl;
  buf_s = refl;
  buf_e = refl;
  recvs = refl;
  shut = λ h. h;
}

pub same-wake_conn : (k : Wake) (c d : Conn) → SameReads (wake_conn k c) d → SameReads c d
same-wake_conn k c d h = ground (arith, h, h.shut)

pub sent-wake_conn :
    (k : Wake) (c : Conn) → ((wake_conn k c).sent ≡ c.sent) × ((wake_conn k c).tx ≡ c.tx)
sent-wake_conn k c = ground arith

pub no_send :
    (bs : List ℕ) (c : Conn) (w : World) (ss : List Send)
    → Sends bs c none (record c { sends = ss }, w)
no_send bs c w ss = record {
  same = same_refl c ss c.sent;
  tx = refl;
  out = sym (append-nil c.sent);
  most = omega arith;
  least = λ n e. cc;
}

pub try_send_lem :
    (bs : List ℕ) (b : Bool) (ss : List Send) (c : Conn) (w : World)
    → Keeps (Sends bs c) (SendWaits c) (try_send bs b ss (c, w))
unfolding try_send
try_send_lem bs b [] c w =
    Keeps-if w.exiting (λ _. ends (no_send bs c w []))
      (λ _. stays (same_refl c [] c.sent, refl, refl))
try_send_lem bs b (took n ∷ ss) c w =
    Keeps-if w.exiting (λ _. ends (no_send bs c w (took n ∷ ss)))
      (λ _.
        Keeps-if (min n (length bs) == 0) (λ _. ends (no_send bs c w ss))
          (λ some_taken. ends (record {
            same = same_refl c ss (c.sent ++ take (min n (length bs)) bs);
            tx = refl;
            out = refl;
            most = omega arith;
            least = λ m e. ground (arith, some_taken);
          })))
try_send_lem bs b (Send.again k ∷ ss) c w =
    Keeps-if w.exiting (λ _. ends (no_send bs c w (Send.again k ∷ ss)))
      (λ _.
        Keeps-if b
          (λ _.
            Keeps-mono (try_send_lem bs b ss (wake_conn k c) (wake_world k w))
              (λ o s d. record {
                same = same-wake_conn k c s.0 d.same;
                tx = d.tx ∙ (sent-wake_conn k c).1;
                out = d.out ∙ ap (λ (x : List ℕ). x ++ take (count_of o) bs) (sent-wake_conn k c).0;
                most = d.most;
                least = d.least;
              })
              (λ s d. (
                same-wake_conn k c s.0 d.0,
                d.1 ∙ (sent-wake_conn k c).1,
                d.2 ∙ (sent-wake_conn k c).0,
              )))
          (λ _. ends (no_send bs c w ss)))
try_send_lem bs b (Send.failed ∷ ss) c w =
    Keeps-if w.exiting (λ _. ends (no_send bs c w (Send.failed ∷ ss)))
      (λ _. ends (no_send bs c w ss))
