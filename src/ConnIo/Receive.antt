-- ===== src/ConnIo/Receive.antt =====
-- core/conn_io.c, conn_try_io: what one recv or send does to the stream.
use http_proxy.Prelude.{
  ℕ, ◌≤◌, ◌<◌, ◌≡◌, refl, sym, ap, ◌∙◌, Bool, not, Option, none, some, List, [], ◌∷◌, ◌++◌, arith,
  length, take, drop, take-append-drop, length-take,
}
use mathlib.Core.List.{append_assoc}
use http_proxy.Run.{Keeps-if, Keeps-mono, done, Keeps, ends, stays}
use http_proxy.Conn.{Conn, Wake, Recv, got, World, is_closed}
use http_proxy.ConnIo.{State, wake_conn, wake_world, left_over, try_recv, conn_recv, arriving}

-- What stays of a connection that is only read from the kernel.
pub record SameButRecvs (c d : Conn) : Type 0 where
  pub fd : d.fd ≡ c.fd
  pub buf : d.buf ≡ c.buf
  pub buf_cap : d.buf_cap ≡ c.buf_cap
  pub buf_s : d.buf_s ≡ c.buf_s
  pub buf_e : d.buf_e ≡ c.buf_e
  pub rx : d.rx ≡ c.rx
  pub tx : d.tx ≡ c.tx
  pub sends : d.sends ≡ c.sends
  pub sent : d.sent ≡ c.sent

arriving-left_over :
    (len : ℕ) (bs : List ℕ) (rs : List Recv)
    → arriving (left_over len bs rs) ≡ drop len bs ++ arriving rs
unfolding arriving
arriving-left_over len bs rs = go (drop len bs)
  where
    go :
        (ds : List ℕ)
        → arriving (elim ds [ [] ↦ rs | b ∷ more ↦ got (b ∷ more) ∷ rs ]) ≡ ds ++ arriving rs
    go [] = refl
    go (b ∷ more) = refl

abbrev pub bytes_of : Option (List ℕ) → List ℕ
bytes_of none = []
bytes_of (some bs) = bs

abbrev pub Fits : ℕ → Option (List ℕ) → Type 0
Fits len none = Unit {0}
Fits len (some bs) = (0 < length bs) × (length bs ≤ len)

-- A recv of at most `len` hands over the next bytes of the stream, at least one and at most `len`,
-- or none; what it does not hand over is still to come.
pub record Delivers (len : ℕ) (rs : List Recv) (c : Conn) (o : Option (List ℕ)) (s : State)
    : Type 0 where
  pub same : SameButRecvs c s.0
  pub next : arriving rs ≡ bytes_of o ++ arriving s.0.recvs
  pub fits : Fits len o

abbrev pub Pauses : List Recv → Conn → State → Type 0
Pauses rs c s = SameButRecvs c s.0 × (arriving rs ≡ arriving s.0.recvs)

same_refl : (c : Conn) (rs : List Recv) → SameButRecvs c (record c { recvs = rs })
same_refl c rs = record {
  fd = refl;
  buf = refl;
  buf_cap = refl;
  buf_s = refl;
  buf_e = refl;
  rx = refl;
  tx = refl;
  sends = refl;
  sent = refl;
}

same-wake_conn :
    (k : Wake) (c : Conn) (s : State) → SameButRecvs (wake_conn k c) s.0 → SameButRecvs c s.0
same-wake_conn k c s h = ground (arith, h)

nothing :
    {len : ℕ} {old : List Recv} (rs : List Recv) (c : Conn) (w : World)
    → arriving old ≡ arriving rs
    → Delivers len old c none (record c { recvs = rs }, w)
nothing rs c w e = record { same = same_refl c rs; next = e; fits = tt }

split_block :
    (len : ℕ) (bs ds : List ℕ) (rs : List Recv) (c : Conn) (w : World)
    → take len bs ≡ ds
    → Keeps (Delivers len (got bs ∷ rs) c) (Pauses (got bs ∷ rs) c) (elim ds [
      | [] ↦ done none (record c { recvs = got bs ∷ rs }, w)
      | b ∷ more ↦ done (some (b ∷ more)) (record c { recvs = left_over len bs rs }, w)
    ])
unfolding arriving
split_block len bs [] rs c w e = ends (record { same = same_refl c _; next = refl; fits = tt })
split_block len bs (b ∷ more) rs c w e = ends (record {
  same = same_refl c _;
  next = whole;
  fits = (omega arith, omega (arith, length-take len bs, ap length e));
})
  where
    whole : arriving (got bs ∷ rs) ≡ b ∷ more ++ arriving (left_over len bs rs)
    whole =
        ap (λ (x : List ℕ). x ++ arriving rs) (sym (take-append-drop len bs))
        ∙ append_assoc (take len bs) _ _
        ∙ ap (λ (x : List ℕ). x ++ (drop len bs ++ arriving rs)) e
        ∙ ap (◌++◌ (b ∷ more)) (sym (arriving-left_over len bs rs))

try_recv_lem :
    (len : ℕ) (can_block : Bool) (rs : List Recv) (c : Conn) (w : World)
    → Keeps (Delivers len rs c) (Pauses rs c) (try_recv len can_block rs (c, w))
unfolding try_recv arriving
try_recv_lem len b [] c w =
    Keeps-if w.exiting (λ _. ends (nothing [] c w refl)) (λ _. stays (same_refl c [], refl))
try_recv_lem len b (got bs ∷ rs) c w =
    Keeps-if w.exiting (λ _. ends (nothing (got bs ∷ rs) c w refl))
      (λ _. split_block len bs (take len bs) rs c w refl)
try_recv_lem len b (Recv.again k ∷ rs) c w =
    Keeps-if w.exiting (λ _. ends (nothing (Recv.again k ∷ rs) c w refl))
      (λ _.
        Keeps-if b
          (λ _.
            Keeps-mono (try_recv_lem len b rs (wake_conn k c) (wake_world k w))
              (λ o s d. record { same = same-wake_conn k c s d.same; next = d.next; fits = d.fits })
              (λ s d. (same-wake_conn k c s d.0, d.1)))
          (λ _. ends (nothing rs c w refl)))
try_recv_lem len b (Recv.failed ∷ rs) c w =
    Keeps-if w.exiting (λ _. ends (nothing (Recv.failed ∷ rs) c w refl))
      (λ _. ends (nothing rs c w refl))

-- Whatever the environment answers, a recv takes from the front of the stream and loses nothing.
pub conn_recv_lem :
    (len : ℕ) (c : Conn) (w : World)
    → Keeps (Delivers len c.recvs c) (Pauses c.recvs c) (conn_recv len (c, w))
unfolding conn_recv
conn_recv_lem len c w = try_recv_lem len (not (is_closed c.stat)) c.recvs c w
