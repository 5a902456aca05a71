-- ===== src/ConnIo/Live.antt =====
-- core/conn_io.c while nothing goes wrong: no error, no signal, no close. Then a read waits through
-- every EAGAIN and returns.
use http_proxy.Prelude.{
  ℕ, ◌<◌, ◌≡◌, refl, ◌⊎◌, inl, inr, true, false, Option, none, some, List, [], ◌∷◌, arith, ℤ, ltb,
  length, take, drop, length-take,
}
use http_proxy.Run.{done, Returns, returns, Returns-if, Returns-and, Returns-bind, Returns-mono}
use http_proxy.Conn.{Conn, Recv, got, World, is_closed}
use http_proxy.ConnIo.{
  State, wake_conn, wake_world, left_over, try_recv, conn_recv, arriving, stream, to_int, refill,
  conn_getc,
}
use http_proxy.ConnIo.Buffer.{IsBuffered, GotByte, GotNone, conn_getc_lem, pending_empty}

-- No error, no end of the stream, and nothing happens during a wait.
abbrev pub IsQuiet : List Recv → Type 0
IsQuiet [] = Unit {0}
IsQuiet (got bs ∷ rs) = (0 < length bs) × IsQuiet rs
IsQuiet (Recv.again k ∷ rs) = (k.exits ≡ false) × (k.closes ≡ false) × IsQuiet rs
IsQuiet (Recv.failed ∷ rs) = ⊥

pub record IsLive (s : State) : Type 0 where
  pub opened : is_closed s.0.stat ≡ false
  pub running : s.1.exiting ≡ false
  pub quiet : IsQuiet s.0.recvs

IsQuiet-left_over :
    (len : ℕ) (bs : List ℕ) (rs : List Recv) → IsQuiet rs → IsQuiet (left_over len bs rs)
IsQuiet-left_over len bs rs q = go (drop len bs)
  where
    go : (ds : List ℕ) → IsQuiet (elim ds [ [] ↦ rs | b ∷ more ↦ got (b ∷ more) ∷ rs ])
    go [] = q
    go (b ∷ more) = (omega arith, q)

-- Some bytes come, and the connection is still live.
abbrev pub Comes : Option (List ℕ) → State → Type 0
Comes o s = (bs : List ℕ) × (o ≡ some bs) × IsLive s

Comes-block :
    (len : ℕ) (bs ds : List ℕ) (rs : List Recv) (c : Conn) (w : World)
    → 0 < length ds
    → is_closed c.stat ≡ false
    → w.exiting ≡ false
    → IsQuiet rs
    → Returns Comes (elim ds [
      | [] ↦ done none (record c { recvs = got bs ∷ rs }, w)
      | b ∷ more ↦ done (some (b ∷ more)) (record c { recvs = left_over len bs rs }, w)
    ])
Comes-block len bs [] rs c w h o e q = elim h [ ]
Comes-block len bs (b ∷ more) rs c w h o e q =
    returns
      (b ∷ more, refl, record { opened = o; running = e; quiet = IsQuiet-left_over len bs rs q })

try_recv_live :
    (len : ℕ) (rs : List Recv) (c : Conn) (w : World)
    → 0 < len
    → is_closed c.stat ≡ false
    → w.exiting ≡ false
    → IsQuiet rs
    → 0 < length (arriving rs)
    → Returns Comes (try_recv len true rs (c, w))
unfolding try_recv arriving
try_recv_live len [] c w h o e q more = elim more [ ]
try_recv_live len (got bs ∷ rs) c w h o e q more =
    rw e (Comes-block len bs (take len bs) rs c w (omega (arith, length-take len bs, q.0)) o e q.1)
try_recv_live len (Recv.again k ∷ rs) c w h o e q more =
    let awake : is_closed (wake_conn k c).stat ≡ false = rw (q.1) o in
    let running : (wake_world k w).exiting ≡ false = rw (e, q.0) refl in
    Returns-if w.exiting (λ stop. cc)
      (λ _. try_recv_live len rs (wake_conn k c) (wake_world k w) h awake running q.2 more)
try_recv_live len (Recv.failed ∷ rs) c w h o e q more = absurd q

conn_recv_live :
    (len : ℕ) (c : Conn) (w : World)
    → 0 < len
    → IsLive (c, w)
    → 0 < length (arriving c.recvs)
    → Returns Comes (conn_recv len (c, w))
unfolding conn_recv
conn_recv_live len c w h l more =
    rw l.opened (try_recv_live len c.recvs c w h l.opened l.running l.quiet more)

refill-IsLive :
    (o : Option (List ℕ)) (s : State) → Comes o s → Returns (λ _ t. IsLive t) (refill o s)
unfolding refill
refill-IsLive none s (bs, e, l) = cc
refill-IsLive (some bs) (c, w) (_, e, l) =
    returns (record { opened = l.opened; running = l.running; quiet = l.quiet })

getc-IsLive :
    (c : Conn) (w : World)
    → IsBuffered c
    → IsLive (c, w)
    → 0 < length (stream c)
    → Returns (λ _ t. IsLive t) (conn_getc (c, w))
unfolding conn_getc stream
getc-IsLive c w v l more =
    Returns-if (ltb c.buf_s c.buf_e)
      (λ _. returns (record { opened = l.opened; running = l.running; quiet = l.quiet }))
      (λ none_left.
        Returns-bind
          (conn_recv_live c.buf_cap (record c { buf_s = 0; buf_e = 0 }) w v.cells
            (record { opened = l.opened; running = l.running; quiet = l.quiet })
            (rw (pending_empty c none_left) at more))
          refill-IsLive)

got_byte :
    (c d : Conn) (x : ℕ) (t : List ℕ) (z : ℤ) (w : World)
    → stream c ≡ x ∷ t
    → IsLive (d, w)
    → GotByte c z d ⊎ GotNone c z d
    → (z ≡ to_int x) × (stream d ≡ t)
got_byte c d x t z w e l (inl (y, f, g)) = (cc, cc)
got_byte c d x t z w e l (inr (_, shut, _)) = let o = l.opened in absurd (cc)

-- With a byte to come on a live connection, conn_getc returns that byte, however the stream is cut
-- into blocks, and the connection stays live.
pub conn_getc-IsLive :
    (c : Conn) (w : World) (x : ℕ) (t : List ℕ)
    → IsBuffered c
    → IsLive (c, w)
    → stream c ≡ x ∷ t
    → Returns
        (λ z s. (z ≡ to_int x) × (stream s.0 ≡ t) × IsBuffered s.0 × IsLive s)
        (conn_getc (c, w))
conn_getc-IsLive c w x t v l e =
    Returns-mono (Returns-and (getc-IsLive c w v l (rw e (omega arith))) (conn_getc_lem c w v))
      λ z s (live, (fine, read)).
        let (f, g) = got_byte c s.0 x t z s.1 e live read in (f, g, fine, live)
