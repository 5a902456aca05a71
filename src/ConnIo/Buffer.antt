-- ===== src/ConnIo/Buffer.antt =====
-- core/conn_io.c, conn_getc and conn_ungetc: the read buffer stays in order, and a character read is
-- the next byte of the stream.
use http_proxy.Prelude.{
  ℕ, zero, suc, ◌+◌, ◌-◌, ◌≤◌, ◌<◌, ◌≡◌, refl, sym, ap, ◌∙◌, ◌⊎◌, inl, inr, true, false, Option,
  none, some, List, [], ◌∷◌, ◌++◌, arith, ℤ, negsuc, ltb, Bool-cases, length, take, drop, get_or,
  memcpy, length-append, length-take, length-drop, take-append, take_all,
}
use http_proxy.Run.{Keeps, ends, Keeps-if, Keeps-mono, Keeps-bind}
use http_proxy.Conn.{Conn, World, is_closed, conn_close}
use http_proxy.ConnIo.{State, arriving, pending, stream, to_int, refill, conn_getc}
use http_proxy.ConnIo.Receive.{SameButRecvs, Delivers, conn_recv_lem}

-- The block has `buf_cap` cells, one at least, and the unread bytes stand from buf_s up to buf_e within it.
pub record IsBuffered (c : Conn) : Type 0 where
  pub size : length c.buf ≡ c.buf_cap
  pub order : c.buf_s ≤ c.buf_e
  pub within : c.buf_e ≤ c.buf_cap
  pub cells : 0 < c.buf_cap

take-suc-drop :
    (n i : ℕ) (xs : List ℕ)
    → i < length xs
    → take (suc n) (drop i xs) ≡ get_or xs i 0 ∷ take n (drop (suc i) xs)
take-suc-drop n i [] h = elim h [ ]
take-suc-drop n zero (x ∷ xs) h = refl
take-suc-drop n (suc i) (x ∷ xs) h = take-suc-drop n i xs (omega arith)

-- The next unread byte, and what is unread after it.
pending_step :
    (c : Conn)
    → IsBuffered c
    → c.buf_s < c.buf_e
    → pending c ≡ get_or c.buf c.buf_s 0 ∷ take (c.buf_e - (c.buf_s + 1)) (drop (c.buf_s + 1) c.buf)
pending_step c v h =
    let n = c.buf_e - suc c.buf_s in
    let e : c.buf_e - c.buf_s ≡ suc n = omega arith in
    let f : c.buf_s + 1 ≡ suc c.buf_s = omega arith in
    rw (e, f) (take-suc-drop n c.buf_s c.buf (omega (arith, v.size, v.within)))

pub pending_empty : (c : Conn) → ltb c.buf_s c.buf_e ≡ false → pending c ≡ []
pending_empty c h =
    let e : c.buf_e - c.buf_s ≡ 0 = ground arith in ap (λ (n : ℕ). take n (drop c.buf_s c.buf)) e

-- A block that has been read in stands at the front of the buffer.
take-memcpy : (buf bs : List ℕ) → take (length bs) (memcpy buf bs (length bs)) ≡ bs
take-memcpy buf bs =
    let whole = take_all (length bs) bs (omega arith) in
    rw whole (take-append (length bs) bs (drop (length bs) buf) (omega arith) ∙ whole)

pub length-memcpy :
    (buf bs : List ℕ) → length bs ≤ length buf → length (memcpy buf bs (length bs)) ≡ length buf
length-memcpy buf bs h = omega (
  arith,
  length-append (take (length bs) bs) (drop (length bs) buf),
  length-take (length bs) bs,
  length-drop (length bs) buf,
)

-- The character is the next byte of the stream, as a signed char.
abbrev pub GotByte : Conn → ℤ → Conn → Type 0
GotByte c z d = (x : ℕ) × (z ≡ to_int x) × (stream c ≡ x ∷ stream d)

-- No character: the connection is closed, and nothing of the stream is lost.
abbrev pub GotNone : Conn → ℤ → Conn → Type 0
GotNone c z d = (z ≡ negsuc 0) × (is_closed d.stat ≡ true) × (stream c ≡ stream d)

pub close-is_closed : (c : Conn) (w : World) → is_closed (conn_close c w).0.stat ≡ true
unfolding conn_close
close-is_closed c w = elim (Bool-cases (is_closed c.stat)) [
  | inl shut ↦ rw (shut, conn_close) shut
  | inr live ↦ rw (live, conn_close) refl
]

stays-IsBuffered :
    {c d : Conn} → SameButRecvs c d → IsBuffered c → IsBuffered (record d { buf_s = 0; buf_e = 0 })
stays-IsBuffered {c} {d} e v = record {
  size = cc (e.buf, e.buf_cap, v.size);
  order = omega arith;
  within = omega arith;
  cells = omega (arith, v.cells, e.buf_cap);
}

close-IsBuffered : (c : Conn) (w : World) → IsBuffered c → IsBuffered (conn_close c w).0
unfolding conn_close
close-IsBuffered c w v = elim (Bool-cases (is_closed c.stat)) [
  | inl shut ↦ rw (shut, conn_close) v
  | inr live ↦
      rw (live, conn_close)
        (record { size = v.size; order = v.order; within = v.within; cells = v.cells })
]

close-stream : (c : Conn) (w : World) → stream (conn_close c w).0 ≡ stream c
unfolding conn_close stream
close-stream c w = elim (Bool-cases (is_closed c.stat)) [
  | inl shut ↦ rw (shut, conn_close) refl
  | inr live ↦ rw (live, conn_close) refl
]

abbrev pub Got : Conn → ℤ → State → Type 0
Got c z s = IsBuffered s.0 × (GotByte c z s.0 ⊎ GotNone c z s.0)

-- The connection with an empty buffer, as conn_getc leaves it before it reads.
abbrev pub emptied : Conn → Conn
emptied c = record c { buf_s = 0; buf_e = 0 }

stream-emptied : (c : Conn) → ltb c.buf_s c.buf_e ≡ false → stream c ≡ arriving c.recvs
unfolding stream
stream-emptied c h = ap (λ (p : List ℕ). p ++ arriving c.recvs) (pending_empty c h)

idle : (c d : Conn) → SameButRecvs (emptied c) d → ltb d.buf_s d.buf_e ≡ false
idle c d e = let s = e.buf_s in let t = e.buf_e in ground (arith, s, t)

block_front :
    (buf bs : List ℕ)
    → 0 < length bs
    → bs
      ≡ get_or (memcpy buf bs (length bs)) 0 0
        ∷ take (length bs - 1) (drop 1 (memcpy buf bs (length bs)))
block_front buf [] h = elim h [ ]
block_front buf (x ∷ xs) h =
    let n = length xs in
    let e : suc n - 1 ≡ n = omega arith in
    let whole = take_all n xs (omega arith) in
    ap (◌∷◌ x) (
      sym (
        rw e (
          take-append n (take n xs) (drop (suc n) buf) (omega (arith, length-take n xs))
          ∙ ap (take n) whole
          ∙ whole)))

refill_lem :
    (c : Conn)
    → IsBuffered c
    → ltb c.buf_s c.buf_e ≡ false
    → (o : Option (List ℕ)) (s : State) → Delivers c.buf_cap c.recvs (emptied c) o s
    → Keeps (Got c) (λ _. Unit {0}) (refill o s)
unfolding refill stream
refill_lem c v h none (d, w) t = ends (
  close-IsBuffered d w (record {
    size = cc (t.same.buf, t.same.buf_cap, v.size);
    order = omega (arith, t.same.buf_s);
    within = omega (arith, t.same.buf_e);
    cells = omega (arith, v.cells, t.same.buf_cap);
  }),
  inr (
    refl,
    close-is_closed d w,
    stream-emptied c h ∙ t.next ∙ sym (close-stream d w ∙ stream-emptied d (idle c d t.same)),
  ),
)
refill_lem c v h (some bs) (d, w) t = ends (
  record {
    size =
        length-memcpy d.buf bs (omega (arith, t.fits, v.size, ap length t.same.buf))
        ∙ cc (t.same.buf, t.same.buf_cap, v.size);
    order = t.fits.0;
    within = omega (arith, t.fits.1, t.same.buf_cap);
    cells = omega (arith, v.cells, t.same.buf_cap);
  },
  inl (
    get_or (memcpy d.buf bs (length bs)) 0 0,
    refl,
    stream-emptied c h
        ∙ t.next
        ∙ ap (λ (p : List ℕ). p ++ arriving d.recvs) (block_front d.buf bs t.fits.0),
  ),
)

-- Whatever the environment answers, conn_getc keeps the buffer in order and returns the next byte
-- of the stream, or closes the connection, returns -1 and loses nothing.
pub conn_getc_lem :
    (c : Conn) (w : World) → IsBuffered c → Keeps (Got c) (λ _. Unit {0}) (conn_getc (c, w))
unfolding conn_getc stream
conn_getc_lem c w v =
    Keeps-if (ltb c.buf_s c.buf_e)
      (λ some_left. ends (
        record { size = v.size; order = ground arith; within = v.within; cells = v.cells },
        inl (
          get_or c.buf c.buf_s 0,
          refl,
          unfold stream in
              ap (λ (p : List ℕ). p ++ arriving c.recvs) (pending_step c v (ground arith)),
        ),
      ))
      (λ none_left.
        Keeps-bind (Keeps-mono (conn_recv_lem c.buf_cap (emptied c) w) (λ o s t. t) (λ s t. tt))
          (refill_lem c v none_left))
