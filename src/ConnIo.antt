-- ===== src/ConnIo.antt =====
-- core/conn_io.c: reading and writing a connection through its read buffer.
pub mod Receive
pub mod Buffer
pub mod Live
pub mod Lines
pub mod Shorter
pub mod Text
pub mod Gets
pub mod Sending
pub mod Writing
pub mod Copying
pub mod Moving
pub mod Blocks
pub mod Copy
pub mod CopyAll
pub mod Negative
mod Tests
use http_proxy.Prelude.{
  ℕ, zero, suc, ◌+◌, ◌-◌, Bool, true, false, not, ◌||◌, ◌&&◌, Option, none, some, List, [], ◌∷◌,
  ◌++◌, ℤ, pos, negsuc, suc_ℤ, pred_ℤ, add_ℤ, is_minus_one, ltb, ◌==◌, if◌then◌else◌, length,
  get_or, take, drop, memcpy, min,
}
use http_proxy.Run.{Run, Io, done, waits, out_of_fuel, and_then, pure, ◌>>=◌}
use http_proxy.Strbuf.{Strbuf, strbuf_append}
use http_proxy.Conn.{
  Conn, ConnStat, conn_closed, Wake, Recv, Send, got, took, World, is_closed, conn_close,
}

abbrev pub State : Type 0
State = Conn × World

-- What async_yield (CONN_IO_WILL_BLOCK, ..) finds changed when it returns.
abbrev pub wake_conn : Wake → Conn → Conn
wake_conn k c = if k.closes then record c { stat = conn_closed } else c

abbrev pub wake_world : Wake → World → World
wake_world k w = record w { exiting = w.exiting || k.exits }

-- What is left of an arrived block when `len` bytes of it are read; the end of the stream stays.
abbrev pub left_over : ℕ → List ℕ → List Recv → List Recv
left_over len bs rs = elim (drop len bs) [ [] ↦ rs | b ∷ more ↦ got (b ∷ more) ∷ rs ]

-- conn_try_io (1, ..): the bytes of one recv of at most `len`, none for -1. `can_block` is computed
-- by the caller before the loop.
unfoldable pub try_recv : ℕ → Bool → List Recv → State → Run State (Option (List ℕ))
try_recv len can_block [] (c, w) =
    if w.exiting then done none (record c { recvs = [] }, w) else waits (record c { recvs = [] }, w)
try_recv len can_block (got bs ∷ rs) (c, w) =
    if w.exiting then done none (record c { recvs = got bs ∷ rs }, w) else elim (take len bs) [
      | [] ↦ done none (record c { recvs = got bs ∷ rs }, w)
      | b ∷ more ↦ done (some (b ∷ more)) (record c { recvs = left_over len bs rs }, w)
    ]
try_recv len can_block (Recv.again k ∷ rs) (c, w) =
    let retry = try_recv len can_block rs (wake_conn k c, wake_world k w) in
    if w.exiting
    then done none (record c { recvs = Recv.again k ∷ rs }, w)
    else if can_block
    then retry
    else done none (record c { recvs = rs }, w)
try_recv len can_block (Recv.failed ∷ rs) (c, w) =
    if w.exiting
    then done none (record c { recvs = Recv.failed ∷ rs }, w)
    else done none (record c { recvs = rs }, w)

-- conn_try_io (0, ..): how many of the bytes one send takes, none for -1.
unfoldable pub try_send : List ℕ → Bool → List Send → State → Run State (Option ℕ)
try_send bs can_block [] (c, w) =
    if w.exiting then done none (record c { sends = [] }, w) else waits (record c { sends = [] }, w)
try_send bs can_block (took n ∷ ss) (c, w) =
    if w.exiting
    then done none (record c { sends = took n ∷ ss }, w)
    else if min n (length bs) == 0
    then done none (record c { sends = ss }, w)
    else done (some (min n (length bs)))
        (record c { sends = ss; sent = c.sent ++ take (min n (length bs)) bs }, w)
try_send bs can_block (Send.again k ∷ ss) (c, w) =
    let retry = try_send bs can_block ss (wake_conn k c, wake_world k w) in
    if w.exiting
    then done none (record c { sends = Send.again k ∷ ss }, w)
    else if can_block
    then retry
    else done none (record c { sends = ss }, w)
try_send bs can_block (Send.failed ∷ ss) (c, w) =
    if w.exiting
    then done none (record c { sends = Send.failed ∷ ss }, w)
    else done none (record c { sends = ss }, w)

unfoldable pub conn_recv : ℕ → State → Run State (Option (List ℕ))
unfolding try_recv
conn_recv len (c, w) = try_recv len (not (is_closed c.stat)) c.recvs (c, w)

unfoldable pub conn_send : List ℕ → State → Run State (Option ℕ)
unfolding try_send
conn_send bs (c, w) = try_send bs (not (is_closed c.stat)) c.sends (c, w)

-- A failed read or write closes the connection and returns -1.
abbrev pub fail : {A : Type 0} → A → State → Run State A
fail a (c, w) = done a (conn_close c w)

-- The bytes that the read buffer still holds.
abbrev pub pending : Conn → List ℕ
pending c = take (c.buf_e - c.buf_s) (drop c.buf_s c.buf)

-- `while (len)` of conn_read: every round reads one byte or more, so `len` rounds are enough.
unfoldable pub read_loop : ℕ → ℕ → List ℕ → Io State (Option (List ℕ))
unfolding conn_recv
read_loop zero len acc s = if len == 0 then done (some acc) s else out_of_fuel
read_loop (suc fuel) len acc s =
    let more = and_then {B = Option (List ℕ)} (conn_recv len s) (λ r s'. elim r [
      | none ↦ fail {A = Option (List ℕ)} none s'
      | some bs ↦ read_loop fuel (len - length bs) (acc ++ bs) s'
    ]) in
    if len == 0 then done (some acc) s else more

-- conn_read: the bytes that fill `buf`, none for -1.
unfoldable pub conn_read : ℕ → Io State (Option (List ℕ))
unfolding read_loop conn_close
conn_read len (c, w) =
    if is_closed c.stat
    then fail none (c, w)
    else if ltb c.buf_s c.buf_e
    then (let n = min (c.buf_e - c.buf_s) len in
        read_loop len (len - n) (take n (drop c.buf_s c.buf)) (record c { buf_s = c.buf_s + n }, w))
    else read_loop len len [] (c, w)

-- A `char`, which is signed, as an `int`.
abbrev pub to_int : ℕ → ℤ
to_int b = if ltb b 128 then pos b else negsuc (255 - b)

-- An `int` as a `char`.
abbrev pub to_char : ℤ → ℕ
to_char (pos n) = n
to_char (negsuc n) = 255 - n

-- What conn_getc does with a recv into its empty buffer.
unfoldable pub refill : Option (List ℕ) → Io State ℤ
refill none (c, w) = fail (negsuc 0) (c, w)
refill (some bs) (c, w) =
    let buf = memcpy c.buf bs (length bs) in
    done (to_int (get_or buf 0 0))
      (record c { buf = buf; buf_s = 1; buf_e = length bs; rx = suc_ℤ c.rx }, w)

unfoldable pub conn_getc : Io State ℤ
unfolding conn_recv refill
conn_getc (c, w) =
    if ltb c.buf_s c.buf_e
    then done (to_int (get_or c.buf c.buf_s 0)) (record c { buf_s = c.buf_s + 1 }, w)
    else and_then (conn_recv c.buf_cap (record c { buf_s = 0; buf_e = 0 }, w)) refill

unfoldable pub conn_ungetc : Conn → Conn
conn_ungetc c = if c.buf_s == 0 then c else record c { buf_s = c.buf_s - 1; rx = pred_ℤ c.rx }

abbrev pub cr : ℕ
cr = 13

abbrev pub lf : ℕ
lf = 10

-- The end of a line: after a CR one LF is consumed, and any other character is put back.
unfoldable pub end_of_line : ℤ → ℤ → Strbuf → Io State (ℤ × Strbuf)
unfolding conn_getc conn_ungetc
end_of_line ch ret b s =
    if to_char ch == cr
    then and_then {B = ℤ × Strbuf} (conn_getc s) (λ next (c, w).
      if is_minus_one next
      then done (negsuc 0, b) (c, w)
      else if to_char next == lf
      then done (ret, b) (c, w)
      else done (ret, b) (conn_ungetc c, w))
    else done (ret, b) s

-- conn_gets, from a buffer `b` on, with `ret` characters read so far. A round consumes a byte.
module _ (malloc : ℕ → List ℕ) where
  unfoldable pub gets_loop : ℕ → ℕ → ℤ → Strbuf → Io State (ℤ × Strbuf)
  unfolding conn_getc end_of_line
  gets_loop zero len_limit ret b s = out_of_fuel
  gets_loop (suc fuel) len_limit ret b s =
      let read = and_then {B = ℤ × Strbuf} (conn_getc s) (λ ch s'.
        let next = gets_loop fuel len_limit (suc_ℤ ret) (strbuf_append malloc b (to_char ch)) s' in
        if is_minus_one ch
        then done (negsuc 0, b) s'
        else if (to_char ch == cr) || (to_char ch == lf)
        then end_of_line ch ret b s'
        else next) in
      if b.len + 1 == len_limit then done (negsuc 0, b) s else read

-- The bytes that answers to recv still bring.
unfoldable pub arriving : List Recv → List ℕ
arriving [] = []
arriving (got bs ∷ rs) = bs ++ arriving rs
arriving (Recv.again k ∷ rs) = arriving rs
arriving (Recv.failed ∷ rs) = arriving rs

-- All bytes that the connection can still deliver, in order.
unfoldable pub stream : Conn → List ℕ
unfolding arriving
stream c = pending c ++ arriving c.recvs

-- The fuel: one round for each byte that can still be read, and one to find that there is none.
unfoldable pub conn_gets : (ℕ → List ℕ) → ℕ → Strbuf → Io State (ℤ × Strbuf)
unfolding gets_loop stream
conn_gets malloc len_limit b (c, w) =
    gets_loop malloc (suc (length (stream c))) len_limit (pos 0) b (c, w)

-- `while (len)` of conn_write.
unfoldable pub write_loop : ℕ → List ℕ → Io State Bool
unfolding conn_send
write_loop zero bs s = if length bs == 0 then done true s else out_of_fuel
write_loop (suc fuel) bs s =
    let more = and_then {B = Bool} (conn_send bs s) (λ r (c, w). elim r [
      | none ↦ fail false (c, w)
      | some n ↦ write_loop fuel (drop n bs) (record c { tx = add_ℤ c.tx n }, w)
    ]) in
    if length bs == 0 then done true s else more

-- conn_write: true for 0, false for -1.
unfoldable pub conn_write : List ℕ → Io State Bool
unfolding write_loop conn_close
conn_write bs (c, w) =
    if is_closed c.stat then fail false (c, w) else write_loop (length bs) bs (c, w)

-- conn_copy works on two connections.
pub record Pair : Type 0 where
  pub out : Conn
  pub inp : Conn
  pub world : World

-- A call on one of the two.
abbrev pub on_out : {A : Type 0} → Io State A → Io Pair A
on_out m p = elim (m (p.out, p.world)) [
  | done a (c, w) ↦ done a (record p { out = c; world = w })
  | waits (c, w) ↦ waits (record p { out = c; world = w })
  | out_of_fuel ↦ out_of_fuel
]

abbrev pub on_inp : {A : Type 0} → Io State A → Io Pair A
on_inp m p = elim (m (p.inp, p.world)) [
  | done a (c, w) ↦ done a (record p { inp = c; world = w })
  | waits (c, w) ↦ waits (record p { inp = c; world = w })
  | out_of_fuel ↦ out_of_fuel
]

-- buf_s, and what goes with it, after `n` bytes of the buffer have been passed on.
abbrev pub consume : ℕ → Conn → Conn
consume n c = record c { buf_s = c.buf_s + n; rx = add_ℤ c.rx n }

-- `while (len)` of conn_copy.
unfoldable pub copy_loop : ℕ → ℕ → Io Pair Bool
unfolding conn_recv conn_write conn_close
copy_loop zero len p = if len == 0 then done true p else out_of_fuel
copy_loop (suc fuel) len p =
    let more =
      and_then {B = Bool}
        (on_inp (λ (c, w). conn_recv c.buf_cap (record c { buf_s = 0; buf_e = 0 }, w)) p)
        (λ r q. elim r [
          | none ↦ on_inp (fail false) q
          | some bs ↦
              let n = min (length bs) len in
              let full = record q.inp {
                buf = memcpy q.inp.buf bs (length bs);
                buf_e = length bs;
              } in
              and_then {B = Bool} (on_out (conn_write (take n bs)) (record q { inp = full }))
                (λ ok t.
                  let rest = copy_loop fuel (len - n) (record t { inp = consume n t.inp }) in
                  if ok then rest else done false t)
        ]) in
    if len == 0 then done true p else more

-- conn_copy: true for 0, false for -1. The result of the first conn_write is not looked at.
unfoldable pub conn_copy : ℕ → Io Pair Bool
unfolding copy_loop
conn_copy len p =
    if ltb p.inp.buf_s p.inp.buf_e
    then (let n = min (p.inp.buf_e - p.inp.buf_s) len in
        and_then {B = Bool} (on_out (conn_write (take n (drop p.inp.buf_s p.inp.buf))) p)
          (λ ok q. copy_loop len (len - n) (record q { inp = consume n q.inp })))
    else copy_loop len len p
