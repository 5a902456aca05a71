-- ===== src/ConnIo/Tests.antt =====
-- Examples for core/conn_io.c.
use http_proxy.Prelude.{◌≡◌, refl, inr, true, false, List, [], ◌∷◌, pos, negsuc, arith}
use http_proxy.Run.{Returns, Keeps, done}
use http_proxy.Strbuf.{Strbuf, strbuf_init}
use http_proxy.Strbuf.Laws.{strbuf_init-IsValid}
use http_proxy.Conn.{Conn, conn_closed, Wake, Recv, got, Send, took}
use http_proxy.ConnIo.{State, Pair, stream, consume, conn_gets, conn_write, conn_copy}
use http_proxy.ConnIo.Live.{IsQuiet}
use http_proxy.ConnIo.Lines.{InBounds, conn_gets-InBounds}
use http_proxy.ConnIo.Gets.{Reads, conn_gets-line, conn_gets-byte_255}
use http_proxy.ConnIo.Writing.{Wrote, WroteAll, conn_write_lem}
use http_proxy.ConnIo.Moving.{Passed, Moved}
use http_proxy.ConnIo.CopyAll.{conn_copy_lem}
use http_proxy.ConnIo.Copying.{conn_copy-drops}
use http_proxy.Examples.{
  calloc, length-calloc, conn_with, world, conn_with-IsBuffered, conn_with-IsLive,
}

abbrev calm : Wake
calm = record { exits = false; closes = false }

-- `ab` CR LF `c`, in three blocks and with a wait.
abbrev line_blocks : List Recv
line_blocks = got (97 ∷ []) ∷ Recv.again calm ∷ got (98 ∷ 13 ∷ []) ∷ got (10 ∷ 99 ∷ []) ∷ []

line_blocks-IsQuiet : IsQuiet line_blocks
line_blocks-IsQuiet = (omega arith, (refl, refl, (omega arith, (omega arith, tt))))

abbrev line_conn : Conn
line_conn = conn_with line_blocks []

-- A byte 255 behind the first letter.
abbrev odd_conn : Conn
odd_conn = conn_with (got (97 ∷ 255 ∷ 98 ∷ 10 ∷ []) ∷ []) []

abbrev empty_text : Strbuf
empty_text = strbuf_init calloc

line_is_read :
    Returns
      (Reads (pos 2) empty_text (97 ∷ 98 ∷ []) (99 ∷ []))
      (conn_gets calloc 16 empty_text (line_conn, world))
unfolding stream strbuf_init
line_is_read =
    conn_gets-line calloc length-calloc 16 empty_text (97 ∷ 98 ∷ []) (99 ∷ []) line_conn world
      (13 ∷ 10 ∷ 99 ∷ []) (inr refl) (omega arith) (conn_with-IsBuffered line_blocks [])
      (conn_with-IsLive line_blocks [] line_blocks-IsQuiet)
      (strbuf_init-IsValid calloc length-calloc).0 refl (omega arith)

byte_255_is_an_error :
    Returns
      (Reads (negsuc 0) empty_text (97 ∷ []) (98 ∷ 10 ∷ []))
      (conn_gets calloc 16 empty_text (odd_conn, world))
unfolding stream strbuf_init
byte_255_is_an_error =
    conn_gets-byte_255 calloc length-calloc 16 empty_text (97 ∷ []) (98 ∷ 10 ∷ []) odd_conn world
      (omega arith) (conn_with-IsBuffered (got (97 ∷ 255 ∷ 98 ∷ 10 ∷ []) ∷ []) [])
      (conn_with-IsLive (got (97 ∷ 255 ∷ 98 ∷ 10 ∷ []) ∷ []) [] (omega arith))
      (strbuf_init-IsValid calloc length-calloc).0 refl (omega arith)

line_within_limit :
    Keeps (InBounds 0 16) (λ _. Unit {0}) (conn_gets calloc 16 empty_text (line_conn, world))
unfolding strbuf_init
line_within_limit =
    conn_gets-InBounds calloc length-calloc 0 16 empty_text line_conn world
      (conn_with-IsBuffered line_blocks []) (strbuf_init-IsValid calloc length-calloc).0
      (omega arith) (omega arith)

-- The kernel takes two bytes, asks to wait, and then fails.
abbrev slow_conn : Conn
slow_conn = conn_with [] (took 2 ∷ Send.again calm ∷ Send.failed ∷ [])

partly_written :
    Keeps
      (WroteAll (1 ∷ 2 ∷ 3 ∷ []) slow_conn)
      (λ (s : State). Wrote (1 ∷ 2 ∷ 3 ∷ []) slow_conn s.0)
      (conn_write (1 ∷ 2 ∷ 3 ∷ []) (slow_conn, world))
partly_written = conn_write_lem (1 ∷ 2 ∷ 3 ∷ []) slow_conn world

abbrev broken_pair : Pair
broken_pair = record {
  out = record slow_conn { stat = conn_closed };
  inp = record line_conn { buf = 7 ∷ 8 ∷ 9 ∷ 0 ∷ []; buf_e = 3 };
  world = world;
}

bytes_are_dropped :
    conn_copy 2 broken_pair ≡ done true (record broken_pair { inp = consume 2 broken_pair.inp })
bytes_are_dropped = conn_copy-drops 2 broken_pair refl (omega arith) (omega arith)

-- Five bytes through a pair whose output takes two at a time.
abbrev slow_pair : Pair
slow_pair = record {
  out = conn_with [] (took 2 ∷ Send.again calm ∷ took 9 ∷ took 9 ∷ took 9 ∷ []);
  inp = conn_with line_blocks [];
  world = world;
}

copied_through : Keeps (Moved 5 slow_pair) (Passed 5 slow_pair) (conn_copy 5 slow_pair)
copied_through = conn_copy_lem 5 slow_pair (conn_with-IsBuffered line_blocks [])
