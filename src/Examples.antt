-- ===== src/Examples.antt =====
-- Data that the examples of several modules share: an allocator, an empty buffer, a connection.
use http_proxy.Prelude.{ℕ, zero, suc, ◌≡◌, refl, ap, false, none, List, [], ◌∷◌, pos, length, arith}
use http_proxy.Conn.{Conn, conn_used, Recv, Send, World}
use http_proxy.ConnIo.Buffer.{IsBuffered}
use http_proxy.ConnIo.Live.{IsLive, IsQuiet}

-- An allocator whose blocks are clear.
abbrev pub calloc : ℕ → List ℕ
calloc zero = []
calloc (suc n) = 0 ∷ calloc n

pub length-calloc : (n : ℕ) → length (calloc n) ≡ n
length-calloc zero = refl
length-calloc (suc n) = ap suc (length-calloc n)

-- A connection with a read buffer of four cells and these answers to come.
abbrev pub conn_with : List Recv → List Send → Conn
conn_with rs ss = record {
  fd = 5;
  buf = calloc 4;
  buf_cap = 4;
  buf_s = 0;
  buf_e = 0;
  rx = pos 0;
  tx = pos 0;
  stat = conn_used;
  ep = record { family = 2; port = 80; addr = 127 ∷ 0 ∷ 0 ∷ 1 ∷ [] };
  apool = none;
  recvs = rs;
  sends = ss;
  sent = [];
}

abbrev pub world : World
world = record { exiting = false; calls = [] }

pub conn_with-IsBuffered : (rs : List Recv) (ss : List Send) → IsBuffered (conn_with rs ss)
conn_with-IsBuffered rs ss = record {
  size = refl;
  order = omega arith;
  within = omega arith;
  cells = omega arith;
}

pub conn_with-IsLive :
    (rs : List Recv) (ss : List Send) → IsQuiet rs → IsLive (conn_with rs ss, world)
conn_with-IsLive rs ss q = record { opened = refl; running = refl; quiet = q }
