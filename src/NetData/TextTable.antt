-- ===== src/NetData/TextTable.antt =====
-- The table with texts for keys over which examples run.
use http_proxy.Prelude.Uthash.{Uthash, keyed}
use http_proxy.Libc.{str_eq}
use http_proxy.Libc.Laws.{str_eq_iff}

abbrev pub text_assoc : (V : Type 0) → Uthash str_eq V
text_assoc V = keyed str_eq str_eq_iff V
