-- ===== src/NetHttp/Methods.antt =====
-- core/net_http.c, net_http_module_init, and net_handle_module_init in core/net_handle.c: which
-- methods are served. The handlers are numbers.
use http_proxy.Prelude.{
  ℕ, zero, suc, ◌≡◌, refl, sym, ◌∙◌, inl, inr, Bool, true, false, ◌||◌, Option, none, some, List,
  [], ◌∷◌, Bool-cases, if◌then◌else◌,
}
use http_proxy.Libc.{str_eq}
use http_proxy.Libc.Laws.{str_eq_iff}
use http_proxy.NetHandle.{NetHandlers, net_handle_register, method_strcmp, net_get_handler}
use http_proxy.NetHandle.Registry.{word, NoSpace, method_strcmp_iff}
use http_proxy.NetHttp.{head_text}
use http_proxy.NetData.Parse.{connect_text}

abbrev pub conn_max_handler_num : ℕ
conn_max_handler_num = 32

abbrev empty_slots : ℕ → List (Option NetHandlers)
empty_slots zero = []
empty_slots (suc n) = none ∷ empty_slots n

-- The table after the memset of net_handle_module_init.
unfoldable pub net_handle_module_init : List (Option NetHandlers)
net_handle_module_init = empty_slots conn_max_handler_num

abbrev pub get_text : List ℕ
get_text = b'G' ∷ b'E' ∷ b'T' ∷ []

abbrev pub post_text : List ℕ
post_text = b'P' ∷ b'O' ∷ b'S' ∷ b'T' ∷ []

abbrev pub put_text : List ℕ
put_text = b'P' ∷ b'U' ∷ b'T' ∷ []

abbrev pub delete_text : List ℕ
delete_text = b'D' ∷ b'E' ∷ b'L' ∷ b'E' ∷ b'T' ∷ b'E' ∷ []

module _ (http_req http_rsp connect_req connect_rsp : ℕ) where
  abbrev http_handlers : List ℕ → NetHandlers
  http_handlers m = record { method = m; req_handler = http_req; rsp_handler = http_rsp }

  abbrev connect_handlers : NetHandlers
  connect_handlers = record {
    method = connect_text;
    req_handler = connect_req;
    rsp_handler = connect_rsp;
  }

  unfoldable pub net_http_module_init : List (Option NetHandlers) → List (Option NetHandlers)
  unfolding net_handle_register
  net_http_module_init slots = net_handle_register connect_handlers (
      net_handle_register (http_handlers delete_text) (
        net_handle_register (http_handlers put_text) (
          net_handle_register (http_handlers head_text) (
            net_handle_register (http_handlers post_text)
              (net_handle_register (http_handlers get_text) slots)))))

  -- The two handlers of an entry.
  abbrev pub both : Option NetHandlers → Option (ℕ × ℕ)
  both none = none
  both (some h) = some (h.req_handler, h.rsp_handler)

  -- The methods that are handled as messages of HTTP.
  abbrev pub is_http : List ℕ → Bool
  is_http m =
      str_eq get_text m
      || str_eq post_text m
      || str_eq head_text m
      || str_eq put_text m
      || str_eq delete_text m

  -- The entry of the first of the six methods that matches.
  first_of : Bool → Bool → Bool → Bool → Bool → Bool → Option NetHandlers
  first_of a b c d e f =
      if a
      then some (http_handlers get_text)
      else if b
      then some (http_handlers post_text)
      else if c
      then some (http_handlers head_text)
      else if d
      then some (http_handlers put_text)
      else if e
      then some (http_handlers delete_text)
      else if f
      then some connect_handlers
      else none

  first_of-both :
      (a b c d e f : Bool)
      → both (first_of a b c d e f) ≡ (
          if a || b || c || d || e
          then some (http_req, http_rsp)
          else if f
          then some (connect_req, connect_rsp)
          else none)
  unfolding first_of
  first_of-both true b c d e f = refl
  first_of-both false true c d e f = refl
  first_of-both false false true d e f = refl
  first_of-both false false false true e f = refl
  first_of-both false false false false true f = refl
  first_of-both false false false false false true = refl
  first_of-both false false false false false false = refl

  -- method_strcmp against a method without spaces.
  strcmp_word : (m m1 : List ℕ) → NoSpace m → method_strcmp m m1 ≡ str_eq m (word m1)
  strcmp_word m m1 p = elim (Bool-cases (method_strcmp m m1)) [
    | inl found ↦ found ∙ sym ((str_eq_iff m (word m1)).1 ((method_strcmp_iff m m1 p).0 found))
    | inr other ↦ elim (Bool-cases (str_eq m (word m1))) [
      | inl same ↦
          absurd (cc ((method_strcmp_iff m m1 p).1 ((str_eq_iff m (word m1)).0 same), other))
      | inr differs ↦ other ∙ sym differs
    ]
  ]

  -- After the initialisation, a start line is given the handlers of HTTP where its text in front of the
  -- first space is GET, POST, HEAD, PUT or DELETE, those of a tunnel where it is CONNECT, and none in
  -- every other case.
  pub net_http_module_init-methods :
      (line : List ℕ)
      → both (net_get_handler line (net_http_module_init net_handle_module_init)) ≡ (
          if is_http (word line)
          then some (http_req, http_rsp)
          else if str_eq connect_text (word line)
          then some (connect_req, connect_rsp)
          else none)
  unfolding net_http_module_init net_handle_module_init net_get_handler net_handle_register first_of
  net_http_module_init-methods line =
      let e : (m : List ℕ) → NoSpace m → method_strcmp m line ≡ str_eq m (word line) =
        λ m p. strcmp_word m line p in
      let w = word line in
      rw
        (
          e get_text (refl, (refl, (refl, tt))),
          e post_text (refl, (refl, (refl, (refl, tt)))),
          e head_text (refl, (refl, (refl, (refl, tt)))),
          e put_text (refl, (refl, (refl, tt))),
          e delete_text (refl, (refl, (refl, (refl, (refl, (refl, tt)))))),
          e connect_text (refl, (refl, (refl, (refl, (refl, (refl, (refl, tt))))))),
        )
        (first_of-both (str_eq get_text w) (str_eq post_text w) (str_eq head_text w)
          (str_eq put_text w) (str_eq delete_text w) (str_eq connect_text w))
