-- ===== src/Arg/Port.antt =====
-- core/arg.c: what a command line that is accepted has set.
use http_proxy.Prelude.{
  ℕ, zero, suc, ◌≤◌, ◌≡◌, refl, Bool, true, false, inl, inr, Option, none, some, List, [], ◌∷◌, ℤ,
  pos, negsuc, is_minus_one, arith, Bool-cases, if◌then◌else◌, length,
}
use http_proxy.Libc.{str_eq, atoi_int}
use http_proxy.Arg.{
  ProxyArg, proxy_log_level_debug, option, next_arg, after_next, parse_addr, parse_log_file,
  out_of_range, parse_port, check_port, parse_loop, proxy_parse_arg,
}

-- The program returns, and if it accepts, its port can be listened on.
abbrev pub HasPort : Bool × ProxyArg → Type 0
HasPort (ok, arg) = ok ≡ true → (n : ℕ) × (arg.port ≡ pos n) × (1 ≤ n) × (n ≤ 65535)

abbrev pub Accepts : Option (Bool × ProxyArg) → Type 0
Accepts r = (v : Bool × ProxyArg) × (r ≡ some v) × HasPort v

-- The port has not been set yet.
abbrev IsUnset : ProxyArg → Type 0
IsUnset arg = arg.port ≡ negsuc 0

Accepts-if :
    (b : Bool) {m n : Option (Bool × ProxyArg)}
    → (b ≡ true → Accepts m)
    → (b ≡ false → Accepts n)
    → Accepts (if b then m else n)
Accepts-if true f g = f refl
Accepts-if false f g = g refl

refuses : (arg : ProxyArg) → Accepts (some (false, arg))
refuses arg = ((false, arg), refl, λ e. absurd (cc))

in_range : (z : ℤ) → out_of_range z ≡ false → (n : ℕ) × (z ≡ pos n) × (1 ≤ n) × (n ≤ 65535)
in_range (pos n) h = (n, refl, ground arith, ground arith)
in_range (negsuc n) h = absurd (cc)

not_minus_one : (z : ℤ) → out_of_range z ≡ false → is_minus_one z ≡ false
not_minus_one (pos n) h = refl
not_minus_one (negsuc n) h = absurd (cc)

minus_one : (z : ℤ) → z ≡ negsuc 0 → is_minus_one z ≡ true
minus_one z e = simp e

check_port-IsUnset : (arg : ProxyArg) → IsUnset arg → Accepts (some (check_port arg))
unfolding check_port
check_port-IsUnset arg u = let m = minus_one arg.port u in rw m (refuses arg)

port-Accepts :
    (a : List ℕ) (arg : ProxyArg)
    → Accepts (
        if (parse_port a arg).0
        then some (check_port (parse_port a arg).1)
        else some (false, (parse_port a arg).1))
unfolding parse_port check_port
port-Accepts a arg = elim (Bool-cases (out_of_range (atoi_int a))) [
  | inl bad ↦ rw bad (refuses (record arg { port = atoi_int a }))
  | inr good ↦
      let m = not_minus_one (atoi_int a) good in
      rw (good, m)
        ((true, record arg { port = atoi_int a }), refl, λ ok. in_range (atoi_int a) good)
]

length-after_next : (args : List (List ℕ)) → length (after_next args) ≤ length args
length-after_next [] = omega arith
length-after_next (a ∷ rest) = omega arith

parse_addr-IsUnset :
    (p : Option (List ℕ)) (arg : ProxyArg) → IsUnset arg → IsUnset (parse_addr p arg).1
unfolding parse_addr
parse_addr-IsUnset none arg u = u
parse_addr-IsUnset (some a) arg u = u

parse_log_file-IsUnset :
    (fopen : List ℕ → Bool) (p : Option (List ℕ)) (arg : ProxyArg)
    → IsUnset arg
    → IsUnset (parse_log_file fopen p arg).1
unfolding parse_log_file
parse_log_file-IsUnset fopen none arg u = u
parse_log_file-IsUnset fopen (some f) arg u = elim (Bool-cases (fopen f)) [
  | inl opened ↦ rw opened u
  | inr failed ↦ rw failed u
]

parse_loop_lem :
    (fopen : List ℕ → Bool) (fuel : ℕ) (args : List (List ℕ)) (arg : ProxyArg)
    → length args ≤ fuel
    → IsUnset arg
    → Accepts (parse_loop fopen fuel args arg)
unfolding parse_loop
parse_loop_lem fopen fuel [] arg enough u = check_port-IsUnset arg u
parse_loop_lem fopen zero (a ∷ rest) arg enough u = absurd (omega arith)
parse_loop_lem fopen (suc fuel) (a ∷ rest) arg enough u =
    let short = length-after_next rest in
    let addr : ProxyArg = (parse_addr (next_arg rest) arg).1 in
    let log : ProxyArg = (parse_log_file fopen (next_arg rest) arg).1 in
    let with_addr =
      parse_loop_lem fopen fuel (after_next rest) addr (omega arith)
        (parse_addr-IsUnset (next_arg rest) arg u) in
    let with_log =
      parse_loop_lem fopen fuel (after_next rest) log (omega arith)
        (parse_log_file-IsUnset fopen (next_arg rest) arg u) in
    let verbose : ProxyArg = record arg { verbose = proxy_log_level_debug } in
    let with_verbose = parse_loop_lem fopen fuel rest verbose (omega arith) u in
    Accepts-if (str_eq a (option b'v')) (λ _. with_verbose)
      (λ _.
        Accepts-if (str_eq a (option b'a'))
          (λ _. Accepts-if (parse_addr (next_arg rest) arg).0 (λ _. with_addr) (λ _. refuses addr))
          (λ _.
            Accepts-if (str_eq a (option b'l'))
              (λ _.
                Accepts-if (parse_log_file fopen (next_arg rest) arg).0 (λ _. with_log)
                  (λ _. refuses log))
              (λ _.
                Accepts-if (str_eq a (option b'h')) (λ _. refuses arg) (λ _. port-Accepts a arg))))

-- Whatever the arguments are and whichever files open: from a port of -1, proxy_parse_arg
-- returns, and where it accepts the arguments it has set a port from 1 to 65535.
pub proxy_parse_arg-port :
    (fopen : List ℕ → Bool) (args : List (List ℕ)) (arg : ProxyArg)
    → arg.port ≡ negsuc 0
    → Accepts (proxy_parse_arg fopen args arg)
unfolding proxy_parse_arg
proxy_parse_arg-port fopen args arg u = parse_loop_lem fopen (length args) args arg (omega arith) u
