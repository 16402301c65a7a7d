-- ===== src/Core/Sock/Kept.antt =====
-- sock.c: what a change of an option leaves.
use msgbroker.Prelude.{
  ℕ, zero, suc, ◌≡◌, refl, Bool, true, false, Option, none, some, List, length, Bool-cases, inl,
  inr, if◌then◌else◌, ltb,
}
use msgbroker.Errno.{Rc, ok, err, einval}
use msgbroker.Core.Pipe.{yields}
use msgbroker.Core.Limits.{Limits, Requested, below_zero, amount}
use msgbroker.Core.Sock.{
  IntOption, linger, sndbuf, rcvbuf, sndtimeo, rcvtimeo, reconnect_ivl, reconnect_ivl_max, sndprio,
  rcvprio, ipv4only, rcvmaxsize, maxttl, hwm, Selector, int_option, limit_option, LimitOption,
  path_option, socket_name, tcp_keepalive, tls_verify, domain, protocol, other_option, PathOption,
  cert_path, key_path, ca_path, Options, get_int, put_int, is_positive, is_flag, is_size, is_amount,
  when, checked, Base, Sock, bytes_in, is_int, stored, set_options, setopt, getopt, initial,
  put_path, to_type, set_limit,
}

-- What the rest of the library relies on: buffers are positive, the limit on a message is -1 or
-- positive, the high-water mark is not negative, and the flags are 0 or 1.
abbrev pub IsOptions : Options → Type 0
IsOptions o =
    (is_positive o.sndbuf_of ≡ true)
    × (is_positive o.rcvbuf_of ≡ true)
    × (is_size o.rcvmaxsize_of ≡ true)
    × (is_amount o.hwm_of ≡ true)
    × (is_flag o.ipv4only_of ≡ true)
    × (is_flag o.keepalive ≡ true)

when-ok : (t : Bool) (n : ℕ) → when t ≡ ok n → t ≡ true
when-ok true n e = refl
when-ok false n e = cc

abbrev Allowed : IntOption → Requested → Type 0
Allowed sndbuf v = is_positive v ≡ true
Allowed rcvbuf v = is_positive v ≡ true
Allowed rcvmaxsize v = is_size v ≡ true
Allowed hwm v = is_amount v ≡ true
Allowed ipv4only v = is_flag v ≡ true
Allowed linger v = Unit
Allowed sndtimeo v = Unit
Allowed rcvtimeo v = Unit
Allowed reconnect_ivl v = Unit
Allowed reconnect_ivl_max v = Unit
Allowed sndprio v = Unit
Allowed rcvprio v = Unit
Allowed maxttl v = Unit

rcvbuf-allowed :
    (l : Limits) (v : Requested) (n : ℕ) → checked l rcvbuf v ≡ ok n → is_positive v ≡ true
rcvbuf-allowed l (below_zero k) n e = cc
rcvbuf-allowed l (amount zero) n e = cc
rcvbuf-allowed l (amount (suc k)) n e = refl

checked-Allowed :
    (l : Limits) (o : IntOption) (v : Requested) (n : ℕ) → checked l o v ≡ ok n → Allowed o v
checked-Allowed l linger v n e = tt
checked-Allowed l sndbuf v n e = when-ok (is_positive v) n e
checked-Allowed l rcvbuf v n e = rcvbuf-allowed l v n e
checked-Allowed l sndtimeo v n e = tt
checked-Allowed l rcvtimeo v n e = tt
checked-Allowed l reconnect_ivl v n e = tt
checked-Allowed l reconnect_ivl_max v n e = tt
checked-Allowed l sndprio v n e = tt
checked-Allowed l rcvprio v n e = tt
checked-Allowed l ipv4only v n e = when-ok (is_flag v) n e
checked-Allowed l rcvmaxsize v n e = when-ok (is_size v) n e
checked-Allowed l maxttl v n e = tt
checked-Allowed l hwm v n e = when-ok (is_amount v) n e

put_int-IsOptions :
    (o : IntOption) (v : Requested) (s : Options)
    → Allowed o v
    → IsOptions s
    → IsOptions (put_int o v s)
put_int-IsOptions linger v s a g = g
put_int-IsOptions sndbuf v s a (b, c, d, e, f, h) = (a, c, d, e, f, h)
put_int-IsOptions rcvbuf v s a (b, c, d, e, f, h) = (b, a, d, e, f, h)
put_int-IsOptions sndtimeo v s a g = g
put_int-IsOptions rcvtimeo v s a g = g
put_int-IsOptions reconnect_ivl v s a g = g
put_int-IsOptions reconnect_ivl_max v s a g = g
put_int-IsOptions sndprio v s a g = g
put_int-IsOptions rcvprio v s a g = g
put_int-IsOptions ipv4only v s a (b, c, d, e, f, h) = (b, c, d, e, a, h)
put_int-IsOptions rcvmaxsize v s a (b, c, d, e, f, h) = (b, c, a, e, f, h)
put_int-IsOptions maxttl v s a g = g
put_int-IsOptions hwm v s a (b, c, d, e, f, h) = (b, c, d, a, f, h)

get-put_int : (o : IntOption) (v : Requested) (s : Options) → get_int o (put_int o v s) ≡ v
get-put_int linger v s = refl
get-put_int sndbuf v s = refl
get-put_int rcvbuf v s = refl
get-put_int sndtimeo v s = refl
get-put_int rcvtimeo v s = refl
get-put_int reconnect_ivl v s = refl
get-put_int reconnect_ivl_max v s = refl
get-put_int sndprio v s = refl
get-put_int rcvprio v s = refl
get-put_int ipv4only v s = refl
get-put_int rcvmaxsize v s = refl
get-put_int maxttl v s = refl
get-put_int hwm v s = refl

put_path-IsOptions :
    (p : PathOption) (v : List ℕ) (s : Options) → IsOptions s → IsOptions (put_path p v s)
put_path-IsOptions cert_path v s g = g
put_path-IsOptions key_path v s g = g
put_path-IsOptions ca_path v s g = g

module _ {W : Type 0} (int_of : List ℕ → Requested) (bytes_of : Requested → List ℕ)
    (base : Base W) where
  -- A change that is refused leaves the options; one of an `int` of the socket that succeeds is what a
  -- getsockopt into four bytes or more then gives. The options stay in their ranges.
  abbrev pub SetOutcome : Selector → Option (List ℕ) → Sock → Rc × Limits × Sock × W → Type 0
  SetOutcome sel v s (err e, l, s', w) = s' ≡ s
  SetOutcome (int_option o) v s (ok n, l, s', w) =
      IsOptions s'.options
      × ((room : ℕ) (u : W)
          → ltb room 4 ≡ false
          → getopt bytes_of base (int_option o) room s' u
            ≡ (yields (bytes_of (int_of (bytes_in v))), u))
  SetOutcome (limit_option o) v s (ok n, l, s', w) = s' ≡ s
  SetOutcome (path_option p) v s (ok n, l, s', w) = IsOptions s'.options
  SetOutcome socket_name v s (ok n, l, s', w) = IsOptions s'.options
  SetOutcome tcp_keepalive v s (ok n, l, s', w) = IsOptions s'.options
  SetOutcome tls_verify v s (ok n, l, s', w) = IsOptions s'.options
  SetOutcome domain v s (ok n, l, s', w) = s' ≡ s
  SetOutcome protocol v s (ok n, l, s', w) = s' ≡ s
  SetOutcome (other_option level n) v s (ok k, l, s', w) = s' ≡ s

  stored-SetOutcome :
      (o : IntOption) (v : Option (List ℕ)) (r : Rc) (l m : Limits) (s : Sock) (w : W)
      → checked m o (int_of (bytes_in v)) ≡ r
      → IsOptions s.options
      → SetOutcome (int_option o) v s (stored int_of base o (int_of (bytes_in v)) r l s w)
  unfolding getopt
  stored-SetOutcome o v (err e) l m s w c g = refl
  stored-SetOutcome o v (ok n) l m s w c g =
      let x = int_of (bytes_in v) in
      (
        put_int-IsOptions o x s.options (checked-Allowed m o x n c) g,
        λ room u h. simp (h, get-put_int o x s.options) refl,
      )

  -- A text or a flag that fits is stored.
  set_options-kept :
      (fits : Bool) (o : Options) (sel : Selector) (v : Option (List ℕ)) (l : Limits) (s : Sock)
      (w : W)
      → ((l' : Limits) (w' : W) → SetOutcome sel v s (ok 0, l', record s { options = o }, w'))
      → SetOutcome sel v s (set_options int_of base fits o l s w)
  set_options-kept true o sel v l s w k = k l w
  set_options-kept false o sel v l s w k = refl

  -- A value that is not an `int` is refused.
  needs_int :
      (sel : Selector) (v : Option (List ℕ)) (l : Limits) (s : Sock) (w : W)
      (x : Rc × Limits × Sock × W)
      → SetOutcome sel v s x
      → SetOutcome sel v s (if is_int v then x else (err einval, l, s, w))
  needs_int sel v l s w x k = elim (Bool-cases (is_int v)) [
    | inl y ↦ simp y k
    | inr y ↦ simp y refl
  ]

  to_type-kept :
      (level n : ℕ) (sel : Selector) (v : Option (List ℕ)) (l : Limits) (s : Sock) (w : W)
      → ((rc : Rc) (l' : Limits) (w' : W) → SetOutcome sel v s (rc, l', s, w'))
      → SetOutcome sel v s (to_type int_of base level n v l s w)
  to_type-kept level n sel v l s w k = elim (Bool-cases s.has_base) [
    | inl y ↦
        simp y (k (base.setopt level n (bytes_in v) w).0 l (base.setopt level n (bytes_in v) w).1)
    | inr y ↦ simp y refl
  ]

  other_kept :
      (level n : ℕ) (v : Option (List ℕ)) (s : Sock) (rc : Rc) (l' : Limits) (w' : W)
      → SetOutcome (other_option level n) v s (rc, l', s, w')
  other_kept level n v s (ok k) l' w' = refl
  other_kept level n v s (err e) l' w' = refl

  limit_kept :
      (o : LimitOption) (v : Option (List ℕ)) (s : Sock) (rc : Rc) (l' : Limits) (w' : W)
      → SetOutcome (limit_option o) v s (rc, l', s, w')
  limit_kept o v s (ok k) l' w' = refl
  limit_kept o v s (err e) l' w' = refl

  domain_kept :
      (v : Option (List ℕ)) (s : Sock) (rc : Rc) (l' : Limits) (w' : W)
      → SetOutcome domain v s (rc, l', s, w')
  domain_kept v s (ok k) l' w' = refl
  domain_kept v s (err e) l' w' = refl

  protocol_kept :
      (v : Option (List ℕ)) (s : Sock) (rc : Rc) (l' : Limits) (w' : W)
      → SetOutcome protocol v s (rc, l', s, w')
  protocol_kept v s (ok k) l' w' = refl
  protocol_kept v s (err e) l' w' = refl

  -- A setsockopt that is refused changes nothing of the socket. One that succeeds leaves the buffers
  -- positive, the limit on a message -1 or positive, the high-water mark not negative and the flags 0
  -- or 1, if they were so before; and a getsockopt of an `int` of the socket, into four bytes or more,
  -- then gives the value that was set. Options of the socket's type and the caps leave the socket's
  -- own options alone.
  pub sock_setopt-SetOutcome :
      (sel : Selector) (v : Option (List ℕ)) (l : Limits) (s : Sock) (w : W)
      → IsOptions s.options
      → SetOutcome sel v s (setopt int_of base sel v l s w)
  unfolding setopt
  sock_setopt-SetOutcome (int_option o) v l s w g =
      let x = int_of (bytes_in v) in
      needs_int (int_option o) v l s w (stored int_of base o x (checked l o x) l s w)
        (stored-SetOutcome o v (checked l o x) l l s w refl g)
  sock_setopt-SetOutcome (limit_option o) v l s w g =
      let r = set_limit o (int_of (bytes_in v)) l in
      needs_int (limit_option o) v l s w (r.0, r.1, s, w) (limit_kept o v s r.0 r.1 w)
  sock_setopt-SetOutcome socket_name none l s w g = refl
  sock_setopt-SetOutcome socket_name (some bytes) l s w g =
      set_options-kept (ltb (length bytes) 64) (record s.options { name = bytes }) socket_name
        (some bytes) l s w (λ l' w'. g)
  sock_setopt-SetOutcome tcp_keepalive v l s w g =
      let (b, c, d, e, f, h) = g in
      elim (Bool-cases (is_int v)) [
        | inl y ↦ elim (Bool-cases (is_flag (int_of (bytes_in v)))) [
          | inl z ↦ simp (y, z) (b, c, d, e, f, refl)
          | inr z ↦ simp (y, z) refl
        ]
        | inr y ↦ simp y refl
      ]
  sock_setopt-SetOutcome tls_verify v l s w g =
      set_options-kept (is_int v) (record s.options { verify = int_of (bytes_in v) }) tls_verify v l
        s w (λ l' w'. g)
  sock_setopt-SetOutcome (path_option p) v l s w g =
      set_options-kept (ltb (length (bytes_in v)) 256) (put_path p (bytes_in v) s.options)
        (path_option p) v l s w (λ l' w'. put_path-IsOptions p (bytes_in v) s.options g)
  sock_setopt-SetOutcome domain v l s w g =
      needs_int domain v l s w (to_type int_of base 0 12 v l s w)
        (to_type-kept 0 12 domain v l s w (λ rc l' w'. domain_kept v s rc l' w'))
  sock_setopt-SetOutcome protocol v l s w g =
      needs_int protocol v l s w (to_type int_of base 0 13 v l s w)
        (to_type-kept 0 13 protocol v l s w (λ rc l' w'. protocol_kept v s rc l' w'))
  sock_setopt-SetOutcome (other_option zero n) v l s w g =
      needs_int (other_option 0 n) v l s w (to_type int_of base 0 n v l s w)
        (to_type-kept 0 n (other_option 0 n) v l s w (λ rc l' w'. other_kept 0 n v s rc l' w'))
  sock_setopt-SetOutcome (other_option (suc level) n) v l s w g =
      to_type-kept (suc level) n (other_option (suc level) n) v l s w
        (λ rc l' w'. other_kept (suc level) n v s rc l' w')

pub initial-IsOptions : (text : List ℕ) → IsOptions (initial text)
initial-IsOptions text = (refl, refl, refl, refl, refl, refl)
