-- ===== src/Core/Sock.antt =====
-- src/core/sock.c: the options of a socket, its counters, and its calls of its type. The machine's
-- representation of an `int` is a parameter.
pub mod Calls
pub mod Kept
mod Tests
use msgbroker.Prelude.{
  ℕ, zero, suc, ◌+◌, ◌-◌, ◌^◌, Bool, true, false, not, ◌&&◌, ◌||◌, Option, none, some, List, [],
  ◌∷◌, ◌++◌, length, ltb, leb, ◌==◌, add64, if◌then◌else◌,
}
use msgbroker.Errno.{Errno, Rc, ok, err, einval, enoprotoopt}
use msgbroker.Memory.Msg.{Msg, body_size}
use msgbroker.Core.Pipe.{Answer, yields, refuses}
use msgbroker.Core.Limits.{
  Limits, Requested, below_zero, amount, check_rcvbuf, check_sndtimeo, check_rcvtimeo, set_rcvbuf,
  set_sndtimeo, set_rcvtimeo, set_backlog,
}

-- Of errno.h.
abbrev pub ebadf : Errno
ebadf = Errno.other 9

abbrev pub eopnotsupp : Errno
eopnotsupp = Errno.other 95

-- MB_TLS, without its sign.
abbrev pub tls_level : ℕ
tls_level = 5

-- The options at the level MB_SOL_SOCKET that are an `int` of the socket.
pub data IntOption : Type 0 where
  linger sndbuf rcvbuf sndtimeo rcvtimeo reconnect_ivl reconnect_ivl_max sndprio : IntOption
  rcvprio ipv4only rcvmaxsize maxttl hwm : IntOption

pub data LimitOption : Type 0 where
  limits_rcvbuf limits_sndtimeo limits_rcvtimeo limits_backlog : LimitOption

pub data PathOption : Type 0 where
  cert_path key_path ca_path : PathOption

-- A level and an option: those of the socket, or the numbers of any other, where the level of a
-- transport is written without its sign. The descriptors and the counters, which only getsockopt
-- knows, are left out.
pub data Selector : Type 0 where
  int_option : IntOption → Selector
  limit_option : LimitOption → Selector
  path_option : PathOption → Selector
  socket_name tcp_keepalive tls_verify domain protocol : Selector
  other_option : ℕ → ℕ → Selector

-- The options of `struct mb_sock`, and of its `ep_template`. A name or a path is the bytes that were
-- stored.
pub record Options : Type 0 where
  pub linger_of : Requested
  pub sndbuf_of : Requested
  pub rcvbuf_of : Requested
  pub sndtimeo_of : Requested
  pub rcvtimeo_of : Requested
  pub reconnect_ivl_of : Requested
  pub reconnect_ivl_max_of : Requested
  pub sndprio_of : Requested
  pub rcvprio_of : Requested
  pub ipv4only_of : Requested
  pub rcvmaxsize_of : Requested
  pub maxttl_of : Requested
  pub hwm_of : Requested
  pub keepalive : Requested
  pub verify : Requested
  pub name : List ℕ
  pub cert : List ℕ
  pub key : List ℕ
  pub ca : List ℕ

-- The values that mb_sock_init stores, for the text that snprintf makes of the descriptor.
abbrev pub initial : List ℕ → Options
initial text = record {
  linger_of = amount 0;
  sndbuf_of = amount (2 ^ 20);
  rcvbuf_of = amount (2 ^ 20);
  sndtimeo_of = below_zero 0;
  rcvtimeo_of = below_zero 0;
  reconnect_ivl_of = amount 100;
  reconnect_ivl_max_of = amount 0;
  sndprio_of = amount 8;
  rcvprio_of = amount 8;
  ipv4only_of = amount 0;
  rcvmaxsize_of = amount (2 ^ 20);
  maxttl_of = amount 8;
  hwm_of = amount 0;
  keepalive = amount 0;
  verify = amount 0;
  name = text;
  cert = [];
  key = [];
  ca = [];
}

abbrev pub get_int : IntOption → Options → Requested
get_int linger o = o.linger_of
get_int sndbuf o = o.sndbuf_of
get_int rcvbuf o = o.rcvbuf_of
get_int sndtimeo o = o.sndtimeo_of
get_int rcvtimeo o = o.rcvtimeo_of
get_int reconnect_ivl o = o.reconnect_ivl_of
get_int reconnect_ivl_max o = o.reconnect_ivl_max_of
get_int sndprio o = o.sndprio_of
get_int rcvprio o = o.rcvprio_of
get_int ipv4only o = o.ipv4only_of
get_int rcvmaxsize o = o.rcvmaxsize_of
get_int maxttl o = o.maxttl_of
get_int hwm o = o.hwm_of

abbrev pub put_int : IntOption → Requested → Options → Options
put_int linger v o = record o { linger_of = v }
put_int sndbuf v o = record o { sndbuf_of = v }
put_int rcvbuf v o = record o { rcvbuf_of = v }
put_int sndtimeo v o = record o { sndtimeo_of = v }
put_int rcvtimeo v o = record o { rcvtimeo_of = v }
put_int reconnect_ivl v o = record o { reconnect_ivl_of = v }
put_int reconnect_ivl_max v o = record o { reconnect_ivl_max_of = v }
put_int sndprio v o = record o { sndprio_of = v }
put_int rcvprio v o = record o { rcvprio_of = v }
put_int ipv4only v o = record o { ipv4only_of = v }
put_int rcvmaxsize v o = record o { rcvmaxsize_of = v }
put_int maxttl v o = record o { maxttl_of = v }
put_int hwm v o = record o { hwm_of = v }

abbrev pub is_positive : Requested → Bool
is_positive (below_zero n) = false
is_positive (amount zero) = false
is_positive (amount (suc n)) = true

-- 0 or 1.
abbrev pub is_flag : Requested → Bool
is_flag (below_zero n) = false
is_flag (amount n) = leb n 1

-- -1 or positive.
abbrev pub is_size : Requested → Bool
is_size (below_zero n) = n == 0
is_size (amount n) = ltb 0 n

abbrev pub is_amount : Requested → Bool
is_amount (below_zero n) = false
is_amount (amount n) = true

abbrev pub when : Bool → Rc
when t = if t then ok 0 else err einval

-- The tests on a value, of which the first that fails gives the error.
abbrev pub checked : Limits → IntOption → Requested → Rc
checked l linger v = ok 0
checked l sndbuf v = when (is_positive v)
checked l rcvbuf v = if is_positive v then check_rcvbuf l v else err einval
checked l sndtimeo v = check_sndtimeo l v
checked l rcvtimeo v = check_rcvtimeo l v
checked l reconnect_ivl v = ok 0
checked l reconnect_ivl_max v = ok 0
checked l sndprio v = ok 0
checked l rcvprio v = ok 0
checked l ipv4only v = when (is_flag v)
checked l rcvmaxsize v = when (is_size v)
checked l maxttl v = ok 0
checked l hwm v = when (is_amount v)

-- The type of the socket, and its pipes, in the state `W`: the functions of `sockbase`, where one that
-- is not there answers -ENOPROTOOPT; whether it can receive and whether it can send; and what the
-- pipes do when the receive buffer has changed.
pub record Base (W : Type 0) : Type 0 where
  pub setopt : ℕ → ℕ → List ℕ → W → Rc × W
  pub getopt : ℕ → ℕ → ℕ → W → Answer (List ℕ) × W
  pub events : W → (Bool × Bool) × W
  pub send : Msg → W → Rc × Msg × W
  pub recv : W → Answer Msg × W
  pub add : ℕ → W → Rc × W
  pub rm : ℕ → W → W
  pub notify_rcvbuf : ℕ → W → W

-- `struct mb_sock`, of which `has_base` is whether `sockbase` is there, `pipes` names its pipes, and
-- `sndfd` and `rcvfd` say whether the descriptors are signalled.
pub record Sock : Type 0 where
  pub options : Options
  pub has_base : Bool
  pub stopping : Bool
  pub nosend : Bool
  pub norecv : Bool
  pub domain_of : ℕ
  pub protocol_of : ℕ
  pub pipes : List ℕ
  pub sndfd : Bool
  pub rcvfd : Bool
  pub messages_sent : ℕ
  pub bytes_sent : ℕ
  pub msgs_sent : ℕ
  pub messages_received : ℕ
  pub bytes_received : ℕ
  pub msgs_received : ℕ

-- The bytes of a string that is stored, up to its first zero.
abbrev pub c_string : List ℕ → List ℕ
c_string [] = []
c_string (b ∷ bs) = if b == 0 then [] else b ∷ c_string bs

abbrev pub get_path : PathOption → Options → List ℕ
get_path cert_path o = o.cert
get_path key_path o = o.key
get_path ca_path o = o.ca

abbrev pub put_path : PathOption → List ℕ → Options → Options
put_path cert_path v o = record o { cert = v }
put_path key_path v o = record o { key = v }
put_path ca_path v o = record o { ca = v }

abbrev pub set_limit : LimitOption → Requested → Limits → Rc × Limits
set_limit limits_rcvbuf v l = set_rcvbuf (some v) l
set_limit limits_sndtimeo v l = set_sndtimeo (some v) l
set_limit limits_rcvtimeo v l = set_rcvtimeo (some v) l
set_limit limits_backlog v l = set_backlog (some v) l

abbrev pub bytes_in : Option (List ℕ) → List ℕ
bytes_in none = []
bytes_in (some bytes) = bytes

-- `optvallen != sizeof (int)`.
abbrev pub is_int : Option (List ℕ) → Bool
is_int v = length (bytes_in v) == 4

abbrev pub limit_number : LimitOption → ℕ
limit_number limits_rcvbuf = 19
limit_number limits_sndtimeo = 20
limit_number limits_rcvtimeo = 21
limit_number limits_backlog = 22

module _ {W : Type 0} (int_of : List ℕ → Requested) (base : Base W) where
  abbrev pub notify_all : List ℕ → W → W
  notify_all [] w = w
  notify_all (p ∷ ps) w = notify_all ps (base.notify_rcvbuf p w)

  -- A new receive buffer wakes the peers that wait for room.
  abbrev pub notified : IntOption → List ℕ → W → W
  notified rcvbuf ps w = notify_all ps w
  notified linger ps w = w
  notified sndbuf ps w = w
  notified sndtimeo ps w = w
  notified rcvtimeo ps w = w
  notified reconnect_ivl ps w = w
  notified reconnect_ivl_max ps w = w
  notified sndprio ps w = w
  notified rcvprio ps w = w
  notified ipv4only ps w = w
  notified rcvmaxsize ps w = w
  notified maxttl ps w = w
  notified hwm ps w = w

  abbrev pub stored : IntOption → Requested → Rc → Limits → Sock → W → Rc × Limits × Sock × W
  stored o v (err e) l s w = (err e, l, s, w)
  stored o v (ok n) l s w =
      (ok 0, l, record s { options = put_int o v s.options }, notified o s.pipes w)

  -- What is not an option of the socket goes to its type.
  abbrev pub to_type : ℕ → ℕ → Option (List ℕ) → Limits → Sock → W → Rc × Limits × Sock × W
  to_type level n v l s w =
      let (rc, w') = base.setopt level n (bytes_in v) w in
      if s.has_base then (rc, l, s, w') else (err enoprotoopt, l, s, w)

  abbrev pub set_options : Bool → Options → Limits → Sock → W → Rc × Limits × Sock × W
  set_options fits o l s w =
      if fits then (ok 0, l, record s { options = o }, w) else (err einval, l, s, w)

  -- `mb_sock_setopt`. The pointer is NULL, which is `none`, only for a value of no bytes.
  unfoldable pub setopt : Selector → Option (List ℕ) → Limits → Sock → W → Rc × Limits × Sock × W
  setopt (int_option o) v l s w =
      let n = int_of (bytes_in v) in
      if is_int v then stored o n (checked l o n) l s w else (err einval, l, s, w)
  setopt (limit_option o) v l s w =
      let (rc, l') = set_limit o (int_of (bytes_in v)) l in
      if is_int v then (rc, l', s, w) else (err einval, l, s, w)
  setopt socket_name none l s w = (err einval, l, s, w)
  setopt socket_name (some bytes) l s w =
      set_options (ltb (length bytes) 64) (record s.options { name = bytes }) l s w
  setopt tcp_keepalive v l s w =
      let n = int_of (bytes_in v) in
      set_options (is_int v && is_flag n) (record s.options { keepalive = n }) l s w
  setopt tls_verify v l s w =
      set_options (is_int v) (record s.options { verify = int_of (bytes_in v) }) l s w
  setopt (path_option p) v l s w =
      set_options (ltb (length (bytes_in v)) 256) (put_path p (bytes_in v) s.options) l s w
  setopt domain v l s w = if is_int v then to_type 0 12 v l s w else (err einval, l, s, w)
  setopt protocol v l s w = if is_int v then to_type 0 13 v l s w else (err einval, l, s, w)
  setopt (other_option zero n) v l s w =
      if is_int v then to_type 0 n v l s w else (err einval, l, s, w)
  setopt (other_option (suc level) n) v l s w = to_type (suc level) n v l s w

module _ {W : Type 0} (bytes_of : Requested → List ℕ) (base : Base W) where
  abbrev pub in_room : ℕ → List ℕ → ℕ → Answer (List ℕ)
  in_room size bytes room = if ltb room size then refuses einval else yields bytes

  abbrev pub ask_type : ℕ → ℕ → ℕ → Sock → W → Answer (List ℕ) × W
  ask_type level n room s w =
      if s.has_base then base.getopt level n room w else (refuses enoprotoopt, w)

  -- `mb_sock_getopt_inner` into a buffer of `room` bytes.
  unfoldable pub getopt : Selector → ℕ → Sock → W → Answer (List ℕ) × W
  getopt (int_option o) room s w = (in_room 4 (bytes_of (get_int o s.options)) room, w)
  getopt domain room s w = (in_room 4 (bytes_of (amount s.domain_of)) room, w)
  getopt protocol room s w = (in_room 4 (bytes_of (amount s.protocol_of)) room, w)
  getopt tcp_keepalive room s w = (in_room 4 (bytes_of s.options.keepalive) room, w)
  getopt tls_verify room s w = (in_room 4 (bytes_of s.options.verify) room, w)
  getopt socket_name room s w =
      let text = c_string s.options.name ++ (0 ∷ []) in (in_room (length text) text room, w)
  getopt (path_option p) room s w =
      let text = c_string (get_path p s.options) ++ (0 ∷ []) in (in_room (length text) text room, w)
  getopt (limit_option o) room s w = ask_type 0 (limit_number o) room s w
  getopt (other_option level n) room s w =
      if level == tls_level then (refuses enoprotoopt, w) else ask_type level n room s w
