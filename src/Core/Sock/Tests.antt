-- ===== src/Core/Sock/Tests.antt =====
-- sock.c: tests.
use msgbroker.Prelude.{
  ℕ, ◌+◌, ◌*◌, ◌≡◌, refl, true, false, some, List, [], ◌∷◌, get_or, ◌%◌, ◌/◌, ltb, if◌then◌else◌,
  ◌-◌, ◌^◌,
}
use msgbroker.Errno.{ok, err, eagain, einval, enoprotoopt}
use msgbroker.Memory.Msg.{empty_msg}
use msgbroker.Core.Pipe.{refuses}
use msgbroker.Core.Limits.{Limits, Requested, below_zero, amount}
use msgbroker.Core.Sock.{Base, Sock, initial, int_option, rcvbuf, hwm, setopt}
use msgbroker.Core.Sock.Calls.{send, sync_sndfd, sync_rcvfd}
use msgbroker.Core.Sock.Kept.{SetOutcome, sock_setopt-SetOutcome, initial-IsOptions}

-- An `int` of four bytes, the lowest first.
abbrev int_of : List ℕ → Requested
int_of bs =
    let n = get_or bs 0 0 + 256 * (get_or bs 1 0 + 256 * (get_or bs 2 0 + 256 * get_or bs 3 0)) in
    if ltb n (2 ^ 31) then amount n else below_zero (2 ^ 32 - 1 - n)

abbrev low_bytes : ℕ → List ℕ
low_bytes n = n % 256 ∷ n / 256 % 256 ∷ n / 65536 % 256 ∷ n / 16777216 % 256 ∷ []

abbrev bytes_of : Requested → List ℕ
bytes_of (amount n) = low_bytes n
bytes_of (below_zero n) = low_bytes (2 ^ 32 - 1 - n)

-- A type that takes every message and has none; the state counts the notices to pipes.
abbrev base : Base ℕ
base = record {
  setopt = λ level n v w. (err enoprotoopt, w);
  getopt = λ level n room w. (refuses enoprotoopt, w);
  events = λ w. ((false, true), w);
  send = λ m w. (ok 0, empty_msg, w);
  recv = λ w. (refuses eagain, w);
  add = λ p w. (ok 0, w);
  rm = λ p w. w;
  notify_rcvbuf = λ p w. w + 1;
}

abbrev limits : Limits
limits = record { rcvbuf = 1000; sndtimeo = 10; rcvtimeo = 10; backlog = 5; installed = true }

abbrev sock : Sock
sock = record {
  options = initial (51 ∷ []);
  has_base = true;
  stopping = false;
  nosend = false;
  norecv = false;
  domain_of = 1;
  protocol_of = 16;
  pipes = 4 ∷ 5 ∷ [];
  sndfd = false;
  rcvfd = false;
  messages_sent = 0;
  bytes_sent = 0;
  msgs_sent = 0;
  messages_received = 0;
  bytes_received = 0;
  msgs_received = 0;
}

abbrev five_hundred : List ℕ
five_hundred = 244 ∷ 1 ∷ 0 ∷ 0 ∷ []

wakes_peers : (setopt int_of base (int_option rcvbuf) (some five_hundred) limits sock 0).3 ≡ 2
unfolding setopt
wakes_peers = refl

negative :
    (setopt int_of base (int_option hwm) (some (255 ∷ 255 ∷ 255 ∷ 255 ∷ [])) limits sock 0).0
    ≡ err einval
unfolding setopt
negative = refl

counted : (send base (record empty_msg { body = 1 ∷ 2 ∷ [] }) sock 0).2.bytes_sent ≡ 2
unfolding send sync_sndfd sync_rcvfd
counted = refl

sock_setopt-SetOutcome_example :
    SetOutcome int_of bytes_of base
      (int_option rcvbuf)
      (some five_hundred)
      sock
      (setopt int_of base (int_option rcvbuf) (some five_hundred) limits sock 0)
sock_setopt-SetOutcome_example =
    sock_setopt-SetOutcome int_of bytes_of base (int_option rcvbuf) (some five_hundred) limits sock
      0 (initial-IsOptions (51 ∷ []))
