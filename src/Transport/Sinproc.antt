-- ===== src/Transport/Sinproc.antt =====
-- src/transport/inproc/sinproc.c: one end of a connection inside the process, as a pipe of its socket.
mod Tests
use msgbroker.Prelude.{
  ℕ, zero, suc, ◌^◌, Bool, true, false, not, ◌||◌, Option, none, some, ltb, ◌==◌, if◌then◌else◌,
}
use msgbroker.Errno.{Errno, Rc, ok, err, eagain}
use msgbroker.Memory.Msg.{Msg, body_size}
use msgbroker.Transport.Msgqueue
use msgbroker.Transport.Msgqueue.{Queue}

-- `EMSGSIZE` of errno.h.
abbrev pub emsgsize : Errno
emsgsize = Errno.other 90

-- `struct mb_sinproc` without its peer, with what it uses of its socket: the option `rcvbuf`, where 0
-- stands for a number that is not positive, `rcvmaxsize`, where `none` stands for a negative number,
-- and whether the descriptors `rcvfd` and `sndfd` are signalled.
pub record Sinproc : Type 0 where
  pub msgqueue : Queue
  pub rcvbuf : ℕ
  pub rcvmaxsize : Option ℕ
  pub rcvfd : Bool
  pub sndfd : Bool

-- An end and its `peer`.
pub record Ends : Type 0 where
  pub self : Sinproc
  pub peer : Option Sinproc

-- The limit for the queue of an end.
abbrev pub maxmem_of : ℕ → ℕ
maxmem_of rcvbuf = if rcvbuf == 0 then 2 ^ 20 else rcvbuf

-- `mb_sinproc_create`.
abbrev pub create : ℕ → Option ℕ → Sinproc
create rcvbuf rcvmaxsize = record {
  msgqueue = Msgqueue.init (maxmem_of rcvbuf);
  rcvbuf = rcvbuf;
  rcvmaxsize = rcvmaxsize;
  rcvfd = false;
  sndfd = false;
}

-- `mb_sinproc_sync_maxmem`.
abbrev pub sync_maxmem : Sinproc → Sinproc
sync_maxmem s = record s { msgqueue = Msgqueue.set_maxmem s.msgqueue (maxmem_of s.rcvbuf) }

-- `mb_sock_msg_too_large` of src/core/sock.c.
abbrev pub msg_too_large : Option ℕ → ℕ → Bool
msg_too_large none size = false
msg_too_large (some limit) size = ltb limit size

-- What follows the push into the peer's queue. A positive result says that the queue was empty.
abbrev pub pushed : Ends → Sinproc → Rc × Queue × Msg → Rc × Ends × Msg
pushed l p (err e, q, m) = (err e, record l { peer = some (record p { msgqueue = q }) }, m)
pushed l p (ok zero, q, m) = (ok 0, record l { peer = some (record p { msgqueue = q }) }, m)
pushed l p (ok (suc n), q, m) =
    (ok 0, record l { peer = some (record p { msgqueue = q; rcvfd = true }) }, m)

abbrev pub send_to : Bool → Bool → Msg → Ends → Option Sinproc → Rc × Ends × Msg
send_to first_ok next_ok m l none = (err eagain, l, m)
send_to first_ok next_ok m l (some p) =
    let size = body_size m in
    let q = (sync_maxmem p).msgqueue in
    if msg_too_large l.self.rcvmaxsize size || msg_too_large p.rcvmaxsize size
    then (err emsgsize, l, m)
    else pushed l (sync_maxmem p) (Msgqueue.push first_ok next_ok q m)

-- `mb_sinproc_send`. The Booleans are the allocations of `Msgqueue.push`.
unfoldable pub send : Bool → Bool → Msg → Ends → Rc × Ends × Msg
send first_ok next_ok m l = send_to first_ok next_ok m l l.peer

-- `mb_sinproc_has_msg`.
abbrev pub has_msg : Ends → Bool
has_msg l = not (Msgqueue.empty l.self.msgqueue)

abbrev pub can_send_to : Ends → Option Sinproc → Bool × Ends
can_send_to l none = (false, l)
can_send_to l (some p) =
    let p' = sync_maxmem p in (Msgqueue.can_push p'.msgqueue, record l { peer = some p' })

-- `mb_sinproc_can_send`.
unfoldable pub can_send : Ends → Bool × Ends
can_send l = can_send_to l l.peer

-- The peer's descriptor is signalled when the queue has room again.
abbrev pub woken : Bool → Option Sinproc → Option Sinproc
woken room none = none
woken room (some p) = some (if room then record p { sndfd = true } else p)

abbrev pub popped : Ends → Option (Queue × Msg) → Option (Rc × Ends × Msg)
popped l none = none
popped l (some (q, m)) =
    let left = record l.self { msgqueue = q; rcvfd = not (Msgqueue.empty q) } in
    let s = sync_maxmem left in
    some (ok 0, record { self = s; peer = woken (Msgqueue.can_push s.msgqueue) l.peer }, m)

-- `mb_sinproc_recv`, into the message `m`; `none` as for `Msgqueue.pop`.
unfoldable pub recv : Msg → Ends → Option (Rc × Ends × Msg)
recv m l =
    let rest = popped l (Msgqueue.pop l.self.msgqueue m) in
    if Msgqueue.empty l.self.msgqueue then some (err eagain, l, m) else rest

-- `mb_sinproc_on_rcvbuf` without the descriptor of the peer's socket, which sock.c recomputes.
abbrev pub on_rcvbuf : Ends → Ends
on_rcvbuf l = record l { self = sync_maxmem l.self }
