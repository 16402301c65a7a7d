-- ===== src/Transport/Sipc.antt =====
-- src/transport/ipc/sipc.c: one end of a connection over a stream, for ipc and tcp, as a pipe of its
-- socket. A message goes as its size in four bytes and its body.
pub mod Calls
pub mod Out
pub mod Owed
pub mod Send
pub mod In
pub mod Coming
pub mod Body
pub mod Recv
pub mod Course
pub mod Channel
mod Tests
use msgbroker.Prelude.{
  ℕ, zero, suc, ◌+◌, ◌-◌, ◌^◌, Bool, true, false, not, ◌&&◌, ◌||◌, Option, none, some, List, [],
  ◌∷◌, ◌++◌, length, drop, ltb, leb, add64, word32, if◌then◌else◌,
}
use msgbroker.Prelude.{◌%◌}
use msgbroker.Errno.{Errno, Rc, ok, err, eagain, enomem, is_eagain}
use msgbroker.Memory.Msg.{Msg, empty_msg, body_size}
use msgbroker.Core.Pipe.{Answer, yields, refuses}
use msgbroker.Utils.Wire.{put_uint32, get_uint32}
use msgbroker.Transport.Sinproc.{emsgsize, msg_too_large}
use msgbroker.Transport.Stream.{
  Stream, Polled, quiet, other_events, ready, after_send, after_recv, econnreset, etimedout,
}

pub data Instate : Type 0 where
  hdr in_body hasmsg : Instate

abbrev pub hdr_size : ℕ
hdr_size = 4

abbrev pub int_max : ℕ
int_max = 2 ^ 31 - 1

-- `struct mb_sipc`, with what it uses of its socket. `inhdr` and `inmsg` are the bytes that have come
-- of the header and of the body, so that `inpos` is the length of the one or of the other; `fd` is
-- whether the descriptor is there, `active` whether the state of the pipe is MB_PIPEBASE_STATE_ACTIVE,
-- and `on_error` whether there is a callback. An option that is not positive is 0 (`hwm`, `linger`),
-- and `none` stands for a negative `rcvmaxsize`.
pub record Sipc : Type 0 where
  pub fd : Bool
  pub active : Bool
  pub inhdr : List ℕ
  pub inmsg : List ℕ
  pub inlen : ℕ
  pub instate : Instate
  pub outbuf : Option (List ℕ)
  pub outpos : ℕ
  pub in_flight : ℕ
  pub disconnected : Bool
  pub on_error : Bool
  pub hwm : ℕ
  pub rcvmaxsize : Option ℕ
  pub linger : ℕ
  pub dropped : ℕ
  pub queue_full : ℕ
  pub linger_outcome : ℕ

-- `mb_sipc_create` on an open descriptor, with the options of the socket.
abbrev pub create : ℕ → Option ℕ → ℕ → Sipc
create hwm rcvmaxsize linger = record {
  fd = true;
  active = false;
  inhdr = [];
  inmsg = [];
  inlen = 0;
  instate = hdr;
  outbuf = none;
  outpos = 0;
  in_flight = 0;
  disconnected = false;
  on_error = false;
  hwm = hwm;
  rcvmaxsize = rcvmaxsize;
  linger = linger;
  dropped = 0;
  queue_full = 0;
  linger_outcome = 0;
}

-- `mb_sipc_set_on_error` with a callback.
abbrev pub set_on_error : Sipc → Sipc
set_on_error s = record s { on_error = true }

abbrev pub has_outbuf : Option (List ℕ) → Bool
has_outbuf none = false
has_outbuf (some buf) = true

-- The two counters that a send counts up when it gives up for want of room.
abbrev pub count_drop : Sipc → Sipc
count_drop s = record s { dropped = add64 s.dropped 1; queue_full = add64 s.queue_full 1 }

-- What goes on the wire for a message.
abbrev pub frame : List ℕ → List ℕ
frame body = put_uint32 (length body % word32) ++ body

-- The message is handed over, and the next header is awaited.
abbrev pub hand_over : Sipc → Sipc
hand_over s = record s { inhdr = []; inmsg = []; instate = hdr }

-- The callback `on_error` belongs to the endpoint; it may stop the session that calls it.
module _ {W : Type 0} (os : Stream W) (callback : Sipc → W → Sipc × W) where
  -- `mb_sipc_send_fd`. The fuel is the number of bytes, and each round sends one at least.
  unfoldable pub send_fd : ℕ → List ℕ → ℕ → W → Rc × W
  send_fd f [] sent w = (ok sent, w)
  send_fd zero (b ∷ bs) sent w = (ok sent, w)
  send_fd (suc f) (b ∷ bs) sent w =
      after_send (λ n w'. send_fd f (drop n bs) (sent + suc n) w') sent (os.send (b ∷ bs) w)

  -- `mb_sipc_recv_fd` of `len` bytes, after the bytes in `bytes`. The fuel is `len`, of which each
  -- round takes one at least.
  unfoldable pub recv_fd : ℕ → ℕ → List ℕ → W → Answer (List ℕ) × W
  recv_fd f zero bytes w = (yields bytes, w)
  recv_fd zero (suc len) bytes w = (yields bytes, w)
  recv_fd (suc f) (suc len) bytes w =
      after_recv (λ bs w'. recv_fd f (suc len - length bs) (bytes ++ bs) w') bytes
        (os.recv (suc len) w)

  unfoldable pub sync_bufs : Sipc → W → W
  sync_bufs s w = if not s.fd || s.disconnected then w else os.apply_bufs w

  unfoldable pub report_error : Sipc → W → Sipc × W
  report_error s w =
      if s.disconnected
      then (s, w)
      else if s.on_error
      then callback (record s { disconnected = true; on_error = false }) w
      else (record s { disconnected = true; on_error = false }, w)

  abbrev pub after_raw : (ℕ → W → Rc × ℕ × W) → ℕ → Rc × W → Rc × ℕ × W
  after_raw next pos (ok n, w) = next n w
  after_raw next pos (err e, w) = (err e, pos, w)

  -- The loop of `mb_sipc_flush_outbuf` over the bytes that are left of the buffer, from `outpos`. The
  -- fuel is their number, and each round sends one at least.
  unfoldable pub flush_from : ℕ → List ℕ → ℕ → W → Rc × ℕ × W
  flush_from f [] pos w = (ok 0, pos, w)
  flush_from zero (b ∷ bs) pos w = (ok 0, pos, w)
  flush_from (suc f) (b ∷ bs) pos w =
      after_raw (λ n w'. flush_from f (drop n (b ∷ bs)) (pos + n) w') pos
        (send_fd (suc (length bs)) (b ∷ bs) 0 w)

  -- With the error that is reported after the lock is released.
  abbrev pub failed : Errno → Sipc × W → Rc × Sipc × W
  failed e (s, w) = (err e, s, w)

  abbrev pub flushed : Sipc → Rc × ℕ × W → Rc × Sipc × W
  flushed s (ok n, pos, w) =
      (ok 0, record s { outbuf = none; outpos = 0; in_flight = s.in_flight - 1 }, w)
  flushed s (err e, pos, w) =
      if is_eagain (err e)
      then (err e, record s { outpos = pos }, w)
      else failed e (report_error (record s { outpos = pos }) w)

  abbrev pub flush_buf : Sipc → Option (List ℕ) → W → Rc × Sipc × W
  flush_buf s none w = (ok 0, s, w)
  flush_buf s (some buf) w =
      if not s.fd
      then (err econnreset, s, w)
      else (let rest = drop s.outpos buf in flushed s (flush_from (length rest) rest s.outpos w))

  unfoldable pub flush_outbuf : Sipc → W → Rc × Sipc × W
  flush_outbuf s w = flush_buf s s.outbuf w

  abbrev pub is_ready : Polled → Bool
  is_ready quiet = false
  is_ready other_events = false
  is_ready ready = true

  abbrev pub can_receive : Rc × Sipc × W → Bool × Sipc × W
  can_receive (rc, s, w) =
      let (p, w') = os.poll_in w in
      elim rc [
        | ok n ↦ (is_ready p, s, w')
        | err e ↦ if is_eagain (err e) then (is_ready p, s, w') else (false, s, w)
      ]

  -- `mb_sipc_has_msg`.
  abbrev pub has_msg : Sipc → W → Bool × Sipc × W
  has_msg s w = elim s.instate [
    | hasmsg ↦ (true, s, w)
    | _ ↦
        if not s.fd || s.disconnected
        then (false, s, w)
        else can_receive (flush_outbuf s (sync_bufs s w))
  ]

  abbrev pub emptied : Rc × Sipc × W → Bool × Sipc × W
  emptied (ok n, s, w) = (not (has_outbuf s.outbuf), s, w)
  emptied (err e, s, w) = (if is_eagain (err e) then not (has_outbuf s.outbuf) else false, s, w)

  abbrev pub writable : Sipc → Polled × W → Bool × Sipc × W
  writable s (p, w) = if is_ready p then emptied (flush_outbuf s w) else (false, s, w)

  -- `mb_sipc_can_send`.
  abbrev pub can_send : Sipc → W → Bool × Sipc × W
  can_send s w =
      if not s.fd || s.disconnected
      then (false, s, w)
      else if has_outbuf s.outbuf
      then writable s (os.poll_out 0 (sync_bufs s w))
      else (true, s, sync_bufs s w)
