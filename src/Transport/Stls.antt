-- ===== src/Transport/Stls.antt =====
-- src/transport/tls/stls.c: one end of a TLS connection, as a pipe of its socket. The text is that of
-- the session of ipc but for the calls of OpenSSL, and so is the model: the state is that of Sipc, in
-- which `fd` says whether `ssl` is there, and the functions that do not differ are those of Sipc over
-- the descriptor `over`.
pub mod Recv
mod Tests
use msgbroker.Prelude.{
  ℕ, zero, suc, ◌+◌, ◌-◌, Bool, true, false, not, ◌&&◌, ◌||◌, Option, none, some, List, [], ◌∷◌,
  ◌++◌, length, ltb, ◌==◌, if◌then◌else◌,
}
use msgbroker.Errno.{Errno, Rc, ok, err, eagain, enomem, is_eagain}
use msgbroker.Memory.Msg.{Msg}
use msgbroker.Core.Pipe.{Answer, yields, refuses}
use msgbroker.Utils.Wire.{get_uint32}
use msgbroker.Transport.Sinproc.{emsgsize, msg_too_large}
use msgbroker.Transport.Stream.{Stream, Taken, took, unsent, Got, got, at_end, unread, econnreset}
use msgbroker.Transport.Sws.{
  SslGot, ssl_got, zero_return, read_want, read_failed, SslTaken, as_taken,
}
use msgbroker.Transport.Sipc.{
  Sipc, Instate, hdr, in_body, hasmsg, hdr_size, int_max, has_outbuf, is_ready, recv_fd, sync_bufs,
  report_error, flush_outbuf, emptied, writable,
}
use msgbroker.Transport.Sipc
use msgbroker.Transport.Sipc.Calls.{broken, misread, read_body, delivered, linger_from, outcome}
use msgbroker.Transport.Sipc.Calls

-- What the session calls: the descriptor, and OpenSSL.
pub record Tls (W : Type 0) : Type 0 where
  pub os : Stream W
  pub ssl_read : ℕ → W → SslGot × W
  pub ssl_write : List ℕ → W → SslTaken × W
  -- Whether SSL_pending is positive, and SSL_get_fd not negative; `SSL_shutdown` and `SSL_free`.
  pub ssl_pending : W → Bool
  pub ssl_get_fd : W → Bool
  pub ssl_free : W → W

-- A read that fails for good is -ECONNRESET, also after some bytes.
abbrev pub read_as : SslGot → Got
read_as (ssl_got b bs) = got b bs
read_as zero_return = at_end
read_as read_want = unread eagain
read_as read_failed = unread econnreset

module _ {W : Type 0} (tls : Tls W) where
  abbrev pub over : Stream W
  over = record tls.os {
    send = λ bytes w. let (r, w') = tls.ssl_write bytes w in (as_taken r, w');
    recv = λ n w. let (r, w') = tls.ssl_read n w in (read_as r, w');
  }

-- `mb_stls_create` on a TLS connection.
abbrev pub create : ℕ → Option ℕ → ℕ → Sipc
create = Sipc.create

abbrev pub set_on_error : Sipc → Sipc
set_on_error = Sipc.set_on_error

module _ {W : Type 0} (tls : Tls W) (callback : Sipc → W → Sipc × W) where
  -- `mb_stls_send_ssl` and `mb_stls_recv_ssl`.
  abbrev pub send_ssl : ℕ → List ℕ → ℕ → W → Rc × W
  send_ssl = Sipc.send_fd (over tls) callback

  abbrev pub recv_ssl : ℕ → ℕ → List ℕ → W → Answer (List ℕ) × W
  recv_ssl = recv_fd (over tls) callback

  abbrev pub stls_flush : Sipc → W → Rc × Sipc × W
  stls_flush = flush_outbuf (over tls) callback

  abbrev pub stls_report : Sipc → W → Sipc × W
  stls_report = report_error (over tls) callback

  abbrev pub look : Sipc → W → Bool × Sipc × W
  look s w =
      if tls.ssl_pending w
      then (true, s, w)
      else if not (tls.ssl_get_fd w)
      then (false, s, w)
      else (let (p, w') = tls.os.poll_in w in (is_ready (over tls) callback p, s, w'))

  abbrev pub can_receive : Rc × Sipc × W → Bool × Sipc × W
  can_receive (ok n, s, w) = look s w
  can_receive (err e, s, w) = if is_eagain (err e) then look s w else (false, s, w)

  -- `mb_stls_has_msg`.
  abbrev pub has_msg : Sipc → W → Bool × Sipc × W
  has_msg s w = elim s.instate [
    | hasmsg ↦ (true, s, w)
    | _ ↦
        if not s.fd || s.disconnected
        then (false, s, w)
        else can_receive (stls_flush s (sync_bufs (over tls) callback s w))
  ]

  abbrev pub try_write : Sipc → W → Bool × Sipc × W
  try_write s w =
      if not (tls.ssl_get_fd w)
      then (false, s, w)
      else writable (over tls) callback s (tls.os.poll_out 0 w)

  -- `mb_stls_can_send`.
  abbrev pub can_send : Sipc → W → Bool × Sipc × W
  can_send s w =
      if not s.fd || s.disconnected
      then (false, s, w)
      else if has_outbuf s.outbuf
      then try_write s (sync_bufs (over tls) callback s w)
      else (true, s, sync_bufs (over tls) callback s w)

  -- `mb_stls_send`.
  abbrev pub send : Msg → Sipc → W → Rc × Msg × Sipc × W
  send = Calls.send (over tls) callback

  -- Without memory for the body the session is back at the beginning of a header.
  abbrev pub sized : Sipc → ℕ → Bool × W → Answer Msg × Sipc × W
  sized s size (false, w) =
      broken (over tls) callback enomem
        (stls_report (record s { inhdr = []; inmsg = []; inlen = size }) w)
  sized s size (true, w) =
      read_body (over tls) callback (record s { inmsg = []; inlen = size; instate = in_body }) w

  abbrev pub hdr_done : Sipc → ℕ → W → Answer Msg × Sipc × W
  hdr_done s size w =
      if ltb int_max size || msg_too_large s.rcvmaxsize size
      then broken (over tls) callback emsgsize (stls_report s w)
      else sized s size (tls.os.alloc size w)

  abbrev pub hdr_read : Sipc → Answer (List ℕ) × W → Answer Msg × Sipc × W
  hdr_read s (refuses e, w) = misread (over tls) callback e s w
  hdr_read s (yields bytes, w) =
      let s' = record s { inhdr = s.inhdr ++ bytes } in
      if ltb (length s'.inhdr) hdr_size
      then (refuses eagain, s', w)
      else hdr_done s' (get_uint32 s'.inhdr) w

  abbrev pub read_hdr : Sipc → W → Answer Msg × Sipc × W
  read_hdr s w = let left = hdr_size - length s.inhdr in hdr_read s (recv_ssl left left [] w)

  abbrev pub recv_in : Instate → Sipc → W → Answer Msg × Sipc × W
  recv_in hasmsg s w = delivered (over tls) callback s w
  recv_in hdr s w = read_hdr s w
  recv_in in_body s w = read_body (over tls) callback s w

  abbrev pub recv_after : Rc × Sipc × W → Answer Msg × Sipc × W
  recv_after (ok n, s, w) = recv_in s.instate s w
  recv_after (err e, s, w) = if is_eagain (err e) then recv_in s.instate s w else (refuses e, s, w)

  -- `mb_stls_recv`.
  unfoldable pub recv : Sipc → W → Answer Msg × Sipc × W
  recv s w =
      if not s.fd
      then broken (over tls) callback econnreset (stls_report s w)
      else recv_after (stls_flush s (sync_bufs (over tls) callback s w))

  -- `mb_stls_start`.
  abbrev pub start : Sipc → W → Rc × Sipc × W
  start = Calls.start (over tls) callback

  -- `mb_stls_linger_flush`.
  abbrev pub linger_flush : ℕ → Sipc → W → Option (Rc × Sipc × W)
  linger_flush fuel s w =
      if not (has_outbuf s.outbuf) || not s.fd || s.linger == 0 || not (tls.ssl_get_fd w)
      then some (ok 0, s, w)
      else linger_from (over tls) callback fuel s (tls.os.clock_ms w)

  -- The descriptor is asked for before the connection is freed.
  abbrev pub freed : W → W
  freed w = if tls.ssl_get_fd w then tls.os.close (tls.ssl_free w) else tls.ssl_free w

  abbrev pub closed : Option (Rc × Sipc × W) → Option (Sipc × W)
  closed none = none
  closed (some (rc, s, w)) = some (
    record s {
      linger_outcome = outcome (over tls) callback rc;
      outbuf = none;
      outpos = 0;
      fd = false;
    },
    if s.fd then freed w else w,
  )

  -- `mb_stls_stop`.
  unfoldable pub stop : ℕ → Sipc → W → Option (Sipc × W)
  stop fuel s w = closed (
      linger_flush fuel (record s { active = false })
        (if s.active then tls.os.pipebase_stop w else w))

  -- `mb_stls_term`.
  abbrev pub term : Sipc → W → Sipc × W
  term s w = (record s { inmsg = []; outbuf = none; fd = false }, if s.fd then freed w else w)
