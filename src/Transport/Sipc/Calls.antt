-- ===== src/Transport/Sipc/Calls.antt =====
-- sipc.c: mb_sipc_send, mb_sipc_recv and mb_sipc_stop.
use msgbroker.Prelude.{
  ℕ, zero, suc, ◌+◌, ◌-◌, Bool, true, false, not, ◌&&◌, ◌||◌, Option, none, some, List, [], ◌++◌,
  length, ltb, leb, ◌==◌, if◌then◌else◌,
}
use msgbroker.Errno.{Errno, Rc, ok, err, eagain, enomem, is_eagain}
use msgbroker.Memory.Msg.{Msg, empty_msg, body_size}
use msgbroker.Core.Pipe.{Answer, yields, refuses}
use msgbroker.Utils.Wire.{get_uint32}
use msgbroker.Transport.Sinproc.{emsgsize, msg_too_large}
use msgbroker.Transport.Stream.{Stream, Polled, quiet, other_events, ready, econnreset, etimedout}
use msgbroker.Transport.Sipc.{
  Sipc, Instate, hdr, in_body, hasmsg, hdr_size, int_max, has_outbuf, count_drop, frame, hand_over,
  recv_fd, sync_bufs, report_error, flush_outbuf,
}

-- A full wire is counted as a drop when the user has set a high-water mark.
abbrev pub count_full : Errno → Sipc → Sipc
count_full e s = if is_eagain (err e) && ltb 0 s.hwm then count_drop s else s

abbrev pub body_msg : List ℕ → Msg
body_msg bytes = record empty_msg { body = bytes }

module _ {W : Type 0} (os : Stream W) (callback : Sipc → W → Sipc × W) where
  -- Once the message is in the buffer, -EAGAIN only says that the wire is not done with it.
  abbrev pub accepted : Rc × Sipc × W → Rc × Msg × Sipc × W
  accepted (rc, s, w) = (if is_eagain rc then ok 0 else rc, empty_msg, s, w)

  abbrev pub stored : Msg → Sipc → Bool × W → Rc × Msg × Sipc × W
  stored m s (false, w) = (err enomem, m, s, w)
  stored m s (true, w) = accepted (
      flush_outbuf os callback
        (record s { outbuf = some (frame m.body); outpos = 0; in_flight = suc s.in_flight }) w)

  abbrev pub accept : Msg → Sipc → W → Rc × Msg × Sipc × W
  accept m s w =
      if msg_too_large s.rcvmaxsize (body_size m) || ltb (int_max - hdr_size) (body_size m)
      then (err emsgsize, m, s, w)
      else if ltb 0 s.hwm && leb s.hwm s.in_flight
      then (err eagain, m, count_drop s, w)
      else stored m s (os.alloc (hdr_size + body_size m) w)

  abbrev pub send_after : Msg → Rc × Sipc × W → Rc × Msg × Sipc × W
  send_after m (ok n, s, w) = accept m s w
  send_after m (err e, s, w) = (err e, m, count_full e s, w)

  abbrev pub unsendable : Msg → Sipc × W → Rc × Msg × Sipc × W
  unsendable m (s, w) = (err econnreset, m, s, w)

  -- `mb_sipc_send`: the code, what is left in the caller's message, and the new state.
  unfoldable pub send : Msg → Sipc → W → Rc × Msg × Sipc × W
  send m s w =
      if not s.fd
      then unsendable m (report_error os callback s w)
      else send_after m (flush_outbuf os callback s (sync_bufs os callback s w))

  abbrev pub delivered : Sipc → W → Answer Msg × Sipc × W
  delivered s w = (yields (body_msg s.inmsg), hand_over s, w)

  abbrev pub broken : Errno → Sipc × W → Answer Msg × Sipc × W
  broken e (s, w) = (refuses e, s, w)

  -- The end of a read that fails.
  abbrev pub misread : Errno → Sipc → W → Answer Msg × Sipc × W
  misread e s w =
      if is_eagain (err e) then (refuses e, s, w) else broken e (report_error os callback s w)

  abbrev pub body_read : Sipc → Answer (List ℕ) × W → Answer Msg × Sipc × W
  body_read s (refuses e, w) = misread e s w
  body_read s (yields bytes, w) =
      let s' = record s { inmsg = s.inmsg ++ bytes } in
      if ltb (length s'.inmsg) s.inlen
      then (refuses eagain, s', w)
      else delivered (record s' { instate = hasmsg }) w

  abbrev pub read_body : Sipc → W → Answer Msg × Sipc × W
  read_body s w =
      let left = s.inlen - length s.inmsg in
      if ltb 0 s.inlen
      then body_read s (recv_fd os callback left left [] w)
      else delivered (record s { instate = hasmsg }) w

  abbrev pub sized : Sipc → ℕ → Bool × W → Answer Msg × Sipc × W
  sized s size (false, w) = broken enomem (report_error os callback (record s { inmsg = [] }) w)
  sized s size (true, w) = read_body (record s { inmsg = []; inlen = size; instate = in_body }) w

  abbrev pub hdr_done : Sipc → ℕ → W → Answer Msg × Sipc × W
  hdr_done s size w =
      if ltb int_max size || msg_too_large s.rcvmaxsize size
      then broken emsgsize (report_error os callback s w)
      else sized s size (os.alloc size w)

  abbrev pub hdr_read : Sipc → Answer (List ℕ) × W → Answer Msg × Sipc × W
  hdr_read s (refuses e, w) = misread e s w
  hdr_read s (yields bytes, w) =
      let s' = record s { inhdr = s.inhdr ++ bytes } in
      if ltb (length s'.inhdr) hdr_size
      then (refuses eagain, s', w)
      else hdr_done s' (get_uint32 s'.inhdr) w

  abbrev pub read_hdr : Sipc → W → Answer Msg × Sipc × W
  read_hdr s w =
      let left = hdr_size - length s.inhdr in hdr_read s (recv_fd os callback left left [] w)

  abbrev pub read_on : Instate → Sipc → W → Answer Msg × Sipc × W
  read_on hdr s w = read_hdr s w
  read_on in_body s w = read_body s w
  read_on hasmsg s w = delivered s w

  abbrev pub polled : Sipc → Polled × W → Answer Msg × Sipc × W
  polled s (quiet, w) = (refuses eagain, s, w)
  polled s (other_events, w) = read_on s.instate s w
  polled s (ready, w) = read_on s.instate s w

  abbrev pub recv_in : Instate → Sipc → W → Answer Msg × Sipc × W
  recv_in hasmsg s w = delivered s w
  recv_in hdr s w = polled s (os.poll_in w)
  recv_in in_body s w = polled s (os.poll_in w)

  abbrev pub recv_state : Sipc → W → Answer Msg × Sipc × W
  recv_state s w = recv_in s.instate s w

  abbrev pub recv_after : Rc × Sipc × W → Answer Msg × Sipc × W
  recv_after (ok n, s, w) = recv_state s w
  recv_after (err e, s, w) = if is_eagain (err e) then recv_state s w else (refuses e, s, w)

  -- `mb_sipc_recv`.
  unfoldable pub recv : Sipc → W → Answer Msg × Sipc × W
  recv s w =
      if not s.fd
      then broken econnreset (report_error os callback s w)
      else recv_after (flush_outbuf os callback s (sync_bufs os callback s w))

  abbrev pub started : Sipc → Rc × W → Rc × Sipc × W
  started s (ok n, w) = (ok n, record s { active = true }, w)
  started s (err e, w) = (err e, s, w)

  -- `mb_sipc_start`, on a session that is not active.
  abbrev pub start : Sipc → W → Rc × Sipc × W
  start s w = started s (os.pipebase_start w)

  abbrev pub settled : Sipc → Rc
  settled s = if has_outbuf s.outbuf then err etimedout else ok 0

  abbrev pub lingered : (Sipc → W → Option (Rc × Sipc × W)) → Rc × Sipc × W → Option (Rc × Sipc × W)
  lingered next (ok n, s, w) = some (settled s, s, w)
  lingered next (err e, s, w) = if is_eagain (err e) then next s w else some (settled s, s, w)

  abbrev pub waited :
      (Sipc → W → Option (Rc × Sipc × W)) → Sipc → Polled × W → Option (Rc × Sipc × W)
  waited next s (p, w) = elim p [
    | quiet ↦ some (err etimedout, s, w)
    | _ ↦ lingered next (flush_outbuf os callback s w)
  ]

  abbrev pub linger_round :
      (Sipc → W → Option (Rc × Sipc × W)) → ℕ → Sipc → ℕ × W → Option (Rc × Sipc × W)
  linger_round next deadline s (now, w) =
      if leb deadline now
      then some (err etimedout, s, w)
      else waited next s (os.poll_out (deadline - now) w)

  -- The loop of `mb_sipc_linger_flush`, for `fuel` rounds at most: `none` says that they were too few.
  unfoldable pub linger_loop : ℕ → ℕ → Sipc → W → Option (Rc × Sipc × W)
  linger_loop zero deadline s w = none
  linger_loop (suc f) deadline s w =
      if has_outbuf s.outbuf
      then linger_round (λ s' w'. linger_loop f deadline s' w') deadline s (os.clock_ms w)
      else some (ok 0, s, w)

  abbrev pub linger_from : ℕ → Sipc → ℕ × W → Option (Rc × Sipc × W)
  linger_from fuel s (now, w) = linger_loop fuel (now + s.linger) s w

  unfoldable pub linger_flush : ℕ → Sipc → W → Option (Rc × Sipc × W)
  linger_flush fuel s w =
      if not (has_outbuf s.outbuf) || not s.fd || s.linger == 0
      then some (ok 0, s, w)
      else linger_from fuel s (os.clock_ms w)

  abbrev pub outcome : Rc → ℕ
  outcome (ok n) = 1
  outcome (err e) = 2

  abbrev pub closed : Option (Rc × Sipc × W) → Option (Sipc × W)
  closed none = none
  closed (some (rc, s, w)) = some (
    record s { linger_outcome = outcome rc; outbuf = none; outpos = 0; fd = false },
    if s.fd then os.close w else w,
  )

  -- `mb_sipc_stop`.
  unfoldable pub stop : ℕ → Sipc → W → Option (Sipc × W)
  stop fuel s w =
      closed (
        linger_flush fuel (record s { active = false })
          (if s.active then os.pipebase_stop w else w))

  -- `mb_sipc_term`.
  abbrev pub term : Sipc → W → Sipc × W
  term s w = (record s { inmsg = []; outbuf = none; fd = false }, if s.fd then os.close w else w)
