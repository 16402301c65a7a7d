-- ===== src/Transport/Sws/Out.antt =====
-- sws.c: what a session writes.
use msgbroker.Prelude.{
  ℕ, zero, suc, ◌+◌, ◌-◌, ◌%◌, Bool, true, false, not, ◌&&◌, ◌||◌, Option, none, some, List, [],
  ◌∷◌, ◌++◌, length, drop, ltb, leb, add64, word32, if◌then◌else◌,
}
use msgbroker.Errno.{Errno, Rc, ok, err, eagain, enomem, is_eagain}
use msgbroker.Memory.Msg.{Msg, empty_msg, body_size}
use msgbroker.Utils.Wire.{put_uint32}
use msgbroker.Transport.Sinproc.{emsgsize, msg_too_large}
use msgbroker.Transport.Stream.{Polled, quiet, other_events, ready, after_send, econnreset}
use msgbroker.Transport.Sws.{Sws, hasmsg, Web, do_send, build_frame, opcode_binary, opcode_pong}

abbrev pub has_outbuf : Sws → Bool
has_outbuf s = elim s.outbuf [ none ↦ false | some buf ↦ true ]

-- The two counters that a send counts up when it gives up for want of room.
abbrev pub count_drop : Sws → Sws
count_drop s = record s { dropped = add64 s.dropped 1; queue_full = add64 s.queue_full 1 }

abbrev pub count_full : Errno → Sws → Sws
count_full e s = if is_eagain (err e) && ltb 0 s.hwm then count_drop s else s

-- The payload of the frame for a message.
abbrev pub payload_of : List ℕ → List ℕ
payload_of body = put_uint32 (length body % word32) ++ body

abbrev pub no_outbuf : Sws → Sws
no_outbuf s = record s { outbuf = none; outpos = 0 }

-- The callback `on_error` belongs to the endpoint; it may stop the session that calls it.
module _ {W : Type 0} (web : Web W) (callback : Sws → W → Sws × W) where
  -- `mb_sws_send_raw`. The fuel is the number of bytes, and each round sends one at least.
  unfoldable pub send_raw : ℕ → Sws → List ℕ → ℕ → W → Rc × W
  send_raw f s [] sent w = (ok sent, w)
  send_raw zero s (b ∷ bs) sent w = (ok sent, w)
  send_raw (suc f) s (b ∷ bs) sent w =
      after_send (λ n w'. send_raw f s (drop n bs) (sent + suc n) w') sent
        (do_send web s (b ∷ bs) w)

  -- A loop over `mb_sws_send_raw`, from the place `pos` on. The fuel is the number of bytes left, and
  -- each round sends one at least.
  abbrev pub after_raw : (ℕ → W → Rc × ℕ × W) → ℕ → Rc × W → Rc × ℕ × W
  after_raw next pos (ok n, w) = next n w
  after_raw next pos (err e, w) = (err e, pos, w)

  unfoldable pub send_from : ℕ → Sws → List ℕ → ℕ → W → Rc × ℕ × W
  send_from f s [] pos w = (ok 0, pos, w)
  send_from zero s (b ∷ bs) pos w = (ok 0, pos, w)
  send_from (suc f) s (b ∷ bs) pos w =
      after_raw (λ n w'. send_from f s (drop n (b ∷ bs)) (pos + n) w') pos
        (send_raw (suc (length bs)) s (b ∷ bs) 0 w)

  -- `mb_sws_send_all`.
  abbrev pub send_all : Sws → List ℕ → W → Rc × W
  send_all s bytes w = let (rc, pos, w') = send_from (length bytes) s bytes 0 w in (rc, w')

  abbrev pub send_built : Sws → Option (List ℕ) × W → Rc × W
  send_built s (none, w) = (err enomem, w)
  send_built s (some bytes, w) = send_all s bytes w

  -- `mb_sws_send_frame`; `mb_sws_send_pong` is this with the opcode of a pong.
  unfoldable pub send_frame : Sws → ℕ → List ℕ → W → Rc × W
  send_frame s opcode payload w = send_built s (build_frame web s.is_client opcode payload w)

  unfoldable pub sync_bufs : Sws → W → W
  sync_bufs s w = if s.disconnected then w else web.os.apply_bufs w

  unfoldable pub report_error : Sws → W → Sws × W
  report_error s w =
      if s.disconnected
      then (s, w)
      else if s.on_error
      then callback (record s { disconnected = true; on_error = false }) w
      else (record s { disconnected = true; on_error = false }, w)

  abbrev pub failed : Errno → Sws × W → Rc × Sws × W
  failed e (s, w) = (err e, s, w)

  abbrev pub flushed : Sws → Rc × ℕ × W → Rc × Sws × W
  flushed s (ok n, pos, w) = (ok 0, record (no_outbuf s) { in_flight = s.in_flight - 1 }, w)
  flushed s (err e, pos, w) =
      if is_eagain (err e)
      then (err e, record s { outpos = pos }, w)
      else failed e (report_error (record s { outpos = pos }) w)

  abbrev pub flush_buf : Sws → Option (List ℕ) → W → Rc × Sws × W
  flush_buf s none w = (ok 0, s, w)
  flush_buf s (some buf) w =
      if not s.fd && not s.ssl
      then (err econnreset, s, w)
      else (let rest = drop s.outpos buf in flushed s (send_from (length rest) s rest s.outpos w))

  -- `mb_sws_flush_outbuf`.
  unfoldable pub flush_outbuf : Sws → W → Rc × Sws × W
  flush_outbuf s w = flush_buf s s.outbuf w

  abbrev pub no_pong : Sws → Sws
  no_pong s = record s { pending_pong = false; pong_buf = [] }

  abbrev pub ponged : Sws → Rc × W → Rc × Sws × W
  ponged s (ok n, w) = (ok 0, no_pong s, w)
  ponged s (err e, w) =
      if is_eagain (err e) then (err e, s, w) else failed e (report_error (no_pong s) w)

  -- `mb_sws_flush_pending_pong`.
  unfoldable pub flush_pending_pong : Sws → W → Rc × Sws × W
  flush_pending_pong s w =
      if s.pending_pong then ponged s (send_frame s opcode_pong s.pong_buf w) else (ok 0, s, w)

  -- Once the frame is in the buffer, -EAGAIN only says that the wire is not done with it.
  abbrev pub accepted : Rc × Sws × W → Rc × Msg × Sws × W
  accepted (ok n, s, w) = let (rc, s', w') = flush_pending_pong s w in (ok 0, empty_msg, s', w')
  accepted (err e, s, w) = (if is_eagain (err e) then ok 0 else err e, empty_msg, s, w)

  abbrev pub framed : Msg → Sws → Option (List ℕ) × W → Rc × Msg × Sws × W
  framed m s (none, w) = (err enomem, m, s, w)
  framed m s (some bytes, w) =
      accepted
        (flush_outbuf (record s { outbuf = some bytes; outpos = 0; in_flight = suc s.in_flight }) w)

  abbrev pub packed : Msg → Sws → Bool × W → Rc × Msg × Sws × W
  packed m s (false, w) = (err enomem, m, s, w)
  packed m s (true, w) =
      if ltb 0 s.hwm && leb s.hwm s.in_flight
      then (err eagain, m, count_drop s, w)
      else framed m s (build_frame web s.is_client opcode_binary (payload_of m.body) w)

  abbrev pub accept : Msg → Rc × Sws × W → Rc × Msg × Sws × W
  accept m (err e, s, w) = (err e, m, count_full e s, w)
  accept m (ok n, s, w) =
      if msg_too_large s.rcvmaxsize (body_size m)
      then (err emsgsize, m, s, w)
      else packed m s (web.os.alloc (4 + body_size m) w)

  abbrev pub send_after : Msg → Rc × Sws × W → Rc × Msg × Sws × W
  send_after m (err e, s, w) = (err e, m, s, w)
  send_after m (ok n, s, w) = accept m (flush_outbuf s w)

  abbrev pub unsendable : Msg → Sws × W → Rc × Msg × Sws × W
  unsendable m (s, w) = (err econnreset, m, s, w)

  -- `mb_sws_send`: the code, what is left in the caller's message, and the new state.
  unfoldable pub send : Msg → Sws → W → Rc × Msg × Sws × W
  send m s w =
      if not s.fd && not s.ssl
      then unsendable m (report_error s w)
      else if has_outbuf s
      then send_after m (ok 0, s, sync_bufs s w)
      else send_after m (flush_pending_pong s (sync_bufs s w))

  abbrev pub is_ready : Polled → Bool
  is_ready quiet = false
  is_ready other_events = false
  is_ready ready = true

  abbrev pub polled : Sws → Polled × W → Bool × Sws × W
  polled s (p, w) = (is_ready p, s, w)

  abbrev pub look : Sws → W → Bool × Sws × W
  look s w = if s.ssl && web.ssl_pending w then (true, s, w) else polled s (web.os.poll_in w)

  abbrev pub can_receive : Rc × Sws × W → Bool × Sws × W
  can_receive (ok n, s, w) = look s w
  can_receive (err e, s, w) = if is_eagain (err e) then look s w else (false, s, w)

  -- `mb_sws_has_msg`.
  abbrev pub has_msg : Sws → W → Bool × Sws × W
  has_msg s w = elim s.instate [
    | hasmsg ↦ (true, s, w)
    | _ ↦
        if not s.fd || s.disconnected
        then (false, s, w)
        else can_receive (flush_outbuf s (sync_bufs s w))
  ]

  abbrev pub emptied : Rc × Sws × W → Bool × Sws × W
  emptied (ok n, s, w) = (not (has_outbuf s), s, w)
  emptied (err e, s, w) = (is_eagain (err e) && not (has_outbuf s), s, w)

  abbrev pub writable : Sws → Polled × W → Bool × Sws × W
  writable s (p, w) = if is_ready p then emptied (flush_outbuf s w) else (false, s, w)

  -- `mb_sws_can_send`.
  abbrev pub can_send : Sws → W → Bool × Sws × W
  can_send s w =
      if not s.fd || s.disconnected
      then (false, s, w)
      else if has_outbuf s
      then writable s (web.os.poll_out 0 (sync_bufs s w))
      else (true, s, sync_bufs s w)
