-- ===== src/Transport/Sws/Recv.antt =====
-- sws.c: mb_sws_recv from the header on, control frames among it, and mb_sws_stop.
use msgbroker.Prelude.{
  ℕ, zero, suc, ◌+◌, ◌-◌, Bool, true, false, not, ◌&&◌, ◌||◌, Option, none, some, List, [], ◌∷◌,
  ◌++◌, length, ltb, ◌==◌, if◌then◌else◌,
}
use msgbroker.Errno.{Errno, Rc, ok, err, eagain, enomem, is_eagain}
use msgbroker.Memory.Msg.{Msg}
use msgbroker.Core.Pipe.{Answer, yields, refuses}
use msgbroker.Transport.Sinproc.{emsgsize, msg_too_large}
use msgbroker.Transport.Stream.{Got, got, at_end, unread, econnreset}
use msgbroker.Transport.Sws.{
  Sws, Instate, in_hdr, in_body, hasmsg, in_ctrl, Web, do_recv, eproto, opcode_close, opcode_ping,
  opcode_pong,
}
use msgbroker.Transport.Sws.Out.{
  has_outbuf, no_outbuf, send_frame, sync_bufs, flush_outbuf, flush_pending_pong,
}
use msgbroker.Transport.Sws.In.{
  Result, returns, overruns, spins, opcode_of, need, hdr_refused, payload_len_of, key_of, await_hdr,
  fill, misread, refused, delivered, unmasked, read_body,
}

module _ {W : Type 0} (web : Web W) (callback : Sws → W → Sws × W) where
  abbrev pub try_pong : Sws → W → Sws × W
  try_pong s w =
      if has_outbuf s
      then (s, w)
      else (let (rc, s', w') = flush_pending_pong web callback s w in (s', w'))

  -- The end of a control frame: `next` is the rounds of the loop that follow.
  abbrev pub ctrl_over :
      (Sws → W → Result (Answer Msg × Sws × W)) → Sws → W → Result (Answer Msg × Sws × W)
  ctrl_over next s w = let (s', w') = try_pong (await_hdr s) w in next s' w'

  abbrev pub ponged :
      (Sws → W → Result (Answer Msg × Sws × W)) → Rc × Sws × W → Result (Answer Msg × Sws × W)
  ponged next (ok n, s, w) = ctrl_over next s w
  ponged next (err e, s, w) =
      if is_eagain (err e) then ctrl_over next s w else returns (refuses e, await_hdr s, w)

  abbrev pub ctrl_done :
      (Sws → W → Result (Answer Msg × Sws × W)) → Sws → List ℕ → W → Result (Answer Msg × Sws × W)
  ctrl_done next s payload w =
      let pinged = record s { inmsg = payload; pong_buf = payload; pending_pong = true } in
      if not (s.inlen == opcode_ping)
      then ctrl_over next (record s { inmsg = payload }) w
      else if has_outbuf s
      then ctrl_over next pinged w
      else ponged next (flush_pending_pong web callback pinged w)

  abbrev pub ctrl_read :
      (Sws → W → Result (Answer Msg × Sws × W))
      → Sws
      → Option Errno × List ℕ × W
      → Result (Answer Msg × Sws × W)
  ctrl_read next s (some e, bytes, w) =
      misread web callback e (record s { inmsg = s.inmsg ++ bytes; inpos = s.inpos + length bytes })
        w
  ctrl_read next s (none, bytes, w) =
      let t = record s { inmsg = s.inmsg ++ bytes; inpos = s.inpos + length bytes } in
      if ltb (length t.inmsg) t.payload_len
      then overruns
      else ctrl_done next t (unmasked web callback t) w

  abbrev pub read_ctrl :
      (Sws → W → Result (Answer Msg × Sws × W)) → Sws → W → Result (Answer Msg × Sws × W)
  read_ctrl next s w =
      let left = s.payload_len - s.inpos in ctrl_read next s (fill web callback left s left [] w)

  -- The answer to a close frame: what is left to write is given up.
  abbrev pub hang_up : Sws → W → Result (Answer Msg × Sws × W)
  hang_up s w =
      let t = record (no_outbuf s) { pending_pong = false } in
      let (rc, w') = send_frame web callback t opcode_close [] w in
      refused web callback econnreset t w'

  abbrev pub ctrl_started :
      (Sws → W → Result (Answer Msg × Sws × W)) → Sws → Bool × W → Result (Answer Msg × Sws × W)
  ctrl_started next s (false, w) = refused web callback enomem (record s { inmsg = [] }) w
  ctrl_started next s (true, w) =
      read_ctrl next
        (record s { inmsg = []; inlen = opcode_of s.inhdr; inpos = 0; instate = in_ctrl }) w

  abbrev pub body_started : Sws → Bool × W → Result (Answer Msg × Sws × W)
  body_started s (false, w) = refused web callback enomem (record s { inmsg = [] }) w
  body_started s (true, w) =
      read_body web callback (record s { inmsg = []; inpos = 0; instate = in_body }) w

  -- The header is in order, and its length and its key are stored.
  abbrev pub hdr_taken :
      (Sws → W → Result (Answer Msg × Sws × W)) → Sws → W → Result (Answer Msg × Sws × W)
  hdr_taken next s w =
      let opcode = opcode_of s.inhdr in
      if opcode == opcode_close
      then hang_up s w
      else if (opcode == opcode_ping) || (opcode == opcode_pong)
      then (if ltb 125 s.payload_len
          then refused web callback eproto s w
          else ctrl_started next s (web.os.alloc s.payload_len w))
      else if ltb s.payload_len 4 || msg_too_large s.rcvmaxsize (s.payload_len - 4)
      then refused web callback emsgsize (record s { inmsg = [] }) w
      else body_started s (web.os.alloc s.payload_len w)

  abbrev pub hdr_sized :
      (Sws → W → Result (Answer Msg × Sws × W)) → Sws → Answer ℕ → W → Result (Answer Msg × Sws × W)
  hdr_sized next s (refuses e) w = refused web callback e s w
  hdr_sized next s (yields n) w =
      hdr_taken next (record s { payload_len = n; mask_key = key_of s s.inhdr }) w

  abbrev pub hdr_done :
      (Sws → W → Result (Answer Msg × Sws × W)) → Sws → W → Result (Answer Msg × Sws × W)
  hdr_done next s w =
      if hdr_refused s.is_client s.inhdr
      then refused web callback eproto s w
      else hdr_sized next s (payload_len_of s.inhdr) w

  abbrev pub hdr_read :
      (Sws → W → Result (Answer Msg × Sws × W))
      → Sws
      → Option Errno × List ℕ × W
      → Result (Answer Msg × Sws × W)
  hdr_read next s (some e, bytes, w) =
      misread web callback e (record s { inhdr = s.inhdr ++ bytes }) w
  hdr_read next s (none, bytes, w) = hdr_done next (record s { inhdr = s.inhdr ++ bytes }) w

  -- The bytes of the header from the third on.
  abbrev pub read_rest :
      (Sws → W → Result (Answer Msg × Sws × W)) → Sws → W → Result (Answer Msg × Sws × W)
  read_rest next s w =
      let left = need s.inhdr - length s.inhdr in
      if ltb (length s.inhdr) 2
      then returns (refuses eagain, s, w)
      else hdr_read next s (fill web callback left s left [] w)

  abbrev pub first_two :
      (Sws → W → Result (Answer Msg × Sws × W)) → Sws → Got × W → Result (Answer Msg × Sws × W)
  first_two next s (got b bs, w) = read_rest next (record s { inhdr = s.inhdr ++ (b ∷ bs) }) w
  first_two next s (at_end, w) = refused web callback econnreset s w
  first_two next s (unread e, w) = misread web callback e s w

  abbrev pub read_hdr :
      (Sws → W → Result (Answer Msg × Sws × W)) → Sws → W → Result (Answer Msg × Sws × W)
  read_hdr next s w =
      if ltb (length s.inhdr) 2
      then first_two next s (do_recv web s (2 - length s.inhdr) w)
      else read_rest next s w

  abbrev pub round :
      (Sws → W → Result (Answer Msg × Sws × W)) → Instate → Sws → W → Result (Answer Msg × Sws × W)
  round next in_hdr s w = read_hdr next s w
  round next in_ctrl s w = read_ctrl next s w
  round next in_body s w = read_body web callback s w
  round next hasmsg s w = delivered web callback s w

  -- The loop of mb_sws_recv: a round more for each control frame.
  unfoldable pub recv_loop : ℕ → Sws → W → Result (Answer Msg × Sws × W)
  recv_loop zero s w = spins
  recv_loop (suc f) s w = round (λ s' w'. recv_loop f s' w') s.instate s w

  abbrev pub recv_on : ℕ → Sws → W → Result (Answer Msg × Sws × W)
  recv_on fuel s w = let (s', w') = try_pong s w in recv_loop fuel s' w'

  abbrev pub recv_after : ℕ → Rc × Sws × W → Result (Answer Msg × Sws × W)
  recv_after fuel (ok n, s, w) = recv_on fuel s w
  recv_after fuel (err e, s, w) =
      if is_eagain (err e) then recv_on fuel s w else returns (refuses e, s, w)

  -- `mb_sws_recv`, for `fuel` rounds at most.
  unfoldable pub recv : ℕ → Sws → W → Result (Answer Msg × Sws × W)
  recv fuel s w =
      if not s.fd && not s.ssl
      then refused web callback econnreset s w
      else recv_after fuel (flush_outbuf web callback s (sync_bufs web callback s w))
