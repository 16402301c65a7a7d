-- ===== src/Transport/Sws/Stop.antt =====
-- sws.c: mb_sws_start, mb_sws_stop and mb_sws_term.
use msgbroker.Prelude.{
  ℕ, zero, suc, ◌+◌, ◌-◌, Bool, true, false, not, ◌||◌, Option, none, some, [], leb, ◌==◌,
  if◌then◌else◌,
}
use msgbroker.Errno.{Rc, ok, err, is_eagain}
use msgbroker.Transport.Stream.{Polled, quiet, other_events, ready, etimedout}
use msgbroker.Transport.Sws.{Sws, Web}
use msgbroker.Transport.Sws.Out.{has_outbuf, no_outbuf, flush_outbuf}

module _ {W : Type 0} (web : Web W) (callback : Sws → W → Sws × W) where
  abbrev pub started : Sws → Rc × W → Rc × Sws × W
  started s (ok n, w) = (ok n, record s { active = true }, w)
  started s (err e, w) = (err e, s, w)

  -- `mb_sws_start`, on a session that is not active.
  abbrev pub start : Sws → W → Rc × Sws × W
  start s w = started s (web.os.pipebase_start w)

  abbrev pub settled : Sws → Rc
  settled s = if has_outbuf s then err etimedout else ok 0

  abbrev pub lingered : (Sws → W → Option (Rc × Sws × W)) → Rc × Sws × W → Option (Rc × Sws × W)
  lingered next (ok n, s, w) = some (settled s, s, w)
  lingered next (err e, s, w) = if is_eagain (err e) then next s w else some (settled s, s, w)

  abbrev pub waited : (Sws → W → Option (Rc × Sws × W)) → Sws → Polled × W → Option (Rc × Sws × W)
  waited next s (quiet, w) = some (err etimedout, s, w)
  waited next s (other_events, w) = lingered next (flush_outbuf web callback s w)
  waited next s (ready, w) = lingered next (flush_outbuf web callback s w)

  abbrev pub linger_round :
      (Sws → W → Option (Rc × Sws × W)) → ℕ → Sws → ℕ × W → Option (Rc × Sws × W)
  linger_round next deadline s (now, w) =
      if leb deadline now
      then some (err etimedout, s, w)
      else waited next s (web.os.poll_out (deadline - now) w)

  -- The loop of `mb_sws_linger_flush`, for `fuel` rounds at most: `none` says that they were too few.
  unfoldable pub linger_loop : ℕ → ℕ → Sws → W → Option (Rc × Sws × W)
  linger_loop zero deadline s w = none
  linger_loop (suc f) deadline s w =
      if has_outbuf s
      then linger_round (λ s' w'. linger_loop f deadline s' w') deadline s (web.os.clock_ms w)
      else some (ok 0, s, w)

  abbrev pub linger_from : ℕ → Sws → ℕ × W → Option (Rc × Sws × W)
  linger_from fuel s (now, w) = linger_loop fuel (now + s.linger) s w

  -- The descriptor, if there is one.
  abbrev pub has_fd : Sws → W → Bool
  has_fd s w = if s.ssl then web.ssl_get_fd w else s.fd

  unfoldable pub linger_flush : ℕ → Sws → W → Option (Rc × Sws × W)
  linger_flush fuel s w =
      if not (has_outbuf s) || s.linger == 0 || not (has_fd s w)
      then some (ok 0, s, w)
      else linger_from fuel s (web.os.clock_ms w)

  -- The end of the connection. The descriptor of a TLS connection is asked for before it is freed.
  abbrev pub close_all : Sws → W → Sws × W
  close_all s w =
      if s.ssl
      then (
        record s { ssl = false; fd = false },
        if web.ssl_get_fd w then web.os.close (web.ssl_free w) else web.ssl_free w,
      )
      else (record s { fd = false }, if s.fd then web.os.close w else w)

  abbrev pub outcome : Rc → ℕ
  outcome (ok n) = 1
  outcome (err e) = 2

  abbrev pub closed : Option (Rc × Sws × W) → Option (Sws × W)
  closed none = none
  closed (some (rc, s, w)) =
      some (close_all (record (no_outbuf s) { linger_outcome = outcome rc }) w)

  -- `mb_sws_stop`.
  unfoldable pub stop : ℕ → Sws → W → Option (Sws × W)
  stop fuel s w = closed (
      linger_flush fuel (record s { active = false })
        (if s.active then web.os.pipebase_stop w else w))

  -- `mb_sws_term`.
  abbrev pub term : Sws → W → Sws × W
  term s w = close_all (record s { inmsg = []; outbuf = none }) w
