-- ===== src/Core/Sock/Calls.antt =====
-- sock.c: mb_sock_send and mb_sock_recv with their counters, and the pipes of a socket.
use msgbroker.Prelude.{
  ℕ, Bool, true, false, not, ◌||◌, List, [], ◌∷◌, ◌++◌, ◌==◌, add64, if◌then◌else◌,
}
use msgbroker.Errno.{Rc, ok, err}
use msgbroker.Memory.Msg.{Msg, body_size}
use msgbroker.Core.Pipe.{Answer, yields, refuses}
use msgbroker.Core.Sock.{Sock, Base, ebadf, eopnotsupp}

abbrev pub has_pipe : ℕ → List ℕ → Bool
has_pipe p [] = false
has_pipe p (q ∷ ps) = (q == p) || has_pipe p ps

abbrev pub drop_pipe : ℕ → List ℕ → List ℕ
drop_pipe p [] = []
drop_pipe p (q ∷ ps) = if q == p then ps else q ∷ drop_pipe p ps

module _ {W : Type 0} (base : Base W) where
  -- The first answer says whether the descriptor is signalled; if not, a second look may signal it
  -- again. `pick` is the event that is asked for.
  abbrev pub looked : (Bool × Bool → Bool) → (Bool × Bool) × W → Bool × W
  looked pick (ev, w) = (pick ev, w)

  abbrev pub look_twice : (Bool × Bool → Bool) → W → Bool × W
  look_twice pick w =
      let (first, w1) = looked pick (base.events w) in
      let again = looked pick (base.events w1) in if first then (true, w1) else again

  abbrev pub receivable : Bool × Bool → Bool
  receivable (i, o) = i

  abbrev pub sendable : Bool × Bool → Bool
  sendable (i, o) = o

  -- `mb_sock_sync_sndfd`.
  unfoldable pub sync_sndfd : Sock → W → Sock × W
  sync_sndfd s w =
      let (on, w') = look_twice sendable w in
      if s.has_base then (record s { sndfd = on }, w') else (s, w)

  -- `mb_sock_sync_rcvfd`.
  unfoldable pub sync_rcvfd : Sock → W → Sock × W
  sync_rcvfd s w =
      let (on, w') = look_twice receivable w in
      if s.has_base then (record s { rcvfd = on }, w') else (s, w)

  abbrev pub sync_both : Sock → W → Sock × W
  sync_both s w = let (t, v) = sync_sndfd s w in sync_rcvfd t v

  abbrev pub count_sent : ℕ → Sock → Sock
  count_sent n s = record s {
    messages_sent = add64 s.messages_sent 1;
    bytes_sent = add64 s.bytes_sent n;
    msgs_sent = add64 s.msgs_sent 1;
  }

  abbrev pub count_received : ℕ → Sock → Sock
  count_received n s = record s {
    messages_received = add64 s.messages_received 1;
    bytes_received = add64 s.bytes_received n;
    msgs_received = add64 s.msgs_received 1;
  }

  abbrev pub sent : ℕ → Sock → Rc × Msg × W → Rc × Msg × Sock × W
  sent size s (ok n, m, w) = let (t, v) = sync_both (count_sent size s) w in (ok n, m, t, v)
  sent size s (err e, m, w) = let (t, v) = sync_both s w in (err e, m, t, v)

  -- `mb_sock_send`: the code, what is left in the caller's message, and the new state. The size is
  -- taken before the message is.
  unfoldable pub send : Msg → Sock → W → Rc × Msg × Sock × W
  send m s w =
      if s.nosend
      then (err eopnotsupp, m, s, w)
      else if not s.has_base
      then (err ebadf, m, s, w)
      else sent (body_size m) s (base.send m w)

  abbrev pub received : Sock → Answer Msg × W → Answer Msg × Sock × W
  received s (yields m, w) =
      let (t, v) = sync_both (count_received (body_size m) s) w in (yields m, t, v)
  received s (refuses e, w) = let (t, v) = sync_both s w in (refuses e, t, v)

  -- `mb_sock_recv`.
  unfoldable pub recv : Sock → W → Answer Msg × Sock × W
  recv s w =
      if s.norecv
      then (refuses eopnotsupp, s, w)
      else if not s.has_base
      then (refuses ebadf, s, w)
      else received s (base.recv w)

  abbrev pub entered : ℕ → Sock → Sock
  entered p s = if has_pipe p s.pipes then s else record s { pipes = s.pipes ++ (p ∷ []) }

  abbrev pub added : ℕ → Sock → Rc × W → Rc × Sock × W
  added p s (err e, w) = (err e, s, w)
  added p s (ok n, w) = let (t, v) = sync_both (entered p s) w in (ok n, t, v)

  -- `mb_sock_pipe_add`.
  unfoldable pub pipe_add : ℕ → Sock → W → Rc × Sock × W
  pipe_add p s w =
      if s.stopping || not s.has_base then (err ebadf, s, w) else added p s (base.add p w)

  -- `mb_sock_pipe_rm`.
  unfoldable pub pipe_rm : ℕ → Sock → W → Sock × W
  pipe_rm p s w =
      let t = record s { pipes = drop_pipe p s.pipes } in
      if not s.has_base then (t, w) else sync_both t (base.rm p w)
