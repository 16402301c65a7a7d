-- ===== src/Protocol/Pair.antt =====
-- src/protocol/pair/pair.c: a PAIR socket. The state is the one pipe.
use msgbroker.Prelude.{ℕ, Bool, false, ◌||◌, Option, none, some, ◌==◌, if◌then◌else◌}
use msgbroker.Errno.{Errno, Rc, ok, err, eagain, enoprotoopt}
use msgbroker.Memory.Msg.{Msg}
use msgbroker.Core.Pipe.{Answer, refuses, Pipes, points_to}
use msgbroker.Protocol.Types.{pair_type, xpair_type}

abbrev pub create : Option ℕ
create = none

-- `EISCONN` of errno.h.
abbrev pub eisconn : Errno
eisconn = Errno.other 106

abbrev pub add : ℕ → Option ℕ → Rc × Option ℕ
add p none = (ok 0, some p)
add p (some q) = (err eisconn, some q)

abbrev pub rm : ℕ → Option ℕ → Option ℕ
rm p s = if points_to s p then none else s

-- `mb_pair_in` does nothing.
abbrev pub in_pipe : ℕ → Option ℕ → Option ℕ
in_pipe p s = s

-- `mb_pair_out` does nothing.
abbrev pub out_pipe : ℕ → Option ℕ → Option ℕ
out_pipe p s = s

-- `mb_pair_setopt` and `mb_pair_getopt` know no option.
abbrev pub setopt : Rc
setopt = err enoprotoopt

abbrev pub getopt : Rc
getopt = err enoprotoopt

abbrev pub ispeer : ℕ → Bool
ispeer t = t == pair_type || t == xpair_type

module _ {W : Type 0} (pipes : Pipes W) where
  -- OUT, IN and the state of the pipes.
  abbrev pub events : Option ℕ → W → Bool × Bool × W
  events none w = (false, false, w)
  events (some p) w = let a = pipes.can_send p w in let b = pipes.has_msg p a.1 in (a.0, b.0, b.1)

  abbrev pub send : Msg → Option ℕ → W → Answer (Unit {0}) × W
  send m none w = (refuses eagain, w)
  send m (some p) w = pipes.send m p w

  abbrev pub recv : Option ℕ → W → Answer Msg × W
  recv none w = (refuses eagain, w)
  recv (some p) w = pipes.recv p w
