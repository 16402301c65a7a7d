-- ===== src/Protocol/Xbus.antt =====
-- src/protocol/bus/xbus.c: a raw BUS socket.
-- The state is the list of pipes.
use msgbroker.Prelude.{ℕ, Bool, false, ◌||◌, List, [], ◌==◌}
use msgbroker.Errno.{Rc, err, enoprotoopt}
use msgbroker.Memory.Msg.{Msg}
use msgbroker.Core.Pipe.{Answer, Pipes}
use msgbroker.Protocol.Spread.{attach, erase, poll, send_copies, some_sent, cycle}
use msgbroker.Protocol.Types.{bus_type, xbus_type}

abbrev pub create : List ℕ
create = []

-- `alloc_ok` is whether `mb_alloc` gives the pipe's item.
abbrev pub add : Bool → ℕ → List ℕ → Rc × List ℕ
add alloc_ok p s = attach alloc_ok p s

abbrev pub rm : ℕ → List ℕ → List ℕ
rm p s = erase p s

-- `mb_xbus_in` does nothing.
abbrev pub in_pipe : ℕ → List ℕ → List ℕ
in_pipe p s = s

-- `mb_xbus_out` does nothing.
abbrev pub out_pipe : ℕ → List ℕ → List ℕ
out_pipe p s = s

-- `mb_xbus_setopt` and `mb_xbus_getopt` know no option.
abbrev pub setopt : Rc
setopt = err enoprotoopt

abbrev pub getopt : Rc
getopt = err enoprotoopt

abbrev pub ispeer : ℕ → Bool
ispeer t = t == bus_type || t == xbus_type

module _ {W : Type 0} (pipes : Pipes W) where
  -- OUT, IN and the state of the pipes.
  abbrev pub events : List ℕ → W → Bool × Bool × W
  events s w = poll pipes s false false w

  abbrev pub send : Msg → List ℕ → W → Rc × W
  send m s w = some_sent (send_copies pipes m s w)

  abbrev pub recv : List ℕ → W → Answer (ℕ × Msg) × List ℕ × W
  recv s w = cycle pipes.recv [] s w
