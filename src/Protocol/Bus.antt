-- ===== src/Protocol/Bus.antt =====
-- src/protocol/bus/bus.c: a BUS socket. The state is the list of pipes; a `struct mb_bus_pipe_data` has
-- the fields of an item of a rotating list.
use msgbroker.Prelude.{ℕ, Bool, true, false, ◌||◌, List, [], ◌==◌}
use msgbroker.Errno.{Rc, ok, err, enomem, enoprotoopt}
use msgbroker.Memory.Msg.{Msg}
use msgbroker.Core.Pipe.{Pipes}
use msgbroker.Utils.Rotor.{Item, Outcome, names, mark, probe}
use msgbroker.Utils.Rotor
use msgbroker.Protocol.Spread.{poll, send_copies, some_sent}
use msgbroker.Protocol.Types.{bus_type, xbus_type}

abbrev pub create : List Item
create = []

-- `alloc_ok` is whether `mb_alloc` gives the pipe's item.
abbrev pub add : Bool → ℕ → List Item → Rc × List Item
add false p s = (err enomem, s)
add true p s = (ok 0, Rotor.add p s)

abbrev pub rm : ℕ → List Item → List Item
rm p s = Rotor.rm p s

-- `mb_bus_in`.
abbrev pub in_pipe : ℕ → List Item → List Item
in_pipe p s = mark p s

-- `mb_bus_out` does nothing.
abbrev pub out_pipe : ℕ → List Item → List Item
out_pipe p s = s

-- `mb_bus_setopt` and `mb_bus_getopt` know no option.
abbrev pub setopt : Rc
setopt = err enoprotoopt

abbrev pub getopt : Rc
getopt = err enoprotoopt

abbrev pub ispeer : ℕ → Bool
ispeer t = t == bus_type || t == xbus_type

module _ {W : Type 0} (pipes : Pipes W) where
  -- OUT, IN and the state of the pipes.
  abbrev pub events : List Item → W → Bool × Bool × W
  events s w = poll pipes (names s) false false w

  abbrev pub send : Msg → List Item → W → Rc × W
  send m s w = some_sent (send_copies pipes m (names s) w)

  abbrev pub recv : List Item → W → Outcome Msg × List Item × W
  recv s w = probe pipes.recv [] s w
