-- ===== src/Protocol/Push.antt =====
-- src/protocol/pipeline/push.c: a PUSH socket. The state is the list of pipes.
use msgbroker.Prelude.{ℕ, Bool, true, false, ◌||◌, List, ◌==◌, if◌then◌else◌}
use msgbroker.Errno.{Rc, ok, err, enomem, enoprotoopt}
use msgbroker.Memory.Msg.{Msg}
use msgbroker.Core.Pipe.{Pipes}
use msgbroker.Utils.Rotor.{Item, Outcome, has}
use msgbroker.Utils.Lb
use msgbroker.Protocol.Types.{pull_type, xpull_type}

abbrev pub create : List Item
create = Lb.init

-- `alloc_ok` is whether `mb_alloc` gives the pipe's item.
abbrev pub add : Bool → ℕ → List Item → Rc × List Item
add false p s = (err enomem, s)
add true p s = (ok 0, Lb.activate p (Lb.add p s))

abbrev pub rm : ℕ → List Item → List Item
rm p s = Lb.rm p s

-- `mb_push_in` does nothing.
abbrev pub in_pipe : ℕ → List Item → List Item
in_pipe p s = s

-- `mb_push_out`.
abbrev pub out_pipe : ℕ → List Item → List Item
out_pipe p s = if has p s then Lb.activate p s else s

-- `mb_push_setopt` and `mb_push_getopt` know no option.
abbrev pub setopt : Rc
setopt = err enoprotoopt

abbrev pub getopt : Rc
getopt = err enoprotoopt

abbrev pub ispeer : ℕ → Bool
ispeer t = t == pull_type || t == xpull_type

module _ {W : Type 0} (pipes : Pipes W) where
  -- OUT, the list and the state of the pipes.
  abbrev pub events : List Item → W → Bool × List Item × W
  events s w = Lb.can_send pipes s w

  abbrev pub send : Msg → List Item → W → Outcome (Unit {0}) × List Item × W
  send m s w = Lb.send pipes m s w
