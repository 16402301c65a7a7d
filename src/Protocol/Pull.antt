-- ===== src/Protocol/Pull.antt =====
-- src/protocol/pipeline/pull.c: a PULL socket. The state is the list of pipes.
use msgbroker.Prelude.{ℕ, Bool, true, false, ◌||◌, List, ◌==◌, if◌then◌else◌}
use msgbroker.Errno.{Rc, ok, err, enomem, enoprotoopt}
use msgbroker.Memory.Msg.{Msg}
use msgbroker.Core.Pipe.{Pipes}
use msgbroker.Utils.Rotor.{Item, Outcome, has}
use msgbroker.Utils.Fq
use msgbroker.Protocol.Types.{push_type, xpush_type}

abbrev pub create : List Item
create = Fq.init

-- `alloc_ok` is whether `mb_alloc` gives the pipe's item.
abbrev pub add : Bool → ℕ → List Item → Rc × List Item
add false p s = (err enomem, s)
add true p s = (ok 0, Fq.activate p (Fq.add p s))

abbrev pub rm : ℕ → List Item → List Item
rm p s = Fq.rm p s

-- `mb_pull_in`.
abbrev pub in_pipe : ℕ → List Item → List Item
in_pipe p s = if has p s then Fq.activate p s else s

-- `mb_pull_out` does nothing.
abbrev pub out_pipe : ℕ → List Item → List Item
out_pipe p s = s

-- `mb_pull_setopt` and `mb_pull_getopt` know no option.
abbrev pub setopt : Rc
setopt = err enoprotoopt

abbrev pub getopt : Rc
getopt = err enoprotoopt

abbrev pub ispeer : ℕ → Bool
ispeer t = t == push_type || t == xpush_type

module _ {W : Type 0} (pipes : Pipes W) where
  -- IN, and the state of the pipes.
  abbrev pub events : List Item → W → Bool × W
  events s w = Fq.can_recv pipes s w

  abbrev pub recv : List Item → W → Outcome Msg × List Item × W
  recv s w = Fq.recv_pipe pipes s w
