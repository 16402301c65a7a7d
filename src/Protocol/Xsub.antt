-- ===== src/Protocol/Xsub.antt =====
-- src/protocol/pubsub/xsub.c: a raw SUB socket, which gets every message and sends to all publishers.
-- The state is the list of pipes.
use msgbroker.Prelude.{ℕ, Bool, true, false, ◌||◌, List, ◌==◌, if◌then◌else◌}
use msgbroker.Errno.{Rc, ok, err, enomem, enoprotoopt}
use msgbroker.Memory.Msg.{Msg}
use msgbroker.Core.Pipe.{Pipes}
use msgbroker.Utils.Rotor.{Item, Outcome, has, names}
use msgbroker.Utils.Fq
use msgbroker.Protocol.Spread.{any_yes, send_copies, some_sent}
use msgbroker.Protocol.Types.{pub_type, xpub_type}

abbrev pub create : List Item
create = Fq.init

-- `alloc_ok` is whether `mb_alloc` gives the pipe's item.
abbrev pub add : Bool → ℕ → List Item → Rc × List Item
add false p s = (err enomem, s)
add true p s = (ok 0, Fq.activate p (Fq.add p s))

abbrev pub rm : ℕ → List Item → List Item
rm p s = Fq.rm p s

-- `mb_xsub_in`.
abbrev pub in_pipe : ℕ → List Item → List Item
in_pipe p s = if has p s then Fq.activate p s else s

-- `mb_xsub_out` does nothing.
abbrev pub out_pipe : ℕ → List Item → List Item
out_pipe p s = s

-- `mb_xsub_setopt` and `mb_xsub_getopt` know no option.
abbrev pub setopt : Rc
setopt = err enoprotoopt

abbrev pub getopt : Rc
getopt = err enoprotoopt

abbrev pub ispeer : ℕ → Bool
ispeer t = t == pub_type || t == xpub_type

module _ {W : Type 0} (pipes : Pipes W) where
  -- OUT, IN and the state of the pipes.
  abbrev pub events : List Item → W → Bool × Bool × W
  events s w =
      let a = any_yes pipes.can_send (names s) w in
      let b = Fq.can_recv pipes s a.1 in (a.0, b.0, b.1)

  abbrev pub send : Msg → List Item → W → Rc × W
  send m s w = some_sent (send_copies pipes m (names s) w)

  abbrev pub recv : List Item → W → Outcome Msg × List Item × W
  recv s w = Fq.recv_pipe pipes s w
