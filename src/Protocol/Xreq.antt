-- ===== src/Protocol/Xreq.antt =====
-- src/protocol/reqrep/xreq.c: a raw REQ socket.
-- The state is the list of pipes.
use msgbroker.Prelude.{ℕ, Bool, true, false, ◌||◌, List, [], ◌==◌, if◌then◌else◌}
use msgbroker.Errno.{Rc, ok, err, enomem, enoprotoopt}
use msgbroker.Memory.Msg.{Msg}
use msgbroker.Core.Pipe.{Pipes}
use msgbroker.Utils.Rotor.{Item, Outcome, has, names, probe}
use msgbroker.Utils.Lb
use msgbroker.Protocol.Spread.{any_yes}
use msgbroker.Protocol.Types.{rep_type, xrep_type}

abbrev pub create : List Item
create = Lb.init

-- `alloc_ok` is whether `mb_alloc` gives the pipe's item.
abbrev pub add : Bool → ℕ → List Item → Rc × List Item
add false p s = (err enomem, s)
add true p s = (ok 0, Lb.activate p (Lb.add p s))

abbrev pub rm : ℕ → List Item → List Item
rm p s = Lb.rm p s

-- `mb_xreq_in`.
abbrev pub in_pipe : ℕ → List Item → List Item
in_pipe p s = if has p s then Lb.activate p s else s

-- `mb_xreq_out` does nothing.
abbrev pub out_pipe : ℕ → List Item → List Item
out_pipe p s = s

-- `mb_xreq_setopt` and `mb_xreq_getopt` know no option.
abbrev pub setopt : Rc
setopt = err enoprotoopt

abbrev pub getopt : Rc
getopt = err enoprotoopt

abbrev pub ispeer : ℕ → Bool
ispeer t = t == rep_type || t == xrep_type

module _ {W : Type 0} (pipes : Pipes W) where
  -- OUT, IN, the list and the state of the pipes.
  abbrev pub events : List Item → W → Bool × Bool × List Item × W
  events s w =
      let a = Lb.can_send pipes s w in
      let b = any_yes pipes.has_msg (names a.1) a.2 in (a.0, b.0, a.1, b.1)

  abbrev pub send : Msg → List Item → W → Outcome (Unit {0}) × List Item × W
  send m s w = Lb.send pipes m s w

  abbrev pub recv : List Item → W → Outcome Msg × List Item × W
  recv s w = probe pipes.recv [] s w
