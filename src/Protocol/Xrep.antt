-- ===== src/Protocol/Xrep.antt =====
-- src/protocol/reqrep/xrep.c: a raw REP socket, with a fair queue and a load balancer over its pipes.
use msgbroker.Prelude.{ℕ, Bool, true, false, ◌||◌, List, ◌==◌}
use msgbroker.Errno.{Rc, ok, err, enomem, enoprotoopt}
use msgbroker.Memory.Msg.{Msg}
use msgbroker.Core.Pipe.{Pipes}
use msgbroker.Utils.Rotor.{Item, Outcome}
use msgbroker.Utils.Fq
use msgbroker.Utils.Lb
use msgbroker.Protocol.Types.{req_type, xreq_type}

-- `struct mb_xrep`.
pub record Xrep : Type 0 where
  pub fq : List Item
  pub lb : List Item

abbrev pub create : Xrep
create = record { fq = Fq.init; lb = Lb.init }

-- The Booleans are whether `mb_alloc` gives the items of the two lists.
abbrev pub add : Bool → Bool → ℕ → Xrep → Rc × Xrep
add false lb_ok p s = (err enomem, s)
add true false p s = (err enomem, record s { fq = Fq.rm p (Fq.activate p (Fq.add p s.fq)) })
add true true p s =
    (ok 0, record { fq = Fq.activate p (Fq.add p s.fq); lb = Lb.activate p (Lb.add p s.lb) })

abbrev pub rm : ℕ → Xrep → Xrep
rm p s = record { fq = Fq.rm p s.fq; lb = Lb.rm p s.lb }

-- `mb_xrep_in` does nothing.
abbrev pub in_pipe : ℕ → Xrep → Xrep
in_pipe p s = s

-- `mb_xrep_out` does nothing.
abbrev pub out_pipe : ℕ → Xrep → Xrep
out_pipe p s = s

-- `mb_xrep_setopt` and `mb_xrep_getopt` know no option.
abbrev pub setopt : Rc
setopt = err enoprotoopt

abbrev pub getopt : Rc
getopt = err enoprotoopt

abbrev pub ispeer : ℕ → Bool
ispeer t = t == req_type || t == xreq_type

module _ {W : Type 0} (pipes : Pipes W) where
  -- OUT, IN, the socket and the state of the pipes.
  abbrev pub events : Xrep → W → Bool × Bool × Xrep × W
  events s w =
      let a = Fq.can_recv pipes s.fq w in
      let b = Lb.can_send pipes s.lb a.1 in (b.0, a.0, record s { lb = b.1 }, b.2)

  abbrev pub send : Msg → Xrep → W → Outcome (Unit {0}) × Xrep × W
  send m s w = let a = Lb.send pipes m s.lb w in (a.0, record s { lb = a.1 }, a.2)

  abbrev pub recv : Xrep → W → Outcome Msg × Xrep × W
  recv s w = let a = Fq.recv_pipe pipes s.fq w in (a.0, record s { fq = a.1 }, a.2)
