-- ===== src/Protocol/Rep.antt =====
-- src/protocol/reqrep/rep.c: a REP socket. A request is taken from one of the pipes, and the reply goes
-- to the same pipe before the next request is taken.
mod Alternation
mod Tests
use msgbroker.Prelude.{
  ℕ, Bool, true, false, not, Option, none, some, List, [], ◌∷◌, if◌then◌else◌, ◌==◌, ◌||◌,
}
use msgbroker.Errno.{Errno, Rc, ok, err, eagain, enomem, efsm, enoprotoopt, is_eagain}
use msgbroker.Protocol.Types.{req_type, xreq_type}
use msgbroker.Memory.Msg.{Msg}
use msgbroker.Core.Pipe.{Answer, yields, refuses, Pipes, points_to}
use msgbroker.Utils.Rotor.{Item, Outcome}
use msgbroker.Utils.Fq
use msgbroker.Utils.Lb

-- `struct mb_rep`.
pub record Rep : Type 0 where
  pub fq : List Item
  pub lb : List Item
  pub last_pipe : Option ℕ

abbrev pub create : Rep
create = record { fq = Fq.init; lb = Lb.init; last_pipe = none }

-- The Booleans are whether `mb_alloc` gives the items of the two lists.
abbrev pub add : Bool → Bool → ℕ → Rep → Rc × Rep
add false lb_ok p s = (err enomem, s)
add true false p s = (err enomem, record s { fq = Fq.rm p (Fq.activate p (Fq.add p s.fq)) })
add true true p s =
    (ok 0, record s { fq = Fq.activate p (Fq.add p s.fq); lb = Lb.activate p (Lb.add p s.lb) })

unfoldable pub rm : ℕ → Rep → Rep
rm p s = record {
  fq = Fq.rm p s.fq;
  lb = Lb.rm p s.lb;
  last_pipe = if points_to s.last_pipe p then none else s.last_pipe;
}

-- `mb_rep_in` and `mb_rep_out` do nothing.
abbrev pub in_pipe : ℕ → Rep → Rep
in_pipe p s = s

abbrev pub out_pipe : ℕ → Rep → Rep
out_pipe p s = s

abbrev pub setopt : Rc
setopt = err enoprotoopt

abbrev pub getopt : Rc
getopt = err enoprotoopt

abbrev pub ispeer : ℕ → Bool
ispeer t = t == req_type || t == xreq_type

module _ {W : Type 0} (pipes : Pipes W) where
  -- OUT, IN and the state of the pipes.
  abbrev pub events : Rep → W → Bool × Bool × W
  events s w = elim s.last_pipe [
    | some p ↦ let a = pipes.can_send p w in (a.0, false, a.1)
    | none ↦ let a = Fq.can_recv pipes s.fq w in (false, a.0, a.1)
  ]

  abbrev pub received : Rep → Outcome Msg × List Item × W → Answer Msg × Rep × W
  received s (yields (p, m), fq, w) = (yields m, record s { fq = fq; last_pipe = some p }, w)
  received s (refuses e, fq, w) = (refuses e, record s { fq = fq }, w)

  unfoldable pub recv : Rep → W → Answer Msg × Rep × W
  recv s w = elim s.last_pipe [
    | some p ↦ (refuses efsm, s, w)
    | none ↦ received s (Fq.recv_pipe pipes s.fq w)
  ]

  -- On -EAGAIN the pipe is kept, for another try.
  abbrev pub replied : Rep → Answer (Unit {0}) × W → Rc × Rep × W
  replied s (yields u, w) = (ok 0, record s { last_pipe = none }, w)
  replied s (refuses e, w) =
      (err e, (if not (is_eagain (err e)) then record s { last_pipe = none } else s), w)

  unfoldable pub send : Msg → Rep → W → Rc × Rep × W
  send m s w = elim s.last_pipe [ none ↦ (err efsm, s, w) | some p ↦ replied s (pipes.send m p w) ]
