-- ===== src/Protocol/Req.antt =====
-- src/protocol/reqrep/req.c: a REQ socket. A request goes to one of the pipes, and its reply is read
-- from the same pipe before the next request.
mod Alternation
mod Tests
use msgbroker.Prelude.{
  ℕ, Bool, true, false, not, ◌&&◌, Option, none, some, List, [], ◌∷◌, ◌==◌, if◌then◌else◌, ◌||◌,
}
use msgbroker.Errno.{Errno, Rc, ok, err, eagain, enomem, efsm, enoprotoopt}
use msgbroker.Protocol.Types.{rep_type, xrep_type}
use msgbroker.Memory.Msg.{Msg}
use msgbroker.Core.Pipe.{Answer, yields, refuses, Pipes, points_to}
use msgbroker.Utils.Rotor.{Item, Outcome, has}
use msgbroker.Utils.Lb

-- `struct mb_req`. That `mb_pipe_getdata` gives a pipe's item is that the item is in `lb`.
pub record Req : Type 0 where
  pub lb : List Item
  pub pipe : Option ℕ
  pub sending : Bool

abbrev pub create : Req
create = record { lb = Lb.init; pipe = none; sending = false }

-- `alloc_ok` is whether `mb_alloc` gives the pipe's item.
abbrev pub add : Bool → ℕ → Req → Rc × Req
add false p s = (err enomem, s)
add true p s = (
  ok 0,
  record s {
    lb = Lb.activate p (Lb.add p s.lb);
    pipe = elim s.pipe [ none ↦ some p | some q ↦ some q ];
  },
)

abbrev pub first_pipe : List Item → Option ℕ
first_pipe [] = none
first_pipe (x ∷ xs) = some x.pipe

unfoldable pub rm : ℕ → Req → Req
rm p s =
    let lb = Lb.rm p s.lb in
    if points_to s.pipe p
    then record { lb = lb; pipe = first_pipe lb; sending = false }
    else record s { lb = lb }

-- `mb_req_in`.
unfoldable pub in_pipe : ℕ → Req → Req
in_pipe p s = if has p s.lb then record s { lb = Lb.activate p s.lb } else s

-- The pipe of the last item, from an item and those behind it.
abbrev pub last_pipe : Item → List Item → ℕ
last_pipe x [] = x.pipe
last_pipe x (y ∷ ys) = last_pipe y ys

abbrev pub setopt : Rc
setopt = err enoprotoopt

abbrev pub getopt : Rc
getopt = err enoprotoopt

abbrev pub ispeer : ℕ → Bool
ispeer t = t == rep_type || t == xrep_type

module _ {W : Type 0} (pipes : Pipes W) where
  -- What the two tests of `mb_req_events` find: OUT, IN, and the state.
  abbrev pub readable : Req → Bool → W → (Bool × Bool) × Req × W
  readable s out w = elim s.pipe [
    | none ↦ ((out, false), s, w)
    | some p ↦ let got = pipes.has_msg p w in ((out, got.0), s, got.1)
  ]

  abbrev pub writable : Req → Bool × List Item × W → (Bool × Bool) × Req × W
  writable s (out, lb, w) = ((out, false), record s { lb = lb }, w)

  unfoldable pub events : Req → W → (Bool × Bool) × Req × W
  events s w = if s.sending then readable s false w else writable s (Lb.can_send pipes s.lb w)

  -- What follows `mb_lb_send`.
  abbrev pub remember : Req → List Item → W → Rc × Req × W
  remember s [] w = (err eagain, record s { lb = [] }, w)
  remember s (x ∷ xs) w =
      (ok 0, record { lb = x ∷ xs; pipe = some (last_pipe x xs); sending = true }, w)

  abbrev pub sent : Req → Outcome (Unit {0}) × List Item × W → Rc × Req × W
  sent s (yields (p, u), lb, w) = remember s lb w
  sent s (refuses e, lb, w) = (err e, record s { lb = lb }, w)

  unfoldable pub send : Msg → Req → W → Rc × Req × W
  send m s w = if s.sending then (err efsm, s, w) else sent s (Lb.send pipes m s.lb w)

  abbrev pub received : Req → Answer Msg × W → Answer Msg × Req × W
  received s (yields m, w) = (yields m, record s { sending = false }, w)
  received s (refuses e, w) = (refuses e, s, w)

  abbrev pub recv_from : Option ℕ → Req → W → Answer Msg × Req × W
  recv_from none s w = (refuses eagain, s, w)
  recv_from (some p) s w = received s (pipes.recv p w)

  unfoldable pub recv : Req → W → Answer Msg × Req × W
  recv s w = if s.sending then recv_from s.pipe s w else (refuses efsm, s, w)
