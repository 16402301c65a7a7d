-- ===== src/Protocol/Respondent.antt =====
-- src/protocol/survey/respondent.c: a RESPONDENT socket. A survey is taken from one of the pipes, and
-- the response goes to the same pipe before the next survey is taken.
mod Alternation
mod Tests
use msgbroker.Prelude.{
  ℕ, Bool, true, false, not, Option, none, some, List, [], ◌∷◌, if◌then◌else◌, ◌==◌, ◌||◌,
}
use msgbroker.Errno.{Errno, Rc, ok, err, eagain, enomem, efsm, enoprotoopt, is_eagain}
use msgbroker.Protocol.Types.{surveyor_type, xsurveyor_type}
use msgbroker.Memory.Msg.{Msg}
use msgbroker.Core.Pipe.{Answer, yields, refuses, Pipes, points_to}
use msgbroker.Utils.Rotor.{Item, Outcome, names, probe, mark}
use msgbroker.Utils.Rotor
use msgbroker.Protocol.Spread.{any_yes}

-- `struct mb_respondent`; a `struct mb_respondent_pipe_data` has the fields of an item of a rotating
-- list.
pub record Respondent : Type 0 where
  pub pipe_list : List Item
  pub last_pipe : Option ℕ

abbrev pub create : Respondent
create = record { pipe_list = []; last_pipe = none }

-- `alloc_ok` is whether `mb_alloc` gives the pipe's item.
abbrev pub add : Bool → ℕ → Respondent → Rc × Respondent
add false p s = (err enomem, s)
add true p s = (ok 0, record s { pipe_list = Rotor.add p s.pipe_list })

unfoldable pub rm : ℕ → Respondent → Respondent
rm p s = record {
  pipe_list = Rotor.rm p s.pipe_list;
  last_pipe = if points_to s.last_pipe p then none else s.last_pipe;
}

abbrev pub in_pipe : ℕ → Respondent → Respondent
in_pipe p s = record s { pipe_list = mark p s.pipe_list }

-- `mb_respondent_out` does nothing.
abbrev pub out_pipe : ℕ → Respondent → Respondent
out_pipe p s = s

abbrev pub setopt : Rc
setopt = err enoprotoopt

abbrev pub getopt : Rc
getopt = err enoprotoopt

abbrev pub ispeer : ℕ → Bool
ispeer t = t == surveyor_type || t == xsurveyor_type

module _ {W : Type 0} (pipes : Pipes W) where
  -- OUT, IN and the state of the pipes.
  abbrev pub events : Respondent → W → Bool × Bool × W
  events s w = elim s.last_pipe [
    | some p ↦ let a = pipes.can_send p w in (a.0, false, a.1)
    | none ↦ let a = any_yes pipes.has_msg (names s.pipe_list) w in (false, a.0, a.1)
  ]

  abbrev pub received : Respondent → Outcome Msg × List Item × W → Answer Msg × Respondent × W
  received s (yields (p, m), items, w) =
      (yields m, record s { pipe_list = items; last_pipe = some p }, w)
  received s (refuses e, items, w) = (refuses e, record s { pipe_list = items }, w)

  unfoldable pub recv : Respondent → W → Answer Msg × Respondent × W
  recv s w = elim s.last_pipe [
    | some p ↦ (refuses efsm, s, w)
    | none ↦ received s (probe pipes.recv [] s.pipe_list w)
  ]

  -- On -EAGAIN the pipe is kept, for another try.
  abbrev pub replied : Respondent → Answer (Unit {0}) × W → Rc × Respondent × W
  replied s (yields u, w) = (ok 0, record s { last_pipe = none }, w)
  replied s (refuses e, w) =
      (err e, (if not (is_eagain (err e)) then record s { last_pipe = none } else s), w)

  unfoldable pub send : Msg → Respondent → W → Rc × Respondent × W
  send m s w = elim s.last_pipe [ none ↦ (err efsm, s, w) | some p ↦ replied s (pipes.send m p w) ]
