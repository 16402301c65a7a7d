-- ===== src/Protocol/Surveyor/Calls.antt =====
-- surveyor.c: the calls that a SURVEYOR socket gets, and what they show.
use msgbroker.Prelude.{
  ℕ, ◌≡◌, Bool, true, false, ◌&&◌, not, Option, none, some, List, [], ◌∷◌, ◌++◌, if◌then◌else◌,
}
use msgbroker.Errno.{
  Rc, ok, err, eagain, enomem, eexist, enoent, einval, enoprotoopt, efsm, minus_one, other,
}
use msgbroker.Memory.Msg.{Msg}
use msgbroker.Core.Pipe.{Answer, yields, refuses, Pipes}
use msgbroker.Protocol.Surveyor.{
  Surveyor, IntArg, add, rm, in_pipe, out_pipe, setopt, check_deadline, events, send, recv,
}

-- What a call shows: a survey went out, a reply came in, the deadline closed the survey, the caller
-- was told so, or the survey ended with the last respondent.
pub data Happening : Type 0 where
  opened replied closed told abandoned : Happening

-- No survey, an open one, or one that the deadline has closed and the caller was not told of.
pub data Phase : Type 0 where
  idle running late : Phase

-- The order in which things may happen.
abbrev pub advance : Phase → Happening → Option Phase
advance idle opened = some running
advance idle replied = none
advance idle closed = none
advance idle told = none
advance idle abandoned = none
advance running opened = none
advance running replied = some running
advance running closed = some late
advance running told = none
advance running abandoned = some idle
advance late opened = some running
advance late replied = none
advance late closed = none
advance late told = some idle
advance late abandoned = none

abbrev pub go_on : (Phase → Option Phase) → Option Phase → Option Phase
go_on f none = none
go_on f (some p) = f p

abbrev pub advances : Phase → List Happening → Option Phase
advances p [] = some p
advances p (e ∷ es) = go_on (λ q. advances q es) (advance p e)

-- The calls that a socket gets. The numbers are what the clock says.
pub data Call : Type 0 where
  adds : Bool → ℕ → Call
  rms ins outs : ℕ → Call
  polls recvs : ℕ → Call
  sends : ℕ → ℕ → Msg → Call
  sets : ℕ → ℕ → IntArg → Call

abbrev pub on_close : Happening → Bool → Bool → List Happening
on_close e before now_open = if before && not now_open then e ∷ [] else []

abbrev pub sent_event : Rc → List Happening
sent_event (ok n) = opened ∷ []
sent_event (err e) = []

-- Without an open survey, -ETIMEDOUT tells the caller.
abbrev pub recv_event : Bool → Answer Msg → List Happening
recv_event b (yields m) = replied ∷ []
recv_event true (refuses e) = []
recv_event false (refuses (other n)) = told ∷ []
recv_event false (refuses eagain) = []
recv_event false (refuses enomem) = []
recv_event false (refuses eexist) = []
recv_event false (refuses enoent) = []
recv_event false (refuses einval) = []
recv_event false (refuses enoprotoopt) = []
recv_event false (refuses efsm) = []
recv_event false (refuses minus_one) = []

abbrev pub phase_of : Bool → Bool → Phase
phase_of true t = running
phase_of false true = late
phase_of false false = idle

abbrev pub phase : Surveyor → Phase
phase s = phase_of s.surveying s.timed_out

-- A survey that is open has not timed out.
abbrev pub IsGood : Surveyor → Type 0
IsGood s = s.surveying && s.timed_out ≡ false

module _ {W : Type 0} (pipes : Pipes W) (rounds : W → ℕ) where
  abbrev pub State : Type 0
  State = List Happening × Surveyor × W

  -- What a call shows after the check of the deadline, and the state.
  abbrev pub sent_result : Surveyor → Surveyor → Option (Rc × Surveyor × W) → Option State
  sent_result s c none = none
  sent_result s c (some (rc, s', w')) =
      some (on_close closed s.surveying c.surveying ++ sent_event rc, s', w')

  abbrev pub recv_result : Surveyor → Surveyor → Option (Answer Msg × Surveyor × W) → Option State
  recv_result s c none = none
  recv_result s c (some (a, s', w')) =
      some (on_close closed s.surveying c.surveying ++ recv_event c.surveying a, s', w')

  abbrev pub poll_result : Surveyor → Option (Bool × Bool × Surveyor × W) → Option State
  poll_result s none = none
  poll_result s (some (o, i, s', w')) = some (on_close closed s.surveying s'.surveying, s', w')

  -- The socket after the check of the deadline.
  abbrev pub checked : Surveyor → Option (Surveyor × W) → Surveyor
  checked s none = s
  checked s (some (c, w)) = c

  -- One call. The rounds of the drain loops are what `rounds` says.
  abbrev pub call : Call → Surveyor → W → Option State
  call (adds a p) s w = some ([], (add a p s).1, w)
  call (rms p) s w = some (on_close abandoned s.surveying (rm p s).surveying, rm p s, w)
  call (ins p) s w = some ([], in_pipe p s, w)
  call (outs p) s w = some ([], out_pipe p s, w)
  call (polls now) s w = poll_result s (events pipes (rounds w) now s w)
  call (recvs now) s w =
      let c = checked s (check_deadline pipes (rounds w) now s w) in
      recv_result s c (recv pipes (rounds w) now s w)
  call (sends now later m) s w =
      let c = checked s (check_deadline pipes (rounds w) now s w) in
      sent_result s c (send pipes (rounds w) now later m s w)
  call (sets l o a) s w = some ([], (setopt l o a s).1, w)

  abbrev pub joined : List Happening → Option State → Option State
  joined es none = none
  joined es (some (fs, s, w)) = some (es ++ fs, s, w)

  abbrev pub run_on : (Surveyor → W → Option State) → Option State → Option State
  run_on rest none = none
  run_on rest (some (es, s, w)) = joined es (rest s w)

  abbrev pub run : List Call → Surveyor → W → Option State
  run [] s w = some ([], s, w)
  run (c ∷ cs) s w = run_on (λ s' w'. run cs s' w') (call c s w)
