-- ===== src/Protocol/Surveyor.antt =====
-- src/protocol/survey/surveyor.c: a SURVEYOR socket. A survey goes to every respondent, and the replies
-- are taken until its deadline.
mod Drain
mod Calls
mod Course
mod Late
mod Tests
use msgbroker.Prelude.{
  ℕ, zero, suc, ◌+◌, ◌%◌, ◌^◌, Bool, true, false, ◌&&◌, ◌||◌, not, Option, none, some, List, [],
  ◌∷◌, ◌==◌, ltb, leb, if◌then◌else◌,
}
use msgbroker.Errno.{Errno, Rc, ok, err, eagain, enomem, efsm, einval, enoprotoopt}
use msgbroker.Memory.Msg.{Msg}
use msgbroker.Core.Pipe.{Answer, yields, refuses, Pipes}
use msgbroker.Utils.Rotor.{Item, Outcome, names, mark, probe}
use msgbroker.Utils.Rotor
use msgbroker.Protocol.Spread.{any_yes, send_copies}
use msgbroker.Protocol.Types.{surveyor_type, respondent_type, xrespondent_type}

-- `MB_SURVEYOR_DEFAULT_DEADLINE_MS`, and `MB_SURVEYOR_DEADLINE` of include/msgbroker/mb_survey.h.
abbrev pub default_deadline_ms : ℕ
default_deadline_ms = 1000

abbrev pub surveyor_deadline : ℕ
surveyor_deadline = 1

-- `ETIMEDOUT` of errno.h.
abbrev pub etimedout : Errno
etimedout = Errno.other 110

-- `struct mb_surveyor`; a `struct mb_surveyor_pipe_data` has the fields of an item of a rotating list.
pub record Surveyor : Type 0 where
  pub pipes : List Item
  pub surveying : Bool
  pub timed_out : Bool
  pub deadline_ms : ℕ
  pub survey_expire_ms : ℕ

abbrev pub create : Surveyor
create = record {
  pipes = [];
  surveying = false;
  timed_out = false;
  deadline_ms = default_deadline_ms;
  survey_expire_ms = 0;
}

-- `alloc_ok` is whether `mb_alloc` gives the pipe's item.
abbrev pub add : Bool → ℕ → Surveyor → Rc × Surveyor
add false p s = (err enomem, s)
add true p s = (ok 0, record s { pipes = Rotor.add p s.pipes })

abbrev pub is_nil : List Item → Bool
is_nil [] = true
is_nil (x ∷ xs) = false

-- With the last respondent an open survey ends.
unfoldable pub rm : ℕ → Surveyor → Surveyor
rm p s =
    let rest = Rotor.rm p s.pipes in
    record s { pipes = rest; surveying = if is_nil rest then false else s.surveying }

-- `mb_surveyor_in`.
abbrev pub in_pipe : ℕ → Surveyor → Surveyor
in_pipe p s = record s { pipes = mark p s.pipes }

-- `mb_surveyor_out` does nothing.
abbrev pub out_pipe : ℕ → Surveyor → Surveyor
out_pipe p s = s

-- The value given to an option of type `int`: NULL or of another size, a negative number, or a number.
pub data IntArg : Type 0 where
  malformed : IntArg
  negative : ℕ → IntArg
  given : ℕ → IntArg

abbrev pub set_deadline : IntArg → Surveyor → Rc × Surveyor
set_deadline malformed s = (err einval, s)
set_deadline (negative n) s = (err einval, s)
set_deadline (given ms) s = (ok 0, record s { deadline_ms = ms })

abbrev pub setopt : ℕ → ℕ → IntArg → Surveyor → Rc × Surveyor
setopt level option arg s =
    if level == surveyor_type && option == surveyor_deadline
    then set_deadline arg s
    else (err enoprotoopt, s)

-- `room` is whether there is a place for an `int`.
abbrev pub getopt : ℕ → ℕ → Bool → Surveyor → Answer ℕ
getopt level option room s =
    if level == surveyor_type && option == surveyor_deadline
    then (if room then yields s.deadline_ms else refuses einval)
    else refuses enoprotoopt

abbrev pub ispeer : ℕ → Bool
ispeer t = t == respondent_type || t == xrespondent_type

module _ {W : Type 0} (pipes : Pipes W) where
  abbrev pub drained : (W → Option W) → Answer Msg × W → Option W
  drained again (yields m, w) = again w
  drained again (refuses e, w) = some w

  -- The inner loop of `mb_surveyor_drain`, for at most `fuel` rounds.
  unfoldable pub drain_pipe : ℕ → ℕ → W → Option W
  drain_pipe zero p w = none
  drain_pipe (suc fuel) p w = drained (λ v. drain_pipe fuel p v) (pipes.recv p w)

  abbrev pub kept : Item → Option (List Item × W) → Option (List Item × W)
  kept x none = none
  kept x (some (xs, w)) = some (record x { active = false } ∷ xs, w)

  abbrev pub drain_rest : (W → Option (List Item × W)) → Item → Option W → Option (List Item × W)
  drain_rest rest x none = none
  drain_rest rest x (some w) = kept x (rest w)

  -- `mb_surveyor_drain`.
  unfoldable pub drain : ℕ → List Item → W → Option (List Item × W)
  drain fuel [] w = some ([], w)
  drain fuel (x ∷ xs) w = drain_rest (λ v. drain fuel xs v) x (drain_pipe fuel x.pipe w)

  abbrev pub is_late : ℕ → Surveyor → Bool
  is_late now s = s.surveying && (ltb 0 s.deadline_ms && leb s.survey_expire_ms now)

  abbrev pub closed_with : Surveyor → Option (List Item × W) → Option (Surveyor × W)
  closed_with s none = none
  closed_with s (some (ps, w)) =
      some (record s { pipes = ps; surveying = false; timed_out = true }, w)

  -- `now` is what `mb_clock_ms` says.
  unfoldable pub check_deadline : ℕ → ℕ → Surveyor → W → Option (Surveyor × W)
  check_deadline fuel now s w =
      if is_late now s then closed_with s (drain fuel s.pipes w) else some (s, w)

  abbrev pub after : {R : Type 0} → (Surveyor → W → Option R) → Option (Surveyor × W) → Option R
  after go none = none
  after go (some (s, w)) = go s w

  -- OUT, IN, the socket and the state of the pipes.
  abbrev pub polled : Surveyor → W → Bool × Bool × Surveyor × W
  polled s w =
      let out = any_yes pipes.can_send (names s.pipes) w in
      let inn = any_yes pipes.has_msg (names s.pipes) w in
      if s.surveying then (false, inn.0, s, inn.1) else (out.0, false, s, out.1)

  unfoldable pub events : ℕ → ℕ → Surveyor → W → Option (Bool × Bool × Surveyor × W)
  events fuel now s w = after (λ s' w'. some (polled s' w')) (check_deadline fuel now s w)

  -- What follows the loop that sends, at the time `later`.
  abbrev pub surveyed : ℕ → Surveyor → ℕ × W → Rc × Surveyor × W
  surveyed later s (zero, w) = (err eagain, s, w)
  surveyed later s (suc n, w) =
      let expire = if ltb 0 s.deadline_ms then (later + s.deadline_ms) % 2 ^ 64 else 0 in
      (ok 0, record s { surveying = true; timed_out = false; survey_expire_ms = expire }, w)

  abbrev pub send_drained : ℕ → Msg → Surveyor → Option (List Item × W) → Option (Rc × Surveyor × W)
  send_drained later m s none = none
  send_drained later m s (some (ps, w)) =
      some (surveyed later (record s { pipes = ps }) (send_copies pipes m (names ps) w))

  abbrev pub send_checked : ℕ → ℕ → Msg → Surveyor → W → Option (Rc × Surveyor × W)
  send_checked fuel later m s w =
      if s.surveying then some (err efsm, s, w) else send_drained later m s (drain fuel s.pipes w)

  unfoldable pub send : ℕ → ℕ → ℕ → Msg → Surveyor → W → Option (Rc × Surveyor × W)
  send fuel now later m s w =
      after (λ s' w'. send_checked fuel later m s' w') (check_deadline fuel now s w)

  abbrev pub received : Surveyor → Outcome Msg × List Item × W → Answer Msg × Surveyor × W
  received s (yields (p, m), items, w) = (yields m, record s { pipes = items }, w)
  received s (refuses e, items, w) = (refuses e, record s { pipes = items }, w)

  abbrev pub recv_checked : Surveyor → W → Answer Msg × Surveyor × W
  recv_checked s w =
      if s.surveying
      then received s (probe pipes.recv [] s.pipes w)
      else if s.timed_out
      then (refuses etimedout, record s { timed_out = false }, w)
      else (refuses efsm, s, w)

  unfoldable pub recv : ℕ → ℕ → Surveyor → W → Option (Answer Msg × Surveyor × W)
  recv fuel now s w = after (λ s' w'. some (recv_checked s' w')) (check_deadline fuel now s w)
